-- ===== src/Proposals/Caps.antt =====
-- What approving a shift does to the caps.
use open_reachout.Base.{
  ℕ, zero, suc, ◌+◌, ◌-◌, ◌≤◌, ◌<◌, ◌≡◌, ◌≢◌, ◌⊎◌, inl, inr, refl, sym, ap, ◌∙◌, String, Bool, true,
  false, Option, some, ok, arith, Result, string_eq, ◌==◌, ==_iff, ==_refl,
}
use open_reachout.Base.Int.{pos, neg, shift}
use open_reachout.Db.{Db, Counter, Proposal, ProposalPayload, ScopeType, cohort_month, scope_eq}
use open_reachout.Proposals.{approve, apply_delta, shift_caps, set_cap, pauses}
use open_reachout.Proposals.Authority.{approve-some}

-- A payload that moves n of the cap of one cohort to another one.
pub record Moves (p : Proposal) (n : ℕ) (from to : String) : Type 0 where
  pub shifts : (p.kind ≡ "budget_shift") ⊎ ((p.kind ≡ "rebalance") × (pauses p.payload ≡ false))
  pub amount : p.payload.amount ≡ some (pos n)
  pub from_cohort : p.payload.from_cohort ≡ some from
  pub to_cohort : p.payload.to_cohort ≡ some to

shift-neg : (cap n : ℕ) → shift cap (neg (pos n)) ≡ cap - n
shift-neg cap zero = omega arith
shift-neg cap (suc n) = refl

abbrev moved : ℕ → String → String → Db → Db
moved n from to db =
    set_cap to (λ cap. shift cap (pos n)) (set_cap from (λ cap. shift cap (neg (pos n))) db)

shifted :
    (n : ℕ) (from to : String) (pay : ProposalPayload) (db : Db)
    → pay.amount ≡ some (pos n)
    → pay.from_cohort ≡ some from
    → pay.to_cohort ≡ some to
    → shift_caps pay db ≡ (ok tt, moved n from to db)
shifted n from to pay db h k l = rw (h, k, l)

applied :
    (n : ℕ) (from to : String) (p : Proposal) (db : Db)
    → Moves p n from to
    → apply_delta p.kind p.payload db ≡ (ok tt, moved n from to db)
unfolding apply_delta
applied n from to p db m = elim m.shifts [
  | inl b ↦ rw b (shifted n from to p.payload db m.amount m.from_cohort m.to_cohort)
  | inr r ↦ rw (r.0, r.1) (shifted n from to p.payload db m.amount m.from_cohort m.to_cohort)
]

abbrev with_cap : Counter → ℕ → Counter
with_cap c cap = record c { cap = cap }

module _ (n : ℕ) (from to : String) (db : Db) (apart : from ≢ to) where
  not_same : (from == to) ≡ false
  not_same = ground (arith, ==_iff from to, apart)

  from_after :
      (a : Counter)
      → db.counters cohort_month from db.month ≡ some a
      → (moved n from to db).counters cohort_month from db.month ≡ some (with_cap a (a.cap - n))
  from_after a at =
      ground (arith, at, apart, ==_iff to from, ==_refl from, ==_refl db.month, shift-neg a.cap n)

  to_after :
      (b : Counter)
      → db.counters cohort_month to db.month ≡ some b
      → (moved n from to db).counters cohort_month to db.month ≡ some (with_cap b (b.cap + n))
  to_after b at = ground (arith, at, apart, ==_iff from to, ==_refl to, ==_refl db.month)

-- Approving a shift of n between two different cohorts that both have a cap for the month takes n from
-- the first cap, which stops at 0, and adds n to the second one, and leaves what they have used. So the
-- sum of the two caps stays the same if the first cap covers n; if it does not, the sum grows to n and
-- the second cap.
pub approve-caps :
    (i : ℕ) (actor : String) (auto : Bool) (p : Proposal) (n : ℕ) (from to : String) (a b : Counter)
    (db db' : Db)
    → db.proposals.rows i ≡ some p
    → Moves p n from to
    → from ≢ to
    → db.counters cohort_month from db.month ≡ some a
    → db.counters cohort_month to db.month ≡ some b
    → approve i actor auto db ≡ (ok true, db')
    → (x : Counter) × (y : Counter) × (db'.counters cohort_month from db.month ≡ some x)
      × (db'.counters cohort_month to db.month ≡ some y)
      × (x.used ≡ a.used)
      × (y.used ≡ b.used)
      × (x.cap ≡ a.cap - n)
      × (y.cap ≡ b.cap + n)
      × (n ≤ a.cap → x.cap + y.cap ≡ a.cap + b.cap)
      × (a.cap < n → x.cap + y.cap ≡ n + b.cap)
approve-caps i actor auto p n from to a b db db' at m apart at_a at_b e =
    let (by, q, at_q, w, done) = approve-some i actor auto db db' e in
    let (only, s, run, out) = done in
    let same : q ≡ p = some_same (sym at_q ∙ at) in
    let there : s ≡ moved n from to db =
      ap (λ (r : Result Unit × Db). r.1)
        (sym run
          ∙ ap (λ (r : Proposal). apply_delta r.kind r.payload db) same
          ∙ applied n from to p db m) in
    let counters : db'.counters ≡ (moved n from to db).counters =
      ap (λ (d : Db). d.counters) out ∙ ap (λ (d : Db). d.counters) there in
    (
      with_cap a (a.cap - n),
      with_cap b (b.cap + n),
      ap (λ (c : ScopeType → String → String → Option Counter). c cohort_month from db.month)
            counters
          ∙ from_after n from to db apart a at_a,
      ap (λ (c : ScopeType → String → String → Option Counter). c cohort_month to db.month) counters
          ∙ to_after n from to db apart b at_b,
      refl,
      refl,
      refl,
      refl,
      λ h. omega arith,
      λ h. omega arith,
    )
  where
    some_same : {x y : Proposal} → some x ≡ some y → x ≡ y
    some_same h = cc h
