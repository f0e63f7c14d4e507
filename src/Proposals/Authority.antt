-- ===== src/Proposals/Authority.antt =====
-- Who may approve what, and that a resolution is final.
use open_reachout.Base.{
  ℕ, ◌≡◌, ◌⊎◌, refl, ap, String, Bool, true, false, not, ◌&&◌, Option, none, some, ok, err, arith,
  Result, row_is, contains, starts_with, Bool-cases, inl, inr, string_eq, after, Exec, modify, pure,
  ◌>>◌, sym, ◌∙◌, ◌==◌, ◌>>=◌, raise, permission_error, if◌then◌else◌, Table,
}
use open_reachout.Base.Int.{ℤ}
use open_reachout.Db.{Db, Proposal, ProposalPayload, approved}
use open_reachout.Control.{human_actor_prefix}
use open_reachout.Proposals.{
  approve, approve_row, approve_open, apply_delta, settle, is_waiting, auto_applicable, shift_caps,
  pause_cohort, pauses,
}

-- What holds when `approve` has applied the proposal i.
pub record IsApproved (i : ℕ) (actor : String) (auto : Bool) (db db' : Db) : Type 0 where
  pub proposal : Proposal
  pub at : db.proposals.rows i ≡ some proposal
  pub was_waiting : is_waiting proposal ≡ true
  pub authorised :
      (starts_with human_actor_prefix actor ≡ true)
      ⊎ ((auto ≡ true) × (contains auto_applicable proposal.kind ≡ true))
  pub only_applicable : auto ≡ true → contains auto_applicable proposal.kind ≡ true
  pub now_approved : row_is is_waiting (db'.proposals.rows i) ≡ false

shift_caps-proposals :
    (m : Option ℤ) (f t : Option String) (pay : ProposalPayload) (db : Db)
    → pay.amount ≡ m
    → pay.from_cohort ≡ f
    → pay.to_cohort ≡ t
    → (shift_caps pay db).1.proposals ≡ db.proposals
shift_caps-proposals none f t pay db a b c = rw a
shift_caps-proposals (some m) none t pay db a b c = rw (a, b)
shift_caps-proposals (some m) (some f) none pay db a b c = rw (a, b, c)
shift_caps-proposals (some m) (some f) (some t) pay db a b c = rw (a, b, c)

pause-proposals :
    (c : Option String) (pay : ProposalPayload) (db : Db)
    → pay.cohort ≡ c
    → (pause_cohort pay db).1.proposals ≡ db.proposals
pause-proposals none pay db e = rw e
pause-proposals (some c) pay db e = rw e

apply_delta-proposals :
    (kind : String) (pay : ProposalPayload) (db : Db)
    → (apply_delta kind pay db).1.proposals ≡ db.proposals
unfolding apply_delta
apply_delta-proposals kind pay db =
    let moved =
      shift_caps-proposals pay.amount pay.from_cohort pay.to_cohort pay db refl refl refl in
    elim (Bool-cases (kind == "rebalance")) [
      | inl r ↦ elim (Bool-cases (pauses pay)) [
        | inl y ↦ rw (r, y, pause-proposals pay.cohort pay db refl)
        | inr n ↦ rw (r, n, moved)
      ]
      | inr o ↦ elim (Bool-cases (kind == "budget_shift")) [
        | inl y ↦ rw (o, y, moved)
        | inr n ↦ rw (o, n)
      ]
    ]

applied :
    (i : ℕ) (actor : String) (x : Result Unit × Db) (db' : Db)
    → ◌≡◌ {A = Result Bool × Db}
        (after x (λ _. modify (settle i actor approved "approved") >> pure true))
        (ok true, db')
    → (s : Db) × (◌≡◌ {A = Result Unit × Db} x (ok tt, s))
      × (db' ≡ settle i actor approved "approved" s)
applied i actor (ok tt, s) db' e = (s, refl, sym (ap (λ (q : Result Bool × Db). q.1) e))
applied i actor (err x, s) db' e = cc

not_blocked : (auto c : Bool) → (auto && not c) ≡ false → auto ≡ true → c ≡ true
not_blocked true true h e = refl
not_blocked true false h e = cc
not_blocked false c h e = cc

by_whom :
    {P : Type 0} (auto human : Bool)
    → (not auto && not human) ≡ false
    → (auto ≡ true → P)
    → (human ≡ true) ⊎ ((auto ≡ true) × P)
by_whom true human h only = inr (refl, only refl)
by_whom false true h only = inl refl
by_whom false false h only = cc

-- What approving an open proposal that returned true has done.
abbrev pub Approved : ℕ → String → Bool → Proposal → Db → Db → Type 0
Approved i actor auto p db db' =
    (auto ≡ true → contains auto_applicable p.kind ≡ true)
    × (s : Db) × (◌≡◌ {A = Result Unit × Db} (apply_delta p.kind p.payload db) (ok tt, s))
    × (db' ≡ settle i actor approved "approved" s)

open-Approved :
    (i : ℕ) (actor : String) (auto : Bool) (p : Proposal) (db db' : Db)
    → ◌≡◌ {A = Result Bool × Db} (approve_open i actor auto p db) (ok true, db')
    → Approved i actor auto p db db'
unfolding approve_open
open-Approved i actor auto p db db' e =
    tested (auto && not (contains auto_applicable p.kind)) refl e
  where
    run : Exec Db Bool
    run = apply_delta p.kind p.payload >>= λ _.
        modify (settle i actor approved "approved") >> pure true

    tested :
        (b : Bool)
        → (auto && not (contains auto_applicable p.kind)) ≡ b
        → ◌≡◌ {A = Result Bool × Db} ((if b then raise permission_error else run) db) (ok true, db')
        → Approved i actor auto p db db'
    tested true b e' = cc
    tested false b e' =
        let (s, done, out) = applied i actor (apply_delta p.kind p.payload db) db' e' in
        (not_blocked auto _ b, s, done, out)

false-true : (db db' : Db) → ◌≡◌ {A = Result Bool × Db} (ok false, db) (ok true, db') → ⊥
false-true db db' e = cc (ap (λ (q : Result Bool × Db). q.0) e)

waiting-Approved :
    (i : ℕ) (actor : String) (auto : Bool) (p : Proposal) (db db' : Db) (b : Bool)
    → ◌≡◌ {A = Result Bool × Db}
        ((if b then approve_open i actor auto p else pure false) db)
        (ok true, db')
    → (b ≡ true) × Approved i actor auto p db db'
waiting-Approved i actor auto p db db' true e = (refl, open-Approved i actor auto p db db' e)
waiting-Approved i actor auto p db db' false e = absurd (false-true db db' e)

approve_row-some :
    (i : ℕ) (actor : String) (auto : Bool) (o : Option Proposal) (db db' : Db)
    → ◌≡◌ {A = Result Bool × Db} (approve_row i actor auto o db) (ok true, db')
    → (p : Proposal) × (o ≡ some p) × (is_waiting p ≡ true) × Approved i actor auto p db db'
approve_row-some i actor auto none db db' e = absurd (false-true db db' e)
approve_row-some i actor auto (some p) db db' e =
    let (w, done) = waiting-Approved i actor auto p db db' (is_waiting p) e in (p, refl, w, done)

settled :
    (i : ℕ) (actor : String) (p : Proposal) (s : Db)
    → s.proposals.rows i ≡ some p
    → row_is is_waiting ((settle i actor approved "approved" s).proposals.rows i) ≡ false
settled i actor p s at = ground (arith, at)

-- What an approval that returned true has done, with the actor's part of it.
pub approve-some :
    (i : ℕ) (actor : String) (auto : Bool) (db db' : Db)
    → approve i actor auto db ≡ (ok true, db')
    → ((not auto && not (starts_with human_actor_prefix actor)) ≡ false)
      × (p : Proposal) × (db.proposals.rows i ≡ some p)
      × (is_waiting p ≡ true)
      × Approved i actor auto p db db'
unfolding approve
approve-some i actor auto db db' e =
    elim (Bool-cases (not auto && not (starts_with human_actor_prefix actor))) [
      | inl y ↦ cc (rw y at e)
      | inr n ↦
          let (p, at, w, done) =
            approve_row-some i actor auto (db.proposals.rows i) db db' (rw n at e) in
          (n, p, at, w, done)
    ]

-- When `approve` returns true, the proposal was open and is not open any more; the actor is a person,
-- or the approval is an automatic one; and an automatic one is of a kind that may be applied without a
-- person.
pub approve-IsApproved :
    (i : ℕ) (actor : String) (auto : Bool) (db db' : Db)
    → approve i actor auto db ≡ (ok true, db')
    → IsApproved i actor auto db db'
approve-IsApproved i actor auto db db' e =
    let (n, p, at, w, done) = approve-some i actor auto db db' e in
    let (only, s, run, out) = done in
    let kept : s.proposals ≡ db.proposals =
      sym (ap (λ (q : Result Unit × Db). q.1.proposals) run)
      ∙ apply_delta-proposals p.kind p.payload db in
    record {
      proposal = p;
      at = at;
      was_waiting = w;
      authorised = by_whom auto (starts_with human_actor_prefix actor) n only;
      only_applicable = only;
      now_approved = rw out (settled i actor p s (ap (λ (t : Table Proposal). t.rows i) kept ∙ at));
    }
