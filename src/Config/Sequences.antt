-- ===== src/Config/Sequences.antt =====
-- A sequence that the configuration accepts can always be planned.
use open_reachout.Base.{
  ℕ, zero, suc, ◌+◌, ◌-◌, ◌*◌, ◌≤◌, ◌<◌, ◌≡◌, refl, String, Bool, true, false, not, some, List, [],
  ◌∷◌, Result, ok, err, arith, ℕ_eq, ◌==◌, Bool-cases, inl, inr, leb,
}
use open_reachout.Db.{Db, Key, Payload, QueueName}
use open_reachout.Canonical.{Python}
use open_reachout.Queue.{enqueue, taken}
use open_reachout.Deliver.{SequenceSpec, gap_at, schedule, plan_with, release_sequence}
use open_reachout.Config.{check_gaps, any_below, length, refuse_if, ◌>>◌, min_follow_up_gap_days}

gap_at-some :
    (gs : List ℕ) (i : ℕ)
    → i < length gs
    → any_below min_follow_up_gap_days gs ≡ false
    → (g : ℕ) × (gap_at gs i ≡ some g) × (min_follow_up_gap_days ≤ g)
unfolding gap_at
gap_at-some [] i lt h = elim lt [ ]
gap_at-some (g ∷ gs) zero lt h = (g, refl, ground (arith, h))
gap_at-some (g ∷ gs) (suc i) lt h = gap_at-some gs i (omega arith) (ground (arith, h))

refused_not : (b : Bool) → refuse_if b ≡ ok tt → b ≡ false
refused_not true h = cc
refused_not false h = refl

first_ok : (x y : Result Unit) → (x >> y) ≡ ok tt → x ≡ ok tt
first_ok (ok tt) y h = refl
first_ok (err e) y h = cc

second_ok : (x y : Result Unit) → (x >> y) ≡ ok tt → y ≡ ok tt
second_ok (ok tt) y h = h
second_ok (err e) y h = cc

not_equal : (a b : ℕ) → not (a == b) ≡ false → a ≡ b
not_equal a b h = ground arith

-- What the check of a sequence says of its gaps.
accepted :
    (py : Python) (seq : SequenceSpec) (tasks : List (ℕ × String))
    → check_gaps py seq tasks ≡ ok tt
    → (length seq.gaps_days ≡ seq.steps - 1)
      × (any_below min_follow_up_gap_days seq.gaps_days ≡ false)
unfolding check_gaps
accepted py seq tasks h =
    let both = first_ok _ _ h in
    (not_equal _ _ (refused_not _ (first_ok _ _ both)), refused_not _ (second_ok _ _ both))

-- What planning the step behind `step_index` does in the database.
abbrev pub Plans : ℕ → ℕ → SequenceSpec → Db → Type 0
Plans prospect_id step_index seq db =
    let q = plan_with prospect_id step_index seq db in
    let next = step_index + 1 in
    (q.0 ≡ ok tt)
    × (next < seq.steps
        → (days : ℕ) × (min_follow_up_gap_days ≤ days)
          × (q.1
              ≡ (enqueue QueueName.compose (Payload.step prospect_id next)
                  (some (Key.followup prospect_id next)) (days * 86400) db).1))
    × (seq.steps ≤ next → q.1 ≡ (release_sequence prospect_id db).1)

scheduled :
    (prospect_id next days : ℕ) (db : Db)
    → schedule prospect_id next (some days) db ≡ (
      ok tt,
      (enqueue QueueName.compose
          (Payload.step prospect_id next)
          (some (Key.followup prospect_id next))
          (days * 86400)
          db).1,
    )
unfolding enqueue
scheduled prospect_id next days db =
    elim (Bool-cases (taken db (some (Key.followup prospect_id next)))) [
      | inl t ↦ rw t refl
      | inr f ↦ rw f refl
    ]

-- After every step of a sequence that the configuration accepts, planning returns: it enqueues the next
-- step with a gap of at least three days if there is one, and else releases the sequence.
pub check_gaps-Plans :
    (py : Python) (seq : SequenceSpec) (tasks : List (ℕ × String)) (prospect_id step_index : ℕ)
    (db : Db)
    → check_gaps py seq tasks ≡ ok tt
    → Plans prospect_id step_index seq db
check_gaps-Plans py seq tasks prospect_id step_index db h =
    let (count, far) = accepted py seq tasks h in
    elim (Bool-cases (leb seq.steps (step_index + 1))) [
      | inl t ↦
          let past : seq.steps ≤ step_index + 1 = ground arith in
          rw t (refl, λ lt. absurd (omega arith), λ le. refl)
      | inr f ↦
          let inside : step_index + 1 < seq.steps = ground arith in
          let (days, at, gap) = gap_at-some seq.gaps_days step_index (omega arith) far in
          let done = scheduled prospect_id (step_index + 1) days db in
          rw (f, at, done) (refl, λ lt. (days, gap, refl), λ le. absurd (omega arith))
    ]
