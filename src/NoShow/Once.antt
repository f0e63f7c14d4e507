-- ===== src/NoShow/Once.antt =====
-- A prospect that misses a booking is asked again once.
use open_reachout.Base.{
  ℕ, ◌≡◌, refl, ◌∙◌, ap, String, true, Option, none, some, List, [], ◌∷◌, ◌++◌, Exec, Result, ok,
  err, arith, ℕ_eq, ◌==◌, ==_refl, if_holds, Bool-cases, inl, inr, string_eq,
}
use open_reachout.States.{declined, allowed, assert_transition}
use open_reachout.Db.{Db, Prospect, Audit, Key}
use open_reachout.Queue.{enqueue, taken}
use open_reachout.Lifecycle.{transition, transition_from}
use open_reachout.NoShow.{
  NoShowOutcome, has_no_show, cool_down, email_of, tolerate, close_prospect, schedule_reengage,
  note_no_show, process_no_show,
}

noted : (p : ℕ) (xs ys : List Audit) → has_no_show p (xs ++ Audit.no_show p ∷ ys) ≡ true
unfolding has_no_show
noted p [] ys = rw (==_refl p)
noted p (a ∷ xs) ys = ground (arith, noted p xs ys)

longer : (p : ℕ) (xs ys : List Audit) → has_no_show p xs ≡ true → has_no_show p (xs ++ ys) ≡ true
unfolding has_no_show
longer p [] ys h = cc
longer p (a ∷ xs) ys h = ground (arith, longer p xs ys)

module _ (months : ℕ → ℕ → ℕ) where
  transition_jobs :
      (p : ℕ) (o : Option Prospect) (db : Db)
      → (transition_from p declined "system:noshow" o db).1.jobs ≡ db.jobs
  unfolding assert_transition
  transition_jobs p none db = refl
  transition_jobs p (some r) db = elim (Bool-cases (allowed r.state declined)) [
    | inl t ↦ rw t
    | inr f ↦ rw f
  ]

  tolerate_jobs : (x : Result Unit × Db) → (tolerate months x).1 ≡ x.1
  tolerate_jobs (ok _, db) = refl
  tolerate_jobs (err e, db) = ground arith

  cool_jobs : (o : Option String) (db : Db) → (cool_down months o db).jobs ≡ db.jobs
  cool_jobs none db = refl
  cool_jobs (some e) db = if_holds (λ (x : Db). x.jobs ≡ db.jobs) (e == "") _ _ refl refl

  close_jobs : (p : ℕ) (db : Db) → (close_prospect months p db).1.jobs ≡ db.jobs
  unfolding transition
  close_jobs p db =
      let db' = cool_down months (email_of months (db.prospects.rows p)) db in
      ap (λ (x : Db). x.jobs)
        (tolerate_jobs (transition_from p declined "system:noshow" (db'.prospects.rows p) db'))
      ∙ (transition_jobs p (db'.prospects.rows p) db'
          ∙ cool_jobs (email_of months (db.prospects.rows p)) db)

  jobs_kept :
      (p delay_days : ℕ) (db : Db)
      → has_no_show p db.audit ≡ true
      → (process_no_show months p delay_days db).1.jobs ≡ db.jobs
  unfolding process_no_show
  jobs_kept p delay_days db h = rw h (close_jobs p (note_no_show months p db))

  transition_noted :
      (p : ℕ) (o : Option Prospect) (db : Db)
      → has_no_show p db.audit ≡ true
      → has_no_show p (transition_from p declined "system:noshow" o db).1.audit ≡ true
  unfolding assert_transition
  transition_noted p none db h = h
  transition_noted p (some r) db h = elim (Bool-cases (allowed r.state declined)) [
    | inl t ↦ rw t (longer p db.audit _ h)
    | inr f ↦ rw f h
  ]

  cool_audit : (o : Option String) (db : Db) → (cool_down months o db).audit ≡ db.audit
  cool_audit none db = refl
  cool_audit (some e) db = if_holds (λ (x : Db). x.audit ≡ db.audit) (e == "") _ _ refl refl

  close_noted :
      (p : ℕ) (db : Db)
      → has_no_show p db.audit ≡ true
      → has_no_show p (close_prospect months p db).1.audit ≡ true
  unfolding transition
  close_noted p db h =
      let o = email_of months (db.prospects.rows p) in
      let db' = cool_down months o db in
      rw (tolerate_jobs (transition_from p declined "system:noshow" (db'.prospects.rows p) db'))
        (transition_noted p (db'.prospects.rows p) db' (ap (has_no_show p) (cool_audit o db) ∙ h))

  schedule_noted :
      (p d : ℕ) (db : Db)
      → has_no_show p db.audit ≡ true
      → has_no_show p (schedule_reengage months p d db).1.audit ≡ true
  unfolding enqueue
  schedule_noted p d db h = elim (Bool-cases (taken db (some (Key.reengage p)))) [
    | inl t ↦ rw t h
    | inr f ↦ rw f h
  ]

  recorded :
      (p delay_days : ℕ) (db : Db)
      → has_no_show p (process_no_show months p delay_days db).1.audit ≡ true
  unfolding process_no_show
  recorded p delay_days db =
      if_holds
        (λ (m : Exec Db NoShowOutcome). has_no_show p (m (note_no_show months p db)).1.audit ≡ true)
        (has_no_show p db.audit) _ _
        (close_noted p (note_no_show months p db) (noted p db.audit []))
        (schedule_noted p delay_days (note_no_show months p db) (noted p db.audit []))

  -- A prospect that misses a booking again is not asked again: `process_no_show` records the no-show
  -- whatever it does, and a second call for the same prospect leaves the job queue as it is.
  pub process_no_show_twice :
      (p delay_days delay_days' : ℕ) (db : Db)
      → let db' = (process_no_show months p delay_days db).1 in
        (has_no_show p db'.audit ≡ true)
        × ((process_no_show months p delay_days' db').1.jobs ≡ db'.jobs)
  process_no_show_twice p delay_days delay_days' db =
      (recorded p delay_days db, jobs_kept p delay_days' _ (recorded p delay_days db))
