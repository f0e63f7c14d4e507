-- ===== src/Queue/Keys.antt =====
-- Idempotency keys: enqueueing twice adds one job.
use open_reachout.Base.{
  ℕ, ◌<◌, ◌≡◌, true, none, some, arith, ℕ_eq, ==_refl, row_is, first, first-none, Bool-cases,
  Option-cases, inl, inr, ok,
}
use open_reachout.Db.{Db, JobRow, QueueName, Key, key_eq, Payload}
use open_reachout.Queue.{enqueue, taken, has_key, new_job}

taken_row :
    (db : Db) (k : Key) (i : ℕ) (r : JobRow)
    → i < db.jobs.next
    → db.jobs.rows i ≡ some r
    → has_key k r ≡ true
    → taken db (some k) ≡ true
unfolding taken
taken_row db k i r lt e h =
    elim (Option-cases (first (λ j. row_is (has_key k) (db.jobs.rows j)) db.jobs.next)) [
      | inl n ↦ absurd (
          ground (arith, first-none (λ j. row_is (has_key k) (db.jobs.rows j)) db.jobs.next n i lt))
      | inr s ↦ ground (arith, s.1)
    ]

taken_after :
    (q : QueueName) (p : Payload) (k : Key) (delay : ℕ) (db : Db)
    → taken (enqueue q p (some k) delay db).1 (some k) ≡ true
unfolding enqueue
taken_after q p k delay db = elim (Bool-cases (taken db (some k))) [
  | inl t ↦ rw t t
  | inr f ↦ rw f (
      taken_row _ k db.jobs.next (new_job db q p (some k) delay) (omega arith) (ground arith)
        (==_refl k))
]

enqueue-taken :
    (q : QueueName) (p : Payload) (k : Key) (delay : ℕ) (db : Db)
    → taken db (some k) ≡ true
    → enqueue q p (some k) delay db ≡ (ok none, db)
unfolding enqueue
enqueue-taken q p k delay db h = rw h

-- Submitting a job again under the same key, with whatever payload, returns None and writes nothing.
pub enqueue_again :
    (q q' : QueueName) (p p' : Payload) (k : Key) (delay delay' : ℕ) (db : Db)
    → let db' = (enqueue q p (some k) delay db).1 in
      enqueue q' p' (some k) delay' db' ≡ (ok none, db')
enqueue_again q q' p p' k delay delay' db =
    enqueue-taken q' p' k delay' (enqueue q p (some k) delay db).1 (taken_after q p k delay db)
