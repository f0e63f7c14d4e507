-- ===== src/Worker/Outcome.antt =====
-- What `_handle` leaves behind, whatever the handler did.
use open_reachout.Base.{
  ℕ, ◌+◌, zero, suc, ◌*◌, ◌^◌, ◌<◌, ◌∙◌, ◌||◌, leb, Bool-cases, ==_refl, ℕ_eq, ◌≡◌, inl, inr, refl,
  Bool, true, false, none, some, List, arith, Result, ok, err, Error, permanent_job_error,
  compliance_job_error, data_error,
}
use open_reachout.Db.{Db, Message, JobRow, ready, done, dead}
use open_reachout.Queue.{Job, complete, fail}
use native.Mathlib.Nat.{pow-suc}
use open_reachout.Queue.Attempts.{Holds, fail_lem}
use open_reachout.Worker.{
  Postgres, takes_error, record_failure, Handlers, handler_for, settle_transaction, conclude,
  handle,
}

-- The row of a job is closed: no lease is left on it.
pub data IsClosed (now : ℕ) : JobRow → Type 0 where
  completed : {r : JobRow} → r.status ≡ done → r.lease_until ≡ none → IsClosed now r
  dead_letter : {r : JobRow} → r.status ≡ dead → r.lease_until ≡ none → IsClosed now r
  backs_off :
      {r : JobRow}
      → r.status ≡ ready
      → r.lease_until ≡ none
      → r.attempts < r.max_attempts
      → now < r.run_after
      → IsClosed now r

two_pow_pos : (n : ℕ) → 0 < 2 ^ n
two_pow_pos zero = omega arith
two_pow_pos (suc n) = omega (arith, pow-suc 2 n, two_pow_pos n)

fail-IsClosed :
    (job : Job) (e : Error) (permanent : Bool) (db : Db)
    → Holds db job
    → (r : JobRow) × ((fail job e permanent db).jobs.rows job.id ≡ some r) × IsClosed db.now r
fail-IsClosed job e permanent db o =
    elim (Bool-cases (permanent || leb job.max_attempts job.attempts)) [
      | inl t ↦ (
        record o.held { status = dead; last_error = some e; lease_until = none },
        fail_lem job e permanent db o.held job.id o.at ∙ rw (==_refl job.id, t),
        dead_letter refl refl,
      )
      | inr f ↦ (
        record o.held {
          status = ready;
          last_error = some e;
          lease_until = none;
          run_after = db.now + 30 * 2 ^ job.attempts;
        },
        fail_lem job e permanent db o.held job.id o.at ∙ rw (==_refl job.id, f),
        backs_off refl refl (ground (arith, o.same_attempts, o.same_max))
            (omega (arith, two_pow_pos job.attempts)),
      )
    ]

Holds-outbox :
    (db : Db) (job : Job) (out : List Message)
    → Holds db job
    → Holds (record db { outbox = out }) job
Holds-outbox db job out o = record {
  held = o.held;
  at = o.at;
  is_leased = o.is_leased;
  same_attempts = o.same_attempts;
  same_max = o.same_max;
}

complete-IsClosed :
    (i now : ℕ) (db : Db) (r : JobRow)
    → db.jobs.rows i ≡ some r
    → (r' : JobRow) × ((complete i db).jobs.rows i ≡ some r') × IsClosed now r'
unfolding complete
complete-IsClosed i now db r at =
    (record r { status = done; lease_until = none }, rw (==_refl i, at), completed refl refl)

record_failure-IsClosed :
    (job : Job) (e : Error) (db : Db)
    → Holds db job
    → (r : JobRow) × ((record_failure job e db).jobs.rows job.id ≡ some r) × IsClosed db.now r
record_failure-IsClosed job (compliance_job_error m) db o =
    fail-IsClosed job (compliance_job_error m) true db o
record_failure-IsClosed job (permanent_job_error m) db o =
    fail-IsClosed job (permanent_job_error m) true db o
record_failure-IsClosed job e db o = fail-IsClosed job e false db o

-- How a job ends, by what its handler returned or raised in the database db: its row is closed; or
-- the database does not take the text of the exception, and then all stays as it was but for the
-- messages already accepted, so the row stays leased, and an exception is raised.
pub data Ends (pg : Postgres) (job : Job) (db : Db) (p : Result Unit × Db)
    : Result Unit × Db → Type 0 where
  closed :
      {db' : Db} (r : JobRow)
      → db'.jobs.rows job.id ≡ some r
      → IsClosed db.now r
      → Ends pg job db p (ok tt, db')
  stuck :
      (e : Error)
      → p.0 ≡ err e
      → takes_error pg e ≡ false
      → Ends pg job db p (err data_error, record db { outbox = p.1.outbox })

conclude-Ends :
    (pg : Postgres) (job : Job) (db : Db) (p : Result Unit × Db)
    → Holds db job
    → (r : JobRow) × (p.1.jobs.rows job.id ≡ some r)
    → Ends pg job db p (conclude pg job (settle_transaction db p))
unfolding conclude
conclude-Ends pg job db (ok a, s) o (r, at) =
    let (r', at', c) = complete-IsClosed job.id db.now s r at in closed r' at' c
conclude-Ends pg job db (err e, s) o k = elim (Bool-cases (takes_error pg e)) [
  | inl t ↦
      let (r', at', c) = record_failure-IsClosed job e _ (Holds-outbox db job s.outbox o) in
      rw t (closed r' at' c)
  | inr f ↦ rw f (stuck e refl f)
]

-- Let the database hold the leased row of a job with the job's attempts. Whatever the handler does, if
-- it leaves the row of its own job in place, then `_handle` returns and
-- that row holds no lease: it is done, or dead, or ready again with an attempt left and due strictly
-- later than now. The one exception is an error whose text the database does not take: then `_handle`
-- raises, and all but the accepted messages is as it was, so the row stays leased.
pub handle-Ends :
    (pg : Postgres) (hs : Handlers) (job : Job) (db : Db)
    → Holds db job
    → (r : JobRow) × ((handler_for hs job.queue job db).1.jobs.rows job.id ≡ some r)
    → Ends pg job db (handler_for hs job.queue job db) (handle pg hs job db)
unfolding handle
handle-Ends pg hs job db o kept = conclude-Ends pg job db (handler_for hs job.queue job db) o kept
