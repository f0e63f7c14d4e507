-- ===== src/Worker/Rollback.antt =====
-- What an exception in a handler leaves behind.
use open_reachout.Base.{
  ℕ, ◌+◌, ◌*◌, ◌^◌, ◌||◌, ◌++◌, [], ◌∷◌, if◌then◌else◌, ◌==◌, leb, Bool-cases, ℕ_eq, ◌≡◌, inl, inr,
  refl, Bool, true, false, none, some, List, Result, ok, err, Error, permanent_job_error,
  compliance_job_error, apply_row, ◌&&◌, ap,
}
use open_reachout.Db.{Db, Message, Audit, JobRow, ready, dead}
use open_reachout.Queue.{Job, fail}
use open_reachout.Worker.{
  Postgres, takes_error, record_failure, Handlers, handler_for, settle_transaction, conclude,
  handle,
}

-- The audit log with what an exception adds to it
abbrev pub alerted : ℕ → Error → List Audit → List Audit
alerted i (compliance_job_error m) audit = audit ++ Audit.compliance_alert i ∷ []
alerted i e audit = audit

-- Is an exception never tried again?
abbrev pub is_final : Error → Bool
is_final (compliance_job_error m) = true
is_final (permanent_job_error m) = true
is_final e = false

-- The row of a job that failed with this exception
abbrev pub failed_row : Job → Error → ℕ → JobRow → JobRow
failed_row job e now =
    if is_final e || leb job.max_attempts job.attempts
    then (λ r. record r { status = dead; last_error = some e; lease_until = none })
    else (λ r. record r {
      status = ready;
      last_error = some e;
      lease_until = none;
      run_after = now + 30 * 2 ^ job.attempts;
    })

-- The database after an exception, where `written` says whether the `except` clause was carried out.
pub record IsRolledBack (job : Job) (e : Error) (written : Bool) (out : List Message)
    (db after : Db) : Type 0 where
  pub same : after ≡ record db {
    jobs = after.jobs;
    audit = if written then alerted job.id e db.audit else db.audit;
    outbox = out;
  }
  pub next : after.jobs.next ≡ db.jobs.next
  pub row :
      (i : ℕ)
      → after.jobs.rows i ≡ (
          if written && (job.id == i)
          then apply_row (failed_row job e db.now) (db.jobs.rows i)
          else db.jobs.rows i)

fail-row :
    (job : Job) (e : Error) (db : Db) (i : ℕ)
    → (fail job e (is_final e) db).jobs.rows i ≡ (
        if job.id == i
        then apply_row (failed_row job e db.now) (db.jobs.rows i)
        else db.jobs.rows i)
unfolding fail
fail-row job e db i = elim (Bool-cases (is_final e || leb job.max_attempts job.attempts)) [
  | inl t ↦ rw t refl
  | inr f ↦ rw f refl
]

fail-frame :
    (job : Job) (e : Error) (permanent : Bool) (db : Db)
    → let after = fail job e permanent db in
      (after ≡ record db { jobs = after.jobs }) × (after.jobs.next ≡ db.jobs.next)
unfolding fail
fail-frame job e permanent db = elim (Bool-cases (permanent || leb job.max_attempts job.attempts)) [
  | inl t ↦ rw t (refl, refl)
  | inr f ↦ rw f (refl, refl)
]

record_failure-IsRolledBack :
    (job : Job) (e : Error) (db : Db)
    → IsRolledBack job e true db.outbox db (record_failure job e db)
record_failure-IsRolledBack job (compliance_job_error m) db =
    let (same, next) = fail-frame job (compliance_job_error m) true db in
    record {
      same =
          ap (λ (d : Db). record d { audit = d.audit ++ Audit.compliance_alert job.id ∷ [] }) same;
      next = next;
      row = fail-row job (compliance_job_error m) db;
    }
record_failure-IsRolledBack job (permanent_job_error m) db =
    let (same, next) = fail-frame job (permanent_job_error m) true db in
    record { same = same; next = next; row = fail-row job (permanent_job_error m) db }
record_failure-IsRolledBack job e db =
    let (same, next) = fail-frame job e false db in
    record { same = same; next = next; row = fail-row job e db }

written-IsRolledBack :
    (job : Job) (e : Error) (out : List Message) (db after : Db)
    → IsRolledBack job e true out (record db { outbox = out }) after
    → IsRolledBack job e true out db after
written-IsRolledBack job e out db after h = record { same = h.same; next = h.next; row = h.row }

conclude-IsRolledBack :
    (pg : Postgres) (job : Job) (db : Db) (p : Result Unit × Db) (e : Error)
    → p.0 ≡ err e
    → IsRolledBack job e
        (takes_error pg e)
        p.1.outbox
        db
        (conclude pg job (settle_transaction db p)).1
unfolding conclude
conclude-IsRolledBack pg job db (ok a, s) e h = cc
conclude-IsRolledBack pg job db (err x, s) e h =
    let same : x ≡ e = cc in
    rw same (elim (Bool-cases (takes_error pg e)) [
      | inl t ↦ rw t (
          written-IsRolledBack job e s.outbox db _
            (record_failure-IsRolledBack job e (record db { outbox = s.outbox })))
      | inr f ↦ rw f (record { same = refl; next = refl; row = λ i. refl })
    ])

-- An exception in the handler undoes all that it wrote. If the database takes the exception's text,
-- the job's own row becomes dead or due again after the backoff, and a compliance error adds its alert
-- to the audit log; if not, neither is written. The messages that the provider had already accepted
-- stay. Every other row and every other table is as it was before the call.
pub handle-rollback :
    (pg : Postgres) (hs : Handlers) (job : Job) (db : Db) (e : Error)
    → (handler_for hs job.queue job db).0 ≡ err e
    → IsRolledBack job e
        (takes_error pg e)
        (handler_for hs job.queue job db).1.outbox
        db
        (handle pg hs job db).1
unfolding handle
handle-rollback pg hs job db e h =
    conclude-IsRolledBack pg job db (handler_for hs job.queue job db) e h
