-- ===== src/Worker.antt =====
-- The queue worker (src/open_reachout/core/worker.py): lease in one transaction, handle in a second,
-- complete or fail in a third. The handlers are parameters, as in `Worker.__init__`; the clock stands
-- still within one call of `run_once`. What Postgres takes of an exception's text is a parameter.
pub mod Outcome
pub mod Rollback
pub mod Priority
pub mod Drain
use open_reachout.Base.{
  ℕ, zero, suc, ◌+◌, Bool, true, false, Option, none, some, List, [], ◌∷◌, ◌++◌, Exec, raise, pure,
  after, Result, ok, err, Error, key_error, permanent_job_error, compliance_job_error, data_error,
  String, ◌&&◌, if◌then◌else◌, append,
}
use open_reachout.Db.{Db, QueueName, Audit}
use open_reachout.Queue.{Job, lease, complete, fail, reap_expired}

unfoldable pub queue_priority : List QueueName
queue_priority =
    QueueName.control ∷ QueueName.trigger ∷ QueueName.classify ∷ QueueName.deliver
    ∷ QueueName.compose ∷ QueueName.referral ∷ QueueName.reengage ∷ QueueName.qualify
    ∷ QueueName.enrich ∷ QueueName.discover ∷ QueueName.synthesize ∷ []

-- `with engine.begin()`: an exception rolls the tables back. What the provider has accepted stays.
abbrev pub settle_transaction : {A : Type 0} → Db → Result A × Db → Result A × Db
settle_transaction db (ok a, db') = (ok a, db')
settle_transaction db (err e, db') = (err e, record db { outbox = db'.outbox })

abbrev pub transaction : {A : Type 0} → Exec Db A → Exec Db A
transaction m db = settle_transaction db (m db)

abbrev pub Handler : Type 0
Handler = Job → Exec Db (Unit {0})

abbrev pub Handlers : Type 0
Handlers = QueueName → Option Handler

-- `self.handlers[job.queue]`
abbrev pub handler_for : Handlers → QueueName → Handler
handler_for hs q job = elim (hs q) [ none ↦ raise key_error | some h ↦ h job ]

-- What Postgres takes for a column of type text, and for CAST(... AS jsonb)
pub record Postgres : Type 0 where
  pub takes_text : String → Bool
  pub takes_json : String → Bool

-- f"compliance: {exc}"
abbrev pub compliance_text : String → String
compliance_text m = append "compliance: " m

-- f'{{"error": "{exc}"}}': the exception's text stands between the quotes as it is.
abbrev pub alert_payload : String → String
alert_payload m = append "{\"error\": \"" (append m "\"}")

-- The writes of the `except` clauses of `_handle`, in one transaction
abbrev pub record_failure : Job → Error → Db → Db
record_failure job (compliance_job_error m) db =
    let failed = fail job (compliance_job_error m) true db in
    record failed { audit = failed.audit ++ Audit.compliance_alert job.id ∷ [] }
record_failure job (permanent_job_error m) db = fail job (permanent_job_error m) true db
record_failure job e db = fail job e false db

module _ (pg : Postgres) where
  -- Does the database take what an `except` clause writes? repr(exc) escapes what text cannot hold.
  unfoldable pub takes_error : Error → Bool
  takes_error (compliance_job_error m) =
      pg.takes_text (compliance_text m) && pg.takes_json (alert_payload m)
  takes_error (permanent_job_error m) = pg.takes_text m
  takes_error e = true

  -- The `except` clauses and the `else` of `_handle`. What a clause raises is not caught by another,
  -- and its transaction is rolled back.
  unfoldable pub conclude : Job → Result Unit × Db → Result Unit × Db
  unfolding takes_error
  conclude job (ok _, db) = (ok tt, complete job.id db)
  conclude job (err e, db) =
      if takes_error e then (ok tt, record_failure job e db) else (err data_error, db)

  unfoldable pub handle : Handlers → Job → Exec Db (Unit {0})
  unfolding conclude
  handle hs job db = conclude job (transaction (handler_for hs job.queue job) db)

  -- One queue of the loop in `run_once`: handle the leased job, or go on with the next queue.
  abbrev pub after_lease : Handlers → Exec Db Bool → Option Job × Db → Result Bool × Db
  after_lease hs go_on (none, db) = go_on db
  after_lease hs go_on (some job, db) = after (handle hs job db) (λ _. pure true)

  unfoldable pub run_queues : Handlers → List QueueName → Exec Db Bool
  run_queues hs [] db = pure false db
  run_queues hs (q ∷ qs) db = elim (hs q) [
    | none ↦ run_queues hs qs db
    | some _ ↦ after_lease hs (run_queues hs qs) (lease q db)
  ]

  unfoldable pub run_once : Handlers → Exec Db Bool
  unfolding queue_priority
  run_once hs = run_queues hs queue_priority

  -- The `while` of `drain`, on the number of jobs that it may still process.
  abbrev pub after_run : (ℕ → Exec Db ℕ) → ℕ → Bool → Exec Db ℕ
  after_run go_on processed true = go_on (suc processed)
  after_run go_on processed false = pure processed

  unfoldable pub drain_loop : Handlers → ℕ → ℕ → Exec Db ℕ
  drain_loop hs zero processed db = pure processed db
  drain_loop hs (suc left) processed db =
      after (run_once hs db) (after_run (drain_loop hs left) processed)

  unfoldable pub drain : Handlers → ℕ → Exec Db ℕ
  unfolding drain_loop
  drain hs max_jobs db = drain_loop hs max_jobs 0 (reap_expired db).1
