-- ===== src/Worker/Drain.antt =====
-- `drain` stops after at most `max_jobs` jobs, and early only when nothing waits.
use open_reachout.Base.{
  ℕ, zero, suc, ◌+◌, ◌<◌, ◌≤◌, ◌≡◌, Bool, true, false, List, arith, refl, Result, ok, err, Error,
  data_error, after, Bool-cases, inl, inr,
}
use open_reachout.Db.{Db, QueueName}
use open_reachout.Queue.{Job, reap_expired}
use open_reachout.Worker.{
  Postgres, takes_error, settle_transaction, handler_for, conclude, handle, Handlers,
  queue_priority, after_run, run_once, drain_loop, drain,
}
use open_reachout.Worker.Priority.{AllQuiet, Turn, rest, work, worked, run_once-Turn}

-- A handler raised an exception whose text the database does not take.
abbrev pub Refuses : Postgres → Handlers → Error → Type 0
Refuses pg hs x =
    (x ≡ data_error)
    × (e : Error) × (job : Job) × (db : Db) × ((handler_for hs job.queue job db).0 ≡ err e)
    × (takes_error pg e ≡ false)

-- What `drain` returns, or why it raises
abbrev pub Drained : Postgres → Handlers → ℕ → Result ℕ × Db → Type 0
Drained pg hs most (ok processed, db) =
    (processed ≤ most) × (processed < most → AllQuiet hs db queue_priority)
Drained pg hs most (err x, db) = Refuses pg hs x

-- What `run_once` leaves to the loop: all queues quiet, or an error of the database's.
abbrev Idle : Postgres → Handlers → List QueueName → Result Bool × Db → Type 0
Idle pg hs qs (ok true, db) = Unit
Idle pg hs qs (ok false, db) = AllQuiet hs db qs
Idle pg hs qs (err x, db) = Refuses pg hs x

module _ (pg : Postgres) (hs : Handlers) where
  conclude-Idle :
      (qs : List QueueName) (job : Job) (db : Db) (p : Result Unit × Db)
      → (handler_for hs job.queue job db).0 ≡ p.0
      → Idle pg hs qs (worked (conclude pg job (settle_transaction db p)))
  unfolding conclude
  conclude-Idle qs job db (ok a, s) h = tt
  conclude-Idle qs job db (err e, s) h = elim (Bool-cases (takes_error pg e)) [
    | inl t ↦ rw t tt
    | inr f ↦ rw f (refl, e, job, db, h, f)
  ]

  Turn-Idle :
      {db : Db} {qs : List QueueName} {x : Result Bool × Db} → Turn pg hs db qs x → Idle pg hs qs x
  unfolding handle
  Turn-Idle (rest all) = all
  Turn-Idle {qs = qs} (work before after q g i r e all has f at) = conclude-Idle qs _ _ _ refl

  after_run-Drained :
      (left processed most : ℕ) (x : Result Bool × Db)
      → Idle pg hs queue_priority x
      → processed + suc left ≡ most
      → ((db : Db) → Drained pg hs most (drain_loop pg hs left (suc processed) db))
      → Drained pg hs most (after x (after_run pg (drain_loop pg hs left) processed))
  after_run-Drained left processed most (ok true, db) quiet e go_on = go_on db
  after_run-Drained left processed most (ok false, db) quiet e go_on = (omega arith, λ _. quiet)
  after_run-Drained left processed most (err x, db) quiet e go_on = quiet

  drain_loop-Drained :
      (left processed most : ℕ) (db : Db)
      → processed + left ≡ most
      → Drained pg hs most (drain_loop pg hs left processed db)
  unfolding drain_loop
  drain_loop-Drained zero processed most db e = (omega arith, λ lt. absurd (omega arith))
  drain_loop-Drained (suc left) processed most db e =
      after_run-Drained left processed most (run_once pg hs db) (Turn-Idle (run_once-Turn pg hs db))
        e (λ db'. drain_loop-Drained left (suc processed) most db' (omega arith))

-- `drain` returns a number of at most `max_jobs` jobs; if it is less, then in the database that it
-- leaves no queue with a handler has a job that is ready and due. It raises only if a handler raises
-- an exception whose text the database does not take.
pub drain_lem :
    (pg : Postgres) (hs : Handlers) (max_jobs : ℕ) (db : Db)
    → Drained pg hs max_jobs (drain pg hs max_jobs db)
unfolding drain
drain_lem pg hs max_jobs db =
    drain_loop-Drained pg hs max_jobs 0 max_jobs (reap_expired db).1 (omega arith)
