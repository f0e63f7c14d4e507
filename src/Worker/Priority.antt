-- ===== src/Worker/Priority.antt =====
-- The order in which `run_once` looks at the queues.
use open_reachout.Base.{
  ℕ, ◌<◌, ◌≡◌, refl, Bool, true, false, Option, some, List, [], ◌∷◌, ◌++◌, Option-cases, inl, inr,
  IsFirst, update, ap, Result, ok, after, pure,
}
use open_reachout.Db.{Db, JobRow, QueueName}
use open_reachout.Queue.{Job, lease, take_lease, as_job, with_jobs}
use open_reachout.Queue.Leases.{Lease, idle, took, lease-Lease, waits}
use open_reachout.Worker.{
  Postgres, Handlers, Handler, queue_priority, after_lease, handle, run_queues, run_once,
}

-- Nothing for the worker in this queue: it has no handler for it, or no job waits.
abbrev pub Quiet : Handlers → Db → QueueName → Type 0
Quiet hs db q = (h : Handler) → hs q ≡ some h → (i : ℕ) → i < db.jobs.next → waits db q i ≡ false

abbrev pub AllQuiet : Handlers → Db → List QueueName → Type 0
AllQuiet hs db [] = Unit
AllQuiet hs db (q ∷ qs) = Quiet hs db q × AllQuiet hs db qs

-- `run_once` is through with a job: it returns True, or raises what handling the job raises.
abbrev pub worked : Result Unit × Db → Result Bool × Db
worked p = after p (λ _. pure true)

-- What `run_once` may do with the queues in this order: nothing, when all are quiet; or handle the
-- waiting job of least id of one queue, when all queues before it are quiet.
pub data Turn (pg : Postgres) (hs : Handlers) (db : Db)
    : List QueueName → Result Bool × Db → Type 0 where
  rest : {qs : List QueueName} → AllQuiet hs db qs → Turn pg hs db qs (ok false, db)
  work :
      {qs : List QueueName} (before after : List QueueName) (q : QueueName) (h : Handler) (i : ℕ)
      (r : JobRow)
      → qs ≡ before ++ q ∷ after
      → AllQuiet hs db before
      → hs q ≡ some h
      → IsFirst (waits db q) db.jobs.next i
      → db.jobs.rows i ≡ some r
      → Turn pg hs db qs (
          worked (
            handle pg hs
              (as_job i (take_lease db.now r))
              (with_jobs db (update i (take_lease db.now) db.jobs))))

module _ (pg : Postgres) (hs : Handlers) (db : Db) where
  later :
      (q : QueueName) (qs : List QueueName) (x : Result Bool × Db)
      → Quiet hs db q
      → Turn pg hs db qs x
      → Turn pg hs db (q ∷ qs) x
  later q qs x quiet (rest all) = rest (quiet, all)
  later q qs x quiet (work before after p h i r e all has f at) =
      work (q ∷ before) after p h i r (ap (λ l. q ∷ l) e) (quiet, all) has f at

  take-Turn :
      (q : QueueName) (qs : List QueueName) (h : Handler) (x : Option Job × Db)
      → hs q ≡ some h
      → Lease q db x
      → Turn pg hs db qs (run_queues pg hs qs db)
      → Turn pg hs db (q ∷ qs) (after_lease pg hs (run_queues pg hs qs) x)
  take-Turn q qs h x has (idle none_waits) turn = later q qs _ (λ _ _. none_waits) turn
  take-Turn q qs h x has (took i r f at) turn = work [] qs q h i r refl tt has f at

  run_queues-Turn : (qs : List QueueName) → Turn pg hs db qs (run_queues pg hs qs db)
  unfolding run_queues
  run_queues-Turn [] = rest tt
  run_queues-Turn (q ∷ qs) = elim (Option-cases (hs q)) [
    | inl e ↦ rw (e, run_queues) (later q qs _ (λ h has. cc (e, has)) (run_queues-Turn qs))
    | inr (h, e) ↦
        rw (e, run_queues) (take-Turn q qs h (lease q db) e (lease-Lease q db) (run_queues-Turn qs))
  ]

-- A call of `run_once` goes through the queues in the order of QUEUE_PRIORITY, control first: it
-- handles a job of a queue only if every queue before it is quiet, takes the waiting job of least id,
-- and returns False, with nothing changed, only if all queues are quiet. What handling a job raises,
-- it raises.
pub run_once-Turn :
    (pg : Postgres) (hs : Handlers) (db : Db) → Turn pg hs db queue_priority (run_once pg hs db)
unfolding run_once
run_once-Turn pg hs db = run_queues-Turn pg hs db queue_priority
