-- ===== src/Queue/Attempts.antt =====
-- The retry budget of a job: what `fail` makes of it, and what each operation keeps.
use open_reachout.Base.{
  ℕ, ◌+◌, ◌*◌, ◌^◌, ◌<◌, ◌≤◌, ◌≡◌, refl, Bool, true, ◌||◌, Option, none, some, arith, ◌==◌, ℕ_eq,
  if◌then◌else◌, AllRows, AllRows-get, ◌∙◌, AllRows-insert, AllRows-update, leb, Bool-cases, inl,
  inr, Error,
}
use open_reachout.Db.{Db, JobRow, QueueName, Key, key_eq, Payload, ready, leased, dead}
use open_reachout.Queue.{
  Job, taken, set_done, enqueue, lease, complete, fail, reap_expired, new_job, take_lease,
  backoff_base_seconds, set_dead, set_retry, expired,
}
use open_reachout.Queue.Leases.{Lease, idle, took, lease-Lease}

-- The attempts that a row has used up, by its status.
abbrev pub Within : JobRow → Type 0
Within r = ((r.status ≡ ready) → r.attempts < r.max_attempts) × (r.attempts ≤ r.max_attempts)

abbrev pub IsBudgeted : Db → Type 0
IsBudgeted db = AllRows Within db.jobs

-- The `Job` in a worker's hands and the row that it was leased from agree.
pub record Holds (db : Db) (job : Job) : Type 0 where
  pub held : JobRow
  pub at : db.jobs.rows job.id ≡ some held
  pub is_leased : held.status ≡ leased
  pub same_attempts : held.attempts ≡ job.attempts
  pub same_max : held.max_attempts ≡ job.max_attempts

pub enqueue-IsBudgeted :
    (q : QueueName) (p : Payload) (k : Option Key) (delay : ℕ) (db : Db)
    → IsBudgeted db
    → IsBudgeted (enqueue q p k delay db).1
unfolding enqueue
enqueue-IsBudgeted q p k delay db h = elim (Bool-cases (taken db k)) [
  | inl t ↦ rw t h
  | inr f ↦ rw f (AllRows-insert (new_job db q p k delay) db.jobs (ground arith) h)
]

Lease-IsBudgeted :
    {q : QueueName} {db : Db} {x : Option Job × Db} → Lease q db x → IsBudgeted db → IsBudgeted x.1
Lease-IsBudgeted (idle none_waits) h = h
Lease-IsBudgeted {q} {db} (took i r is_first at) h =
    AllRows-update i (take_lease db.now) db.jobs (λ s at' w. ground (arith, is_first.passes)) h

pub lease-IsBudgeted : (q : QueueName) (db : Db) → IsBudgeted db → IsBudgeted (lease q db).1
lease-IsBudgeted q db h = Lease-IsBudgeted (lease-Lease q db) h

pub complete-IsBudgeted : (i : ℕ) (db : Db) → IsBudgeted db → IsBudgeted (complete i db)
unfolding complete
complete-IsBudgeted i db h = AllRows-update i set_done db.jobs (λ r at w. ground arith) h

pub fail-IsBudgeted :
    (job : Job) (e : Error) (permanent : Bool) (db : Db)
    → Holds db job
    → IsBudgeted db
    → IsBudgeted (fail job e permanent db)
unfolding fail
fail-IsBudgeted job e permanent db o h =
    elim (Bool-cases (permanent || leb job.max_attempts job.attempts)) [
      | inl t ↦ rw t (AllRows-update job.id (set_dead e) db.jobs (λ r at w. ground arith) h)
      | inr f ↦ rw f (
          AllRows-update job.id (set_retry e (db.now + backoff_base_seconds * 2 ^ job.attempts))
            db.jobs (λ r at w. ground (arith, o.at, o.same_attempts, o.same_max)) h)
    ]

-- What happens to the queue while no lease runs out: one constructor for each operation.
pub data Steps : Db → Db → Type 0 where
  here : {db : Db} → Steps db db
  enqueues :
      {a b : Db} (q : QueueName) (p : Payload) (k : Option Key) (delay : ℕ)
      → Steps a b
      → Steps a (enqueue q p k delay b).1
  leases : {a b : Db} (q : QueueName) → Steps a b → Steps a (lease q b).1
  completes : {a b : Db} (i : ℕ) → Steps a b → Steps a (complete i b)
  fails :
      {a b : Db} (job : Job) (e : Error) (permanent : Bool)
      → Holds b job
      → Steps a b
      → Steps a (fail job e permanent b)

-- Through any sequence of enqueue, lease, complete and fail, where a job fails with the attempts that
-- its leased row has, no job ever has more attempts than its maximum, and one that is ready has fewer:
-- if that is so at first, it stays so.
pub Steps-IsBudgeted : {a b : Db} → Steps a b → IsBudgeted a → IsBudgeted b
Steps-IsBudgeted here h = h
Steps-IsBudgeted (enqueues {a} {b} q p k delay r) h =
    enqueue-IsBudgeted q p k delay b (Steps-IsBudgeted r h)
Steps-IsBudgeted (leases {a} {b} q r) h = lease-IsBudgeted q b (Steps-IsBudgeted r h)
Steps-IsBudgeted (completes {a} {b} i r) h = complete-IsBudgeted i b (Steps-IsBudgeted r h)
Steps-IsBudgeted (fails {a} {b} job e permanent o r) h =
    fail-IsBudgeted job e permanent b o (Steps-IsBudgeted r h)

-- After a failure the row is dead if the failure was permanent or the attempts are used up, and
-- otherwise ready again after 30 * 2 ^ attempts seconds; no lease is left, and no other row changes.
pub fail_lem :
    (job : Job) (e : Error) (permanent : Bool) (db : Db) (r : JobRow) (j : ℕ)
    → db.jobs.rows job.id ≡ some r
    → (fail job e permanent db).jobs.rows j ≡ (
        if job.id == j
        then (if permanent || leb job.max_attempts job.attempts
            then some (record r { status = dead; last_error = some e; lease_until = none })
            else some (record r {
              status = ready;
              last_error = some e;
              lease_until = none;
              run_after = db.now + 30 * 2 ^ job.attempts;
            }))
        else db.jobs.rows j)
unfolding fail
fail_lem job e permanent db r j h = ground (arith)

-- The reaper hands an expired lease back whatever attempts it has used: each row that is leased and
-- past its lease becomes ready with its attempts as they were, and every other row stays.
pub reap_expired_lem :
    (db : Db) (i : ℕ) (r : JobRow)
    → db.jobs.rows i ≡ some r
    → (reap_expired db).1.jobs.rows i ≡ (
        if expired db.now r then some (record r { status = ready; lease_until = none }) else some r)
unfolding reap_expired
reap_expired_lem db i r h = ground arith

-- A job whose worker died on its last attempt is ready again after the reaper, past its budget.
pub reap_exceeds_budget :
    (db : Db) (i : ℕ) (r : JobRow)
    → db.jobs.rows i ≡ some r
    → expired db.now r ≡ true
    → r.max_attempts ≤ r.attempts
    → ¬ (IsBudgeted (reap_expired db).1)
reap_exceeds_budget db i r h e m w =
    let again : JobRow = record r { status = ready; lease_until = none } in
    let at : (reap_expired db).1.jobs.rows i ≡ some again = reap_expired_lem db i r h ∙ rw e in
    let (short, _) = AllRows-get i again w at in absurd (omega (arith, short refl))
