-- ===== src/Queue.antt =====
-- The job queue (src/open_reachout/core/queue.py): leases, retries with backoff, dead letters and
-- the reaper, over the `jobs` table.
pub mod Leases
pub mod Keys
pub mod Attempts
use open_reachout.Base.{
  ℕ, ◌+◌, ◌*◌, ◌^◌, Bool, true, false, ◌&&◌, ◌||◌, Option, none, some, Exec, pure, Error, Table,
  ℕ_eq, ◌==◌, ltb, leb, if◌then◌else◌, row_is, apply_row, insert, update, update_where, first,
  count,
}
use open_reachout.Db.{
  Db, JobRow, QueueName, queue_eq, Key, key_eq, Payload, JobStatus, ready, leased, done, dead,
}

abbrev pub lease_seconds : ℕ
lease_seconds = 120

abbrev pub max_attempts_default : ℕ
max_attempts_default = 5

abbrev pub backoff_base_seconds : ℕ
backoff_base_seconds = 30

-- queue.Job: what a worker holds of a leased row
pub record Job : Type 0 where
  pub id : ℕ
  pub queue : QueueName
  pub payload : Payload
  pub attempts : ℕ
  pub max_attempts : ℕ

abbrev pub has_key : Key → JobRow → Bool
has_key k r = elim r.idempotency_key [ none ↦ false | some j ↦ j == k ]

abbrev pub with_jobs : Db → Table JobRow → Db
with_jobs db t = record db { jobs = t }

-- The row that an INSERT of `enqueue` adds.
abbrev pub new_job : Db → QueueName → Payload → Option Key → ℕ → JobRow
new_job db q p k delay = record {
  queue = q;
  payload = p;
  idempotency_key = k;
  status = ready;
  attempts = 0;
  max_attempts = max_attempts_default;
  lease_until = none;
  run_after = db.now + delay;
  last_error = none;
}

-- ON CONFLICT (idempotency_key) DO NOTHING: is there a row with this key? NULLs never conflict.
unfoldable pub taken : Db → Option Key → Bool
taken db none = false
taken db (some k) = elim (first (λ i. row_is (has_key k) (db.jobs.rows i)) db.jobs.next) [
  | none ↦ false
  | some _ ↦ true
]

unfoldable pub enqueue : QueueName → Payload → Option Key → ℕ → Exec Db (Option ℕ)
enqueue q p k delay db =
    if taken db k
    then (pure none db)
    else pure (some db.jobs.next) (with_jobs db (insert (new_job db q p k delay) db.jobs))

abbrev pub is_ready : JobStatus → Bool
is_ready ready = true
is_ready _ = false

abbrev pub is_leased : JobStatus → Bool
is_leased leased = true
is_leased _ = false

-- WHERE queue = :q AND status = 'ready' AND run_after <= now()
abbrev pub runnable : Db → QueueName → JobRow → Bool
runnable db q r = (r.queue == q) && (is_ready r.status && leb r.run_after db.now)

unfoldable pub next_runnable : Db → QueueName → Option ℕ
next_runnable db q = first (λ i. row_is (runnable db q) (db.jobs.rows i)) db.jobs.next

abbrev pub take_lease : ℕ → JobRow → JobRow
take_lease now r = record r {
  status = leased;
  lease_until = some (now + lease_seconds);
  attempts = r.attempts + 1;
}

abbrev pub as_job : ℕ → JobRow → Job
as_job i r = record {
  id = i;
  queue = r.queue;
  payload = r.payload;
  attempts = r.attempts;
  max_attempts = r.max_attempts;
}

abbrev pub lease_row : ℕ → Db → Option Job × Db
lease_row i db =
    let t = update i (take_lease db.now) db.jobs in
    (apply_row (as_job i) (t.rows i), with_jobs db t)

abbrev pub lease_found : Option ℕ → Db → Option Job × Db
lease_found none db = (none, db)
lease_found (some i) db = lease_row i db

unfoldable pub lease : QueueName → Db → Option Job × Db
unfolding next_runnable
lease q db = lease_found (next_runnable db q) db

abbrev pub set_done : JobRow → JobRow
set_done r = record r { status = done; lease_until = none }

unfoldable pub complete : ℕ → Db → Db
complete i db = with_jobs db (update i set_done db.jobs)

abbrev pub set_dead : Error → JobRow → JobRow
set_dead e r = record r { status = dead; last_error = some e; lease_until = none }

abbrev pub set_retry : Error → ℕ → JobRow → JobRow
set_retry e at r = record r {
  status = ready;
  last_error = some e;
  lease_until = none;
  run_after = at;
}

-- `job` is the row as it was leased, so its attempts are those of the lease
unfoldable pub fail : Job → Error → Bool → Db → Db
fail job e permanent db =
    let t =
      if permanent || leb job.max_attempts job.attempts
      then update job.id (set_dead e) db.jobs
      else update job.id (set_retry e (db.now + backoff_base_seconds * 2 ^ job.attempts)) db.jobs in
    with_jobs db t

-- status = 'leased' AND lease_until < now()
abbrev pub expired : ℕ → JobRow → Bool
expired now r = is_leased r.status && elim r.lease_until [ none ↦ false | some t ↦ ltb t now ]

abbrev pub requeue : JobRow → JobRow
requeue r = record r { status = ready; lease_until = none }

unfoldable pub reap_expired : Db → ℕ × Db
reap_expired db = (
  count (λ i. row_is (expired db.now) (db.jobs.rows i)) db.jobs.next,
  with_jobs db (update_where (expired db.now) requeue db.jobs),
)
