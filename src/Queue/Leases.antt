-- ===== src/Queue/Leases.antt =====
-- Which job `lease` of src/open_reachout/core/queue.py takes, and what it writes.
use open_reachout.Base.{
  ℕ, ◌<◌, ◌≤◌, ◌+◌, ==_iff, refl, ◌≡◌, Bool, true, false, Option, none, some, arith, ℕ_eq, ==_refl,
  row_is, IsFirst, first-none, first-some, inl, inr, Option-cases, update,
}
use open_reachout.Db.{Db, JobRow, QueueName, JobStatus, queue_eq, ready, leased}
use mathlib.Core.Path.{subst, sym}
use open_reachout.Queue.{
  lease_found, Job, lease, next_runnable, runnable, take_lease, as_job, with_jobs, is_ready,
}

-- Does row i hold a job of the queue that is ready and due?
abbrev pub waits : Db → QueueName → ℕ → Bool
waits db q i = row_is (runnable db q) (db.jobs.rows i)

-- What a lease may return: nothing, when nothing waits; or the waiting job of the least id, marked
-- as leased for `lease_seconds` with one attempt more, every other row as it was.
pub data Lease (q : QueueName) (db : Db) : Option Job × Db → Type 0 where
  idle : ((i : ℕ) → i < db.jobs.next → waits db q i ≡ false) → Lease q db (none, db)
  took :
      (i : ℕ) (r : JobRow)
      → IsFirst (waits db q) db.jobs.next i
      → db.jobs.rows i ≡ some r
      → Lease q db (
        some (as_job i (take_lease db.now r)),
        with_jobs db (update i (take_lease db.now) db.jobs),
      )

row_of :
    (db : Db) (q : QueueName) (i : ℕ)
    → waits db q i ≡ true
    → (r : JobRow) × (db.jobs.rows i ≡ some r)
row_of db q i h = elim (Option-cases (db.jobs.rows i)) [
  | inr e ↦ e
  | inl e ↦ absurd (ground (arith, e))
]

lease_nothing : (q : QueueName) (db : Db) → next_runnable db q ≡ none → lease q db ≡ (none, db)
unfolding lease
lease_nothing q db e = rw (e, lease_found)

lease_at :
    (q : QueueName) (db : Db) (i : ℕ) (r : JobRow)
    → next_runnable db q ≡ some i
    → db.jobs.rows i ≡ some r
    → lease q db
      ≡ (some (as_job i (take_lease db.now r)), with_jobs db (update i (take_lease db.now) db.jobs))
unfolding lease
lease_at q db i r e at = rw (e, lease_found) (rw (==_refl i, at))

pub lease-Lease : (q : QueueName) (db : Db) → Lease q db (lease q db)
lease-Lease q db = elim (Option-cases (next_runnable db q)) [
  | inl e ↦
      subst (λ x. Lease q db x) (sym (lease_nothing q db e))
        (idle (λ i lt. first-none (waits db q) db.jobs.next (unfold next_runnable in e) i lt))
  | inr (i, e) ↦
      let f = first-some (waits db q) db.jobs.next i (unfold next_runnable in e) in
      let (r, at) = row_of db q i f.passes in
      subst (λ x. Lease q db x) (sym (lease_at q db i r e at)) (took i r f at)
]

-- A job of the queue that is ready and due
pub record IsWaiting (q : QueueName) (db : Db) (i : ℕ) : Type 0 where
  pub row : JobRow
  pub at : db.jobs.rows i ≡ some row
  pub in_queue : row.queue ≡ q
  pub is_ready : row.status ≡ ready
  pub is_due : row.run_after ≤ db.now

-- A lease of 120 seconds, which counts as an attempt
abbrev pub with_lease : ℕ → JobRow → JobRow
with_lease now r = record r {
  status = leased;
  lease_until = some (now + 120);
  attempts = r.attempts + 1;
}

pub data Taken (q : QueueName) (db : Db) : Option Job × Db → Type 0 where
  nothing : ((i : ℕ) → i < db.jobs.next → ¬ (IsWaiting q db i)) → Taken q db (none, db)
  taken :
      (i : ℕ) (w : IsWaiting q db i)
      → i < db.jobs.next
      → ((j : ℕ) → j < i → ¬ (IsWaiting q db j))
      → Taken q db (
        some (record {
          id = i;
          queue = q;
          payload = w.row.payload;
          attempts = w.row.attempts + 1;
          max_attempts = w.row.max_attempts;
        }),
        record db { jobs = update i (with_lease db.now) db.jobs },
      )

not_waits : (q : QueueName) (db : Db) (i : ℕ) → waits db q i ≡ false → ¬ (IsWaiting q db i)
not_waits q db i h w =
    ground (arith, h, w.at, w.in_queue, w.is_ready, w.is_due, ==_iff w.row.queue q)

is_ready_lem : (s : JobStatus) → is_ready s ≡ true → s ≡ ready
is_ready_lem ready h = refl
is_ready_lem _ h = cc

waits-IsWaiting :
    (q : QueueName) (db : Db) (i : ℕ) (r : JobRow)
    → db.jobs.rows i ≡ some r
    → waits db q i ≡ true
    → (r.queue ≡ q) × (r.status ≡ ready) × (r.run_after ≤ db.now)
waits-IsWaiting q db i r at h =
    let passes : runnable db q r ≡ true = rw at at h in
    (
      (==_iff r.queue q).0 (ground (arith, passes)),
      is_ready_lem r.status (ground (arith, passes)),
      ground (arith, passes),
    )

Lease-Taken : {q : QueueName} {db : Db} {x : Option Job × Db} → Lease q db x → Taken q db x
Lease-Taken {q} {db} (idle none_waits) = nothing (λ i lt. not_waits q db i (none_waits i lt))
Lease-Taken {q} {db} (took i r f at) =
    let (in_queue, is_ready, is_due) = waits-IsWaiting q db i r at f.passes in
    let w : IsWaiting q db i = record {
      row = r;
      at = at;
      in_queue = in_queue;
      is_ready = is_ready;
      is_due = is_due;
    } in
    subst
      (λ k. Taken q db (
        some (record (as_job i (take_lease db.now r)) { queue = k }),
        record db { jobs = update i (with_lease db.now) db.jobs },
      ))
      (sym in_queue) (taken i w f.below (λ j lt. not_waits q db j (f.least j lt)))

-- `lease` takes the job of least id among those of the queue that are ready and due, and nothing if
-- there is none. The row of the job becomes leased until 120 seconds from now, with one attempt more,
-- all else stays as it was, and the worker gets the row's payload with the new count of attempts.
pub lease-Taken : (q : QueueName) (db : Db) → Taken q db (lease q db)
lease-Taken q db = Lease-Taken (lease-Lease q db)
