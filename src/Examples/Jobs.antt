-- ===== src/Examples/Jobs.antt =====
-- The queue, the worker and the lifecycle at small concrete databases.
use open_reachout.Base.{
  ◌≡◌, refl, false, none, some, [], ◌∷◌, strip_left, strip_right, ok, raise, runtime_error,
  compliance_job_error, data_error, err, true, not, any_char, is_char, append, arith, empty_table,
  insert, AllRows-insert, ℕ_eq,
}
use open_reachout.States.{state_eq}
use open_reachout.Db.{Db, JobRow, QueueName, Payload, Key, ready, leased}
use open_reachout.Queue.{Job, lease, enqueue, fail, reap_expired}
use open_reachout.Queue.Leases.{Taken, lease-Taken}
use open_reachout.Queue.Keys.{enqueue_again}
use open_reachout.Queue.Attempts.{
  here, IsBudgeted, Holds, Steps-IsBudgeted, leases, fails, reap_exceeds_budget,
}
use open_reachout.Worker.{
  Postgres, Handlers, Handler, queue_priority, takes_error, conclude, handle, run_once, drain,
}
use open_reachout.Worker.Outcome.{Ends, handle-Ends}
use open_reachout.Worker.Rollback.{IsRolledBack, handle-rollback}
use open_reachout.Worker.Priority.{Turn, run_once-Turn}
use open_reachout.Worker.Drain.{Drained, drain_lem}
use open_reachout.Deliver.{SequenceSpec}
use open_reachout.Validators.{strip}
use open_reachout.Config.{check_gaps}
use open_reachout.Config.Sequences.{Plans, check_gaps-Plans}
use open_reachout.Examples.Demo.{plain, demo}

abbrev leased_row : JobRow
leased_row = record {
  queue = QueueName.deliver;
  payload = Payload.touch 0;
  idempotency_key = some (Key.deliver 0);
  status = leased;
  attempts = 2;
  max_attempts = 5;
  lease_until = some 1000120;
  run_after = 1000000;
  last_error = none;
}

abbrev held_job : Job
held_job = record {
  id = 0;
  queue = QueueName.deliver;
  payload = Payload.touch 0;
  attempts = 2;
  max_attempts = 5;
}

abbrev one_leased : Db
one_leased = record demo { jobs = insert leased_row empty_table }

abbrev waiting : Db
waiting = record demo {
  jobs =
      insert (record leased_row { status = ready; attempts = 0; lease_until = none }) empty_table;
}

-- A handler that writes to the database and then raises.
abbrev half_done : Handler
half_done job db = raise (runtime_error "down") (record db { month = "2026-12" })

abbrev handlers : Handlers
handlers QueueName.deliver = some half_done
handlers _ = none

held-Holds : Holds one_leased held_job
held-Holds = record {
  held = leased_row;
  at = refl;
  is_leased = refl;
  same_attempts = refl;
  same_max = refl;
}

one_leased-IsBudgeted : IsBudgeted one_leased
one_leased-IsBudgeted =
    AllRows-insert leased_row empty_table ((λ e. cc), omega arith) (record { row = λ i. tt })

-- A database that takes all text, and as JSON all but what has a `#`.
abbrev demo_pg : Postgres
demo_pg = record { takes_text = λ s. true; takes_json = λ s. not (any_char (is_char b'#') s) }

handle-Ends_example :
    Ends demo_pg held_job one_leased
      (half_done held_job one_leased)
      (handle demo_pg handlers held_job one_leased)
handle-Ends_example = handle-Ends demo_pg handlers held_job one_leased held-Holds (leased_row, refl)

-- A compliance error with a text that is no JSON: the exception leaves `_handle`, and the row stays
-- leased.
abbrev objecting : Handlers
objecting q = some (λ job. raise (compliance_job_error "not a # template"))

left_leased : handle demo_pg objecting held_job one_leased ≡ (err data_error, one_leased)
unfolding handle conclude takes_error any_char append
left_leased = refl

handle-rollback_example :
    IsRolledBack held_job
      (runtime_error "down")
      (takes_error demo_pg (runtime_error "down"))
      []
      one_leased
      (handle demo_pg handlers held_job one_leased).1
handle-rollback_example =
    handle-rollback demo_pg handlers held_job one_leased (runtime_error "down") refl

run_once-Turn_example :
    Turn demo_pg handlers waiting queue_priority (run_once demo_pg handlers waiting)
run_once-Turn_example = run_once-Turn demo_pg handlers waiting

drain_lem_example : Drained demo_pg handlers 3 (drain demo_pg handlers 3 waiting)
drain_lem_example = drain_lem demo_pg handlers 3 waiting

lease-Taken_example : Taken QueueName.deliver waiting (lease QueueName.deliver waiting)
lease-Taken_example = lease-Taken QueueName.deliver waiting

enqueue_again_example :
    let db' = (enqueue QueueName.deliver (Payload.touch 0) (some (Key.deliver 0)) 0 demo).1 in
    enqueue QueueName.control (Payload.touch 1) (some (Key.deliver 0)) 60 db' ≡ (ok none, db')
enqueue_again_example =
    enqueue_again QueueName.deliver QueueName.control (Payload.touch 0) (Payload.touch 1)
      (Key.deliver 0) 0 60 demo

Steps-IsBudgeted_example :
    IsBudgeted (lease QueueName.deliver (fail held_job (runtime_error "down") false one_leased)).1
Steps-IsBudgeted_example =
    Steps-IsBudgeted
      (leases QueueName.deliver (fails held_job (runtime_error "down") false held-Holds here))
      one_leased-IsBudgeted

-- The worker died at the last attempt, and the lease has run out.
abbrev abandoned_row : JobRow
abandoned_row = record leased_row { attempts = 5; lease_until = some 999000 }

abbrev abandoned : Db
abandoned = record demo { jobs = insert abandoned_row empty_table }

reap_exceeds_budget_example : ¬ (IsBudgeted (reap_expired abandoned).1)
reap_exceeds_budget_example = reap_exceeds_budget abandoned 0 abandoned_row refl refl (omega arith)

abbrev drip : SequenceSpec
drip = record { steps = 3; gaps_days = 3 ∷ 4 ∷ [] }

drip_accepted : check_gaps plain drip ((2, "Visit them in person") ∷ []) ≡ ok tt
unfolding check_gaps strip strip_left strip_right
drip_accepted = refl

check_gaps-Plans_example : Plans 0 1 drip demo
check_gaps-Plans_example =
    check_gaps-Plans plain drip ((2, "Visit them in person") ∷ []) 0 1 demo drip_accepted
