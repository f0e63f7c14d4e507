-- ===== src/Db.antt =====
-- The database that the program keeps its state in (src/open_reachout/db/schema.sql, and the row
-- classes of core/queue.py, core/interfaces.py and core/gatekeeper.py). uuid and bigint keys are the
-- numbers that a `Table` hands out, so a new key is fresh; a timestamp is a count of seconds.
-- `tenants` is folded into its only foreign use: a prospect carries its tenant's slug.
use open_reachout.Base.{
  ℕ, String, ◌≡◌, ◌↔◌, Bool, true, false, ◌&&◌, Option, List, arith, Error, Table, Eq, ℕ_eq,
  string_eq, ◌==◌, ==_iff,
}
use open_reachout.Base.Int.{ℤ}
use open_reachout.States.{ProspectState}

-- queue names (QUEUE_PRIORITY of core/worker.py)
pub data QueueName : Type 0 where
  control trigger classify deliver compose referral reengage qualify enrich discover synthesize :
      QueueName

abbrev pub position : QueueName → ℕ
position QueueName.control = 0
position QueueName.trigger = 1
position QueueName.classify = 2
position QueueName.deliver = 3
position QueueName.compose = 4
position QueueName.referral = 5
position QueueName.reengage = 6
position QueueName.qualify = 7
position QueueName.enrich = 8
position QueueName.discover = 9
position QueueName.synthesize = 10

abbrev pub queue_beq : QueueName → QueueName → Bool
queue_beq a b = position a == position b

pub queue_beq_iff : (a b : QueueName) → (queue_beq a b ≡ true) ↔ (a ≡ b)
queue_beq_iff a b = ground arith

instance abbrev pub queue_eq : Eq QueueName
queue_eq = record { beq = queue_beq; beq_iff = queue_beq_iff }

-- The idempotency keys that the program forms, one constructor for each f-string.
pub data Key : Type 0 where
  deliver : ℕ → Key
  followup : ℕ → ℕ → Key
  halt : String → String → Key
  pause : String → String → String → Key
  classify : ℕ → Key
  referral : ℕ → Key
  reengage : ℕ → Key
  forget : String → Key

abbrev pub key_beq : Key → Key → Bool
key_beq (Key.deliver a) (Key.deliver b) = a == b
key_beq (Key.followup a i) (Key.followup b j) = (a == b) && (i == j)
key_beq (Key.halt s f) (Key.halt t g) = (s == t) && (f == g)
key_beq (Key.pause e s r) (Key.pause f t q) = (e == f) && ((s == t) && (r == q))
key_beq (Key.classify a) (Key.classify b) = a == b
key_beq (Key.referral a) (Key.referral b) = a == b
key_beq (Key.reengage a) (Key.reengage b) = a == b
key_beq (Key.forget a) (Key.forget b) = a == b
key_beq _ _ = false

pub key_beq_iff : (a b : Key) → (key_beq a b ≡ true) ↔ (a ≡ b)
key_beq_iff (Key.deliver a) (Key.deliver b) = ground arith
key_beq_iff (Key.followup a i) (Key.followup b j) = ground arith
key_beq_iff (Key.halt s f) (Key.halt t g) = ground (arith, ==_iff s t, ==_iff f g)
key_beq_iff (Key.pause e s r) (Key.pause f t q) = ground (arith, ==_iff e f, ==_iff s t, ==_iff r q)
key_beq_iff (Key.forget a) (Key.forget b) = ground (arith, ==_iff a b)
key_beq_iff _ _ = ground arith

instance abbrev pub key_eq : Eq Key
key_eq = record { beq = key_beq; beq_iff = key_beq_iff }

pub data Payload : Type 0 where
  touch : ℕ → Payload
  step : ℕ → ℕ → Payload
  reply : ℕ → Payload
  prospect : ℕ → Payload
  pause_all_campaigns : String → Payload
  pause_lead : String → String → Payload
  delete_lead : String → ℕ → Payload
  unknown_op : Payload

pub data JobStatus : Type 0 where
  ready leased done dead : JobStatus

-- jobs
pub record JobRow : Type 0 where
  pub queue : QueueName
  pub payload : Payload
  pub idempotency_key : Option Key
  pub status : JobStatus
  pub attempts : ℕ
  pub max_attempts : ℕ
  pub lease_until : Option ℕ
  pub run_after : ℕ
  pub last_error : Option Error

pub data TouchKind : Type 0 where
  cold followup agentic_reply human_task : TouchKind

pub data TouchStatus : Type 0 where
  drafted pending_review pending_human claimed dispatched sent released : TouchStatus

-- touches
pub record Touch : Type 0 where
  pub prospect_id : ℕ
  pub campaign_id : String
  pub variant_id : Option String
  pub step_index : ℕ
  pub kind : TouchKind
  pub status : TouchStatus
  pub subject : Option String
  pub body : Option String
  pub scrubbed : Bool
  pub content_hash : String
  pub mailbox : Option String
  pub claimed_at : Option ℕ
  pub sent_at : Option ℕ

-- prospects, with the slug of the tenant that tenant_id references
pub record Prospect : Type 0 where
  pub tenant : String
  pub entity_id : ℕ
  pub cohort_id : String
  pub persona_id : String
  pub state : ProspectState
  pub email_raw : Option String
  pub email_canonical : Option String
  pub source_ref : List (String × String)
  pub email_verified : Bool

-- entities
pub record Entity : Type 0 where
  pub last_campaign_contact_at : Option ℕ
  pub active_sequence_touch_id : Option ℕ
  pub touches_12mo : ℕ
  pub active : Bool
  pub referral_asked : Bool
  pub tenant : String
  pub display_name : Option String

-- suppressions, at most one row for an address and a scope
pub record Suppression : Type 0 where
  pub email_canonical : String
  pub scope : String
  pub reason : String
  pub expires_at : Option ℕ

-- control_flags, keyed by scope
pub record Flag : Type 0 where
  pub flag : String
  pub set_by : String

pub data ScopeType : Type 0 where
  tenant_month cohort_month mailbox_day : ScopeType

abbrev pub scope_position : ScopeType → ℕ
scope_position tenant_month = 0
scope_position cohort_month = 1
scope_position mailbox_day = 2

abbrev pub scope_beq : ScopeType → ScopeType → Bool
scope_beq a b = scope_position a == scope_position b

pub scope_beq_iff : (a b : ScopeType) → (scope_beq a b ≡ true) ↔ (a ≡ b)
scope_beq_iff a b = ground arith

instance abbrev pub scope_eq : Eq ScopeType
scope_eq = record { beq = scope_beq; beq_iff = scope_beq_iff }

-- counters, keyed by scope_type, scope_id and period
pub record Counter : Type 0 where
  pub used : ℕ
  pub cap : ℕ

pub record Mailbox : Type 0 where
  pub mailbox : String
  pub tenant : String
  pub warmup_complete : Bool
  pub daily_cap : ℕ

-- variant_stats, keyed by tenant and variant
pub record VariantStats : Type 0 where
  pub trials : ℕ
  pub successes : ℕ
  pub complaints : ℕ
  pub unsubs : ℕ
  pub bounces : ℕ
  pub paused : Bool

pub record Reply : Type 0 where
  pub prospect_id : ℕ
  pub touch_id : Option ℕ
  pub body : Option String
  pub scrubbed : Bool
  pub intent : Option String
  pub agentic_exchanges : ℕ

-- what an escalation or an objection is about
pub data Subject : Type 0 where
  reply_subject : ℕ → Subject
  prospect_subject : ℕ → Subject
  cohort_subject : String → Subject

-- escalations, without the payload and the times
pub record Escalation : Type 0 where
  pub tenant : Option String
  pub subject : Subject
  pub reason : String
  pub is_open : Bool
  pub resolved_by : Option String

pub data TaskStatus : Type 0 where
  pending done skipped expired : TaskStatus

-- human_tasks, without the text of the brief, the note and the time of its resolution
pub record HumanTask : Type 0 where
  pub tenant : String
  pub prospect_id : ℕ
  pub touch_id : ℕ
  pub instruction : String
  pub status : TaskStatus
  pub created_at : ℕ
  pub resolved_by : Option String

pub data ProposalStatus : Type 0 where
  waiting approved declined : ProposalStatus

-- A proposal's payload: the keys that approving one reads
pub record ProposalPayload : Type 0 where
  pub action : Option String
  pub cohort : Option String
  pub from_cohort : Option String
  pub to_cohort : Option String
  pub amount : Option ℤ

-- proposals, without the evidence; `waiting` is the status 'open'
pub record Proposal : Type 0 where
  pub tenant : String
  pub kind : String
  pub summary : String
  pub payload : ProposalPayload
  pub status : ProposalStatus
  pub dedupe_key : Option String
  pub created_at : ℕ
  pub resolved_at : Option ℕ
  pub resolved_by : Option String

-- entity_keys
pub record EntityKey : Type 0 where
  pub entity_id : ℕ
  pub key_type : String
  pub key_value : String

-- evidence_facts
pub record Evidence : Type 0 where
  pub prospect_id : ℕ
  pub fact_type : String
  pub content : String
  pub source_url : String

-- audit_events: what happened to which row, and by whom
pub data Audit : Type 0 where
  prospect_moved : ℕ → ProspectState → ProspectState → String → Audit
  transition_skipped : ℕ → ProspectState → Audit
  touch_event : ℕ → String → String → Audit
  counter_adjusted : ScopeType → String → String → Audit
  flag_resumed : String → String → Audit
  compliance_alert : ℕ → Audit
  variant_paused : String → Audit
  no_show : ℕ → Audit
  escalation_resolved : ℕ → String → Audit
  task_event : ℕ → String → String → Audit
  proposal_event : ℕ → String → String → Audit
  cohort_event : String → String → String → Option ℕ → Audit
  forget_executed : ℕ → List ℕ → ℕ → Audit
  touch_converted : ℕ → Audit

-- gatekeeper.ClaimedTouch
pub record ClaimedTouch : Type 0 where
  pub touch_id : ℕ
  pub tenant : String
  pub mailbox : String
  pub content_sha256 : String
  pub recipient : String

-- What the provider is handed: the arguments of `provider.send`
pub record Message : Type 0 where
  pub claim : ClaimedTouch
  pub subject : String
  pub body : String

-- The tables, and what stands outside of them: the clock (`now`, and the two calendar periods that
-- the code forms from it) and `outbox`, the messages that the sending provider has accepted, which
-- no rollback takes back.
pub record Db : Type 0 where
  pub now : ℕ
  pub month : String
  pub today : String
  pub jobs : Table JobRow
  pub touches : Table Touch
  pub prospects : Table Prospect
  pub entities : Table Entity
  pub replies : Table Reply
  pub suppressions : List Suppression
  pub tombstones : String → Bool
  pub control_flags : String → Option Flag
  pub counters : ScopeType → String → String → Option Counter
  pub mailboxes : List Mailbox
  pub variant_stats : String → String → Option VariantStats
  pub provider_events : String → Bool
  pub escalations : Table Escalation
  pub human_tasks : Table HumanTask
  pub proposals : Table Proposal
  pub entity_keys : List EntityKey
  pub evidence_facts : Table Evidence
  pub receipts : ℕ
  pub gate_results : ℕ → List (String × String)
  pub audit : List Audit
  pub outbox : List Message
