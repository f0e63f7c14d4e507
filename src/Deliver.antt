-- ===== src/Deliver.antt =====
-- The deliver handler (the second part of src/open_reachout/core/sendpath.py): claim, send and
-- dispatch one touch in one transaction, then plan the next step of the drip.
pub mod Outbox
pub mod Safety
pub mod Again
use open_reachout.Base.{
  ℕ, zero, suc, ◌+◌, ◌*◌, ◌≡◌, String, Bool, true, false, not, ◌&&◌, Option, none, some, List, [],
  ◌∷◌, ◌++◌, Exec, Result, ok, err, pure, raise, modify, gets, ◌>>=◌, ◌>>◌, key_error, lookup_error,
  runtime_error, permanent_job_error, ℕ_eq, string_eq, ◌==◌, if◌then◌else◌, leb, update, row_is,
  apply_row, update_where,
}
use open_reachout.States.{ProspectState, queued, contacted, state_eq}
use open_reachout.Db.{
  Db, Touch, TouchKind, agentic_reply, TouchStatus, drafted, claimed, dispatched, sent, released,
  Prospect, Entity, ClaimedTouch, Message, QueueName, Payload, Key, Audit,
}
use open_reachout.Queue.{Job, enqueue}
use open_reachout.Canonical.{Python}
use open_reachout.Gatekeeper.{
  Draft, DraftTouch, Checks, GateProfile, Verdict, issued, refused, Refusal, claim,
}
use open_reachout.PgStore.{pg_store}
use open_reachout.Lifecycle.{transition}
use open_reachout.Drafts.{set_status}
use open_reachout.Learning.{record_trial}

-- config.SequenceSpec, as far as the handler reads it
pub record SequenceSpec : Type 0 where
  pub steps : ℕ
  pub gaps_days : List ℕ

-- What the handler is built with: the provider, the contexts and sequences of the tenants, and the
-- parameters of the claim.
pub record Setup (C : Type 0) : Type 0 where
  pub py : Python
  pub checks : Checks C
  pub min_gap_days : ℕ
  pub annual_cap : ℕ
  pub send : Message → Result (Unit {0})
  pub validator_ctx_for : String → Option C
  pub sequences : Option (String → String → Option SequenceSpec)

abbrev pub profile_of : TouchKind → GateProfile
profile_of TouchKind.agentic_reply = GateProfile.reply
profile_of TouchKind.followup = GateProfile.followup
profile_of _ = GateProfile.cold

abbrev pub text_or_empty : Option String → String
text_or_empty none = ""
text_or_empty (some s) = s

module _ {C : Type 0} (ctx : C) where
  abbrev pub gate_draft : ℕ → Touch → Prospect → String → DraftTouch C
  gate_draft touch_id t p email = record {
    touch_id = touch_id;
    tenant = p.tenant;
    entity_id = p.entity_id;
    email_canonical = email;
    draft = record {
      subject = text_or_empty t.subject;
      body = text_or_empty t.body;
      step_index = t.step_index;
    };
    stored_content_hash = t.content_hash;
    groundedness_passed_hash = some t.content_hash;
    profile = profile_of t.kind;
    validator_ctx = ctx;
    cohort_id = p.cohort_id;
    prospect_id = t.prospect_id;
  }

  -- by the prospect's address
  abbrev pub with_email : ℕ → Touch → Prospect → Option String → Exec Db (DraftTouch C)
  with_email touch_id t p none = raise (permanent_job_error "prospect has no contactable address")
  with_email touch_id t p (some email) = pure (gate_draft touch_id t p email)

  -- _load_gate_draft, for a row that the handler has found to be drafted
  abbrev pub load_gate_draft : ℕ → Touch → Prospect → Exec Db (DraftTouch C)
  load_gate_draft touch_id t p = with_email touch_id t p p.email_canonical

-- Is this touch one of the prospect's? (the IN of `release_sequence`)
abbrev pub belongs : Db → ℕ → Option ℕ → Bool
belongs db prospect_id none = false
belongs db prospect_id (some i) =
    row_is (λ (t : Touch). t.prospect_id == prospect_id) (db.touches.rows i)

abbrev pub clear_sequence : Entity → Entity
clear_sequence e = record e { active_sequence_touch_id = none }

abbrev pub release_entity : ℕ → ℕ → Option Entity → Db → Bool × Db
release_entity prospect_id entity_id none db = (false, db)
release_entity prospect_id entity_id (some e) db =
    if belongs db prospect_id e.active_sequence_touch_id
    then (true, record db { entities = update entity_id clear_sequence db.entities })
    else (false, db)

abbrev pub release_of : ℕ → Option Prospect → Db → Bool × Db
release_of prospect_id none db = (false, db)
release_of prospect_id (some p) db =
    release_entity prospect_id p.entity_id (db.entities.rows p.entity_id) db

unfoldable pub release_sequence : ℕ → Db → Bool × Db
release_sequence prospect_id db = release_of prospect_id (db.prospects.rows prospect_id) db

-- seq.gaps_days[i]: an IndexError is a LookupError
unfoldable pub gap_at : List ℕ → ℕ → Option ℕ
gap_at [] i = none
gap_at (g ∷ gs) zero = some g
gap_at (g ∷ gs) (suc i) = gap_at gs i

abbrev pub schedule : ℕ → ℕ → Option ℕ → Exec Db (Unit {0})
schedule prospect_id next_step none = raise lookup_error
schedule prospect_id next_step (some days) = do
  _ ←
      enqueue QueueName.compose (Payload.step prospect_id next_step)
        (some (Key.followup prospect_id next_step)) (days * 86400)
  pure tt

abbrev pub plan_with : ℕ → ℕ → SequenceSpec → Exec Db (Unit {0})
plan_with prospect_id step_index seq =
    if leb seq.steps (step_index + 1)
    then modify (λ db. (release_sequence prospect_id db).1)
    else schedule prospect_id (step_index + 1) (gap_at seq.gaps_days step_index)

abbrev pub sequence_for :
    (String → String → Option SequenceSpec) → String → Option Prospect → Option SequenceSpec
sequence_for sequences tenant none = none
sequence_for sequences tenant (some p) = sequences tenant p.persona_id

abbrev pub is_reply : GateProfile → Bool
is_reply GateProfile.reply = true
is_reply _ = false

abbrev pub is_claimed : TouchStatus → Bool
is_claimed claimed = true
is_claimed _ = false

abbrev pub mark_dispatched : ℕ → Touch → Touch
mark_dispatched now t = record t { status = dispatched; sent_at = some now }

-- UPDATE touches SET status = 'dispatched', under the trigger enforce_claim_lineage
abbrev pub dispatch_row : ℕ → Option Touch → Exec Db (Unit {0})
dispatch_row touch_id none db = pure tt db
dispatch_row touch_id (some t) db =
    if is_claimed t.status
    then pure tt (record db { touches = update touch_id (mark_dispatched db.now) db.touches })
    else raise (runtime_error "dispatch without claim (invariant I-1)") db

unfoldable pub dispatch : ℕ → Exec Db (Unit {0})
dispatch touch_id db = dispatch_row touch_id (db.touches.rows touch_id) db

-- record_trial, for a touch with a variant; the empty text is no variant
abbrev pub note_trial : String → Option String → Db → Db
note_trial tenant none db = db
note_trial tenant (some variant) db = if variant == "" then db else record_trial tenant variant db

abbrev pub is_queued : Option Prospect → Bool
is_queued o = row_is (λ (p : Prospect). p.state == queued) o

module _ {C : Type 0} (setup : Setup C) where
  open setup use {py, checks, min_gap_days, annual_cap, send, validator_ctx_for, sequences}

  abbrev pub plan_for : ℕ → DraftTouch C → Option SequenceSpec → Exec Db (Unit {0})
  plan_for prospect_id t none = pure tt
  plan_for prospect_id t (some seq) = plan_with prospect_id t.draft.step_index seq

  abbrev pub plan_table :
      ℕ → DraftTouch C → Option (String → String → Option SequenceSpec) → Exec Db (Unit {0})
  plan_table prospect_id t none db = pure tt db
  plan_table prospect_id t (some table) db =
      if is_reply t.profile
      then pure tt db
      else plan_for prospect_id t (sequence_for table t.tenant (db.prospects.rows prospect_id)) db

  unfoldable pub plan_next_step : ℕ → DraftTouch C → Exec Db (Unit {0})
  plan_next_step prospect_id t = plan_table prospect_id t sequences

  abbrev pub accept : Message → Result (Unit {0}) → Exec Db (Unit {0})
  accept m (ok _) db = pure tt (record db { outbox = db.outbox ++ m ∷ [] })
  accept m (err e) db = raise e db

  -- The provider is called with the message that the outbox keeps if it is accepted.
  abbrev pub offer : Message → Exec Db (Unit {0})
  offer m = accept m (send m)

  -- provider.send: what it accepts leaves the program
  unfoldable pub hand_over : ClaimedTouch → Draft → Exec Db (Unit {0})
  hand_over c draft = offer (record { claim = c; subject = draft.subject; body = draft.body })

  -- The prospect moves on to `contacted` at its first dispatch.
  unfoldable pub advance : ℕ → Exec Db (Unit {0})
  unfolding transition
  advance prospect_id db =
      if is_queued (db.prospects.rows prospect_id)
      then transition prospect_id contacted "system:deliver" db
      else pure tt db

  -- What `deliver` does once the provider has accepted the message.
  unfoldable pub after_hand_over : DraftTouch C → Touch → Exec Db (Unit {0})
  unfolding advance dispatch plan_next_step
  after_hand_over t row = do
    modify (note_trial t.tenant row.variant_id)
    advance row.prospect_id
    dispatch t.touch_id
    plan_next_step row.prospect_id t

  -- From the ClaimedTouch on.
  unfoldable pub send_claimed : DraftTouch C → Touch → ClaimedTouch → Exec Db (Unit {0})
  unfolding hand_over after_hand_over
  send_claimed t row c = do hand_over c t.draft; after_hand_over t row

  abbrev pub release_touch : ℕ → Db → Db
  release_touch touch_id db = record db {
    touches = update touch_id (set_status released) db.touches;
    audit = db.audit ++ Audit.touch_event touch_id "released" "system:deliver" ∷ [];
  }

  -- A terminal refusal is the job's result; any other is raised, for the backoff.
  abbrev pub act_on : DraftTouch C → Touch → Verdict → Exec Db (Unit {0})
  act_on t row (issued c) = send_claimed t row c
  act_on t row (refused r) =
      if r.terminal
      then modify (release_touch t.touch_id)
      else raise (runtime_error "retryable refusal")

  unfoldable pub attempt : DraftTouch C → Touch → Exec Db (Unit {0})
  unfolding send_claimed
  attempt t row = do
    verdict ← claim (pg_store py min_gap_days annual_cap) checks t
    act_on t row verdict

  abbrev pub load_with : ℕ → Touch → Prospect → Option C → Exec Db (Unit {0})
  load_with touch_id row p none = raise key_error
  load_with touch_id row p (some ctx) = do t ← load_gate_draft ctx touch_id row p; attempt t row

  -- The join with prospects and tenants: without a row the tenant is None, which has no context.
  abbrev pub load : ℕ → Touch → Option Prospect → Exec Db (Unit {0})
  load touch_id row none = raise key_error
  load touch_id row (some p) = load_with touch_id row p (validator_ctx_for p.tenant)

  -- by the touch's status
  abbrev pub by_status : ℕ → Touch → TouchStatus → Exec Db (Unit {0})
  by_status touch_id row dispatched db = pure tt db
  by_status touch_id row sent db = pure tt db
  by_status touch_id row drafted db = load touch_id row (db.prospects.rows row.prospect_id) db
  by_status touch_id row _ db = raise (permanent_job_error "touch not in 'drafted' state") db

  abbrev pub deliver_row : ℕ → Option Touch → Exec Db (Unit {0})
  deliver_row touch_id none = raise (permanent_job_error "touch not in 'drafted' state")
  deliver_row touch_id (some row) = by_status touch_id row row.status

  unfoldable pub deliver_touch : ℕ → Exec Db (Unit {0})
  unfolding attempt
  deliver_touch touch_id db = deliver_row touch_id (db.touches.rows touch_id) db

  -- `str(job.payload["touch_id"])`
  abbrev pub touch_of : Payload → Option ℕ
  touch_of (Payload.touch i) = some i
  touch_of _ = none

  unfoldable pub deliver : Job → Exec Db (Unit {0})
  unfolding deliver_touch
  deliver job = elim (touch_of job.payload) [ none ↦ raise key_error | some i ↦ deliver_touch i ]
