-- ===== src/Events.antt =====
-- Provider events (src/open_reachout/core/events.py): ingestion with its deduplication, and the
-- deterministic handling of each kind. An event's touch reference is the number of a touch; the
-- verification and the parsing of a webhook are the provider's.
pub mod Once
use open_reachout.Base.{
  ℕ, zero, suc, ◌≡◌, String, Bool, true, false, Option, none, some, List, [], ◌∷◌, ◌++◌, Exec,
  Result, ok, err, Error, transition_error, pure, modify, after, ◌>>=◌, ◌>>◌, ℕ_eq, string_eq, ◌==◌,
  if◌then◌else◌, set, insert, update,
}
use open_reachout.States.{ProspectState, bounced, declined, unsubscribed, engaged}
use open_reachout.Db.{Db, Touch, TouchStatus, dispatched, Prospect, Audit, QueueName, Payload, Key}
use open_reachout.Queue.{Job, enqueue}
use open_reachout.Canonical.{Python}
use open_reachout.Control.{global_scope}
use open_reachout.Suppression.{suppress}
use open_reachout.Lifecycle.{transition}
use open_reachout.Learning.{Guardrail, record_guardrail}

pub data EventKind : Type 0 where
  reply bounce complaint unsubscribe sent delivered : EventKind

pub record ProviderEvent : Type 0 where
  pub provider_event_id : String
  pub kind : EventKind
  pub touch_id : Option ℕ
  pub body : String

-- What _prospect_for returns.
pub record Ref : Type 0 where
  pub prospect_id : ℕ
  pub tenant : String
  pub email_canonical : Option String
  pub variant_id : Option String

abbrev pub ref_of : Touch → Option Prospect → Option Ref
ref_of t none = none
ref_of t (some p) = some (record {
  prospect_id = t.prospect_id;
  tenant = p.tenant;
  email_canonical = p.email_canonical;
  variant_id = t.variant_id;
})

abbrev pub ref_at : Db → Option Touch → Option Ref
ref_at db none = none
ref_at db (some t) = ref_of t (db.prospects.rows t.prospect_id)

abbrev pub prospect_for : ProviderEvent → Db → Option Ref
prospect_for event db = elim event.touch_id [ none ↦ none | some i ↦ ref_at db (db.touches.rows i) ]

-- `except TransitionError`: the skip is audited
abbrev pub audit_skip : ℕ → ProspectState → Result (Unit {0}) × Db → Result (Unit {0}) × Db
audit_skip p target (ok u, db) = (ok u, db)
audit_skip p target (err transition_error, db) =
    (ok tt, record db { audit = db.audit ++ Audit.transition_skipped p target ∷ [] })
audit_skip p target (err e, db) = (err e, db)

unfoldable pub safe_transition : ℕ → ProspectState → Exec Db (Unit {0})
unfolding transition
safe_transition p target db = audit_skip p target (transition p target "system:events" db)

abbrev pub note_guardrail : String → Guardrail → Option String → Db → Db
note_guardrail tenant kind none db = db
note_guardrail tenant kind (some variant) db =
    if variant == "" then db else (record_guardrail tenant variant kind db).1

abbrev pub is_dispatched : TouchStatus → Bool
is_dispatched dispatched = true
is_dispatched _ = false

abbrev pub confirm_sent : Touch → Touch
confirm_sent t = if is_dispatched t.status then record t { status = TouchStatus.sent } else t

abbrev pub mark_sent : Option ℕ → Db → Db
mark_sent none db = db
mark_sent (some i) db = record db { touches = update i confirm_sent db.touches }

abbrev pub store_reply : ℕ → Option ℕ → String → Exec Db ℕ
store_reply p touch_id body db = pure db.replies.next (record db {
  replies =
      insert
        (record {
          prospect_id = p;
          touch_id = touch_id;
          body = some body;
          scrubbed = false;
          intent = none;
          agentic_exchanges = 0;
        })
        db.replies;
})

abbrev pub keep_reply : ProviderEvent → ℕ → Exec Db (Unit {0})
keep_reply event p = do
  reply_id ← store_reply p event.touch_id event.body
  _ ← enqueue QueueName.classify (Payload.reply reply_id) (some (Key.classify reply_id)) 0
  safe_transition p engaged

module _ (py : Python) where
  abbrev pub suppress_if : String → Option String → Exec Db (Unit {0})
  suppress_if reason none = pure tt
  suppress_if reason (some email) =
      if email == ""
      then pure tt
      else (do _ ← suppress py email global_scope reason none true; pure tt)

  abbrev pub close : Ref → String → Guardrail → ProspectState → Exec Db (Unit {0})
  close r reason kind target = do
    suppress_if reason r.email_canonical
    modify (note_guardrail r.tenant kind r.variant_id)
    safe_transition r.prospect_id target

  abbrev pub act_on : ProviderEvent → EventKind → Option Ref → Exec Db (Unit {0})
  act_on event bounce (some r) = close r "bounce" Guardrail.bounce bounced
  act_on event complaint (some r) = close r "complaint" Guardrail.complaint declined
  act_on event unsubscribe (some r) = close r "unsubscribe" Guardrail.unsubscribe unsubscribed
  act_on event reply (some r) = keep_reply event r.prospect_id
  act_on event sent r = modify (mark_sent event.touch_id)
  act_on event _ _ = pure tt

  unfoldable pub act : ProviderEvent → Exec Db (Unit {0})
  unfolding safe_transition
  act event db = act_on event event.kind (prospect_for event db) db

  abbrev pub mark_seen : String → Db → Db
  mark_seen e db = record db { provider_events = set e true db.provider_events }

  -- True for an event that is not a duplicate.
  abbrev pub ingest_one : ProviderEvent → Exec Db Bool
  ingest_one event db =
      if db.provider_events event.provider_event_id
      then pure false db
      else (do modify (mark_seen event.provider_event_id); act event; pure true) db

  unfoldable pub ingest_events : List ProviderEvent → Exec Db ℕ
  unfolding act
  ingest_events [] = pure 0
  ingest_events (e ∷ es) = do
    fresh ← ingest_one e
    processed ← ingest_events es
    pure (if fresh then suc processed else processed)
