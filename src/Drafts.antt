-- ===== src/Drafts.antt =====
-- Drafts and the review ramp (the first part of src/open_reachout/core/sendpath.py).
pub mod Ramp
use open_reachout.Base.{
  ℕ, ◌≡◌, String, Bool, true, false, not, ◌&&◌, Option, none, some, List, [], ◌∷◌, ◌++◌, Exec, pure,
  raise, modify, gets, ◌>>=◌, ◌>>◌, permission_error, ℕ_eq, string_eq, ◌==◌, if◌then◌else◌, ltb,
  insert, update, row_is, count, starts_with,
}
use open_reachout.Db.{
  Db, Touch, TouchKind, human_task, TouchStatus, drafted, pending_review, released, QueueName,
  Payload, Key, Audit,
}
use open_reachout.Queue.{enqueue}
use open_reachout.Control.{human_actor_prefix}
use open_reachout.Gatekeeper.{Draft, Checks}

abbrev pub same_variant : Option String → Option String → Bool
same_variant none none = true
same_variant (some a) (some b) = a == b
same_variant _ _ = false

abbrev pub in_ramp : String → Option String → Touch → Bool
in_ramp campaign variant t = (t.campaign_id == campaign) && same_variant t.variant_id variant

-- SELECT count(*) FROM touches WHERE campaign_id = :c AND variant_id IS NOT DISTINCT FROM :v
unfoldable pub prior_touches : String → Option String → Db → ℕ
prior_touches campaign variant db =
    count (λ i. row_is (in_ramp campaign variant) (db.touches.rows i)) db.touches.next

-- The arguments of `queue_draft` that the touch's row holds.
pub record NewDraft : Type 0 where
  pub prospect_id : ℕ
  pub campaign_id : String
  pub variant_id : Option String
  pub kind : TouchKind
  pub draft : Draft
  pub content_hash : String

abbrev pub is_human_task : TouchKind → Bool
is_human_task human_task = true
is_human_task _ = false

abbrev pub draft_row : NewDraft → TouchStatus → Touch
draft_row d status = record {
  prospect_id = d.prospect_id;
  campaign_id = d.campaign_id;
  variant_id = d.variant_id;
  step_index = d.draft.step_index;
  kind = d.kind;
  status = status;
  subject = some d.draft.subject;
  body = some d.draft.body;
  content_hash = d.content_hash;
  mailbox = none;
  scrubbed = false;
  claimed_at = none;
  sent_at = none;
}

module _ {C : Type 0} (checks : Checks C) (tokenize : Option (ℕ → String → String)) where
  -- The links are tokenized before the hash is taken, if there is a key (`tokenize` is
  -- attribution.tokenize_links with the key put in).
  abbrev pub rewrite_body : ℕ → NewDraft → (ℕ → String → String) → NewDraft
  rewrite_body touch_id d f =
      let body = f touch_id d.draft.body in
      let draft : Draft = record d.draft { body = body } in
      if body == d.draft.body
      then d
      else record d { draft = draft; content_hash = checks.content_hash draft }

  abbrev pub with_links : ℕ → NewDraft → NewDraft
  with_links touch_id d = elim tokenize [
    | none ↦ d
    | some f ↦ if is_human_task d.kind then d else rewrite_body touch_id d f
  ]

  abbrev pub held : NewDraft → ℕ → Db → Bool
  held d approve_first db =
      ltb 0 approve_first && ltb (prior_touches d.campaign_id d.variant_id db) approve_first

  unfoldable pub queue_draft : NewDraft → ℕ → Exec Db ℕ
  queue_draft d approve_first db =
      let touch_id = db.touches.next in
      let hold = held d approve_first db in
      let row = draft_row (with_links touch_id d) (if hold then pending_review else drafted) in
      let db' : Db = record db { touches = insert row db.touches } in
      (if hold then pure touch_id else (do
        _ ← enqueue QueueName.deliver (Payload.touch touch_id) (some (Key.deliver touch_id)) 0
        pure touch_id))
        db'

abbrev pub is_pending : TouchStatus → Bool
is_pending pending_review = true
is_pending _ = false

-- Does the UPDATE ... WHERE id = :i AND status = 'pending_review' meet a row?
abbrev pub pending_row : Db → ℕ → Bool
pending_row db touch_id = row_is (λ (t : Touch). is_pending t.status) (db.touches.rows touch_id)

abbrev pub set_status : TouchStatus → Touch → Touch
set_status s t = record t { status = s }

abbrev pub review : ℕ → TouchStatus → Db → Db
review touch_id status db = record db { touches = update touch_id (set_status status) db.touches }

-- _audit_review
abbrev pub audit_review : ℕ → String → String → Db → Db
audit_review touch_id event actor db = record db {
  audit = db.audit ++ Audit.touch_event touch_id event actor ∷ [];
}

unfoldable pub approve_pending : ℕ → String → Exec Db Bool
approve_pending touch_id actor db =
    if starts_with human_actor_prefix actor
    then (if pending_row db touch_id
        then (do
          modify (review touch_id drafted)
          _ ← enqueue QueueName.deliver (Payload.touch touch_id) (some (Key.deliver touch_id)) 0
          modify (audit_review touch_id "ramp_approved" actor)
          pure true)
            db
        else pure false db)
    else raise permission_error db

unfoldable pub reject_pending : ℕ → String → Exec Db Bool
reject_pending touch_id actor db =
    if starts_with human_actor_prefix actor
    then (if pending_row db touch_id
        then pure true (audit_review touch_id "ramp_rejected" actor (review touch_id released db))
        else pure false db)
    else raise permission_error db
