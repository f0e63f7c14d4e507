-- ===== src/Deliver/Outbox.antt =====
-- Only `hand_over` adds to the outbox: every other step of a delivery leaves it alone.
use open_reachout.Base.{
  ℕ, ◌≡◌, refl, ◌∙◌, ap, if_holds, String, Option, none, some, List, Result, ◌+◌, ◌*◌, Bool-cases,
  inl, inr, leb, ◌==◌, string_eq,
}
use open_reachout.Db.{Db, Touch, Prospect, Entity, Message, QueueName, Payload, Key}
use open_reachout.States.{ProspectState, contacted, allowed, assert_transition}
use open_reachout.Canonical.{Python}
use open_reachout.Queue.{enqueue, taken}
use open_reachout.Lifecycle.{transition, transition_from}
use open_reachout.Gatekeeper.{DraftTouch, Checks, Results, claim}
use open_reachout.Gatekeeper.Keeps.{Keeps, Keeps-after, Keeps-if, StoreKeeps, claim-Keeps}
use open_reachout.PgStore.{
  pg_store, claim_row, persist_claim, is_drafted, blocked, address_of, release, adjust_down,
}
use open_reachout.PgStore.Reads.{pick-frame, consume-frame}
use open_reachout.PgStore.Budget.{is_suppressed-same}
use open_reachout.Learning.{record_trial}
use open_reachout.Deliver.{
  Setup, SequenceSpec, release_sequence, release_of, release_entity, schedule, plan_with,
  sequence_for, dispatch_row, dispatch, note_trial, plan_for, plan_next_step, advance, belongs,
  is_reply, is_claimed, is_queued, after_hand_over, plan_table,
}

-- The outbox is this one.
abbrev pub OutboxIs : List Message → Db → Type 0
OutboxIs out db = db.outbox ≡ out

claim_row-outbox :
    {C : Type 0} (t : DraftTouch C) (m : String) (rs : Results) (o : Option Touch) (db : Db)
    → (claim_row t m rs o db).1.outbox ≡ db.outbox
claim_row-outbox t m rs none db = refl
claim_row-outbox t m rs (some row) db = elim (Bool-cases (is_drafted row.status)) [
  | inr f ↦ rw f
  | inl d ↦ rw d (elim (Bool-cases (blocked db (address_of (db.prospects.rows row.prospect_id)))) [
    | inl b ↦ rw b
    | inr b ↦ rw b
  ])
]

release-outbox : (tenant cohort : String) (db : Db) → (release tenant cohort db).outbox ≡ db.outbox
unfolding release adjust_down
release-outbox tenant cohort db = refl

enqueue-outbox :
    (q : QueueName) (p : Payload) (k : Option Key) (d : ℕ) (db : Db)
    → (enqueue q p k d db).1.outbox ≡ db.outbox
unfolding enqueue
enqueue-outbox q p k d db = elim (Bool-cases (taken db k)) [ inl t ↦ rw t | inr f ↦ rw f ]

transition-outbox :
    (i : ℕ) (target : ProspectState) (actor : String) (o : Option Prospect) (db : Db)
    → (transition_from i target actor o db).1.outbox ≡ db.outbox
unfolding assert_transition
transition-outbox i target actor none db = refl
transition-outbox i target actor (some p) db = elim (Bool-cases (allowed p.state target)) [
  | inl t ↦ rw t
  | inr f ↦ rw f
]

release_entity-outbox :
    (i e : ℕ) (o : Option Entity) (db : Db) → (release_entity i e o db).1.outbox ≡ db.outbox
release_entity-outbox i e none db = refl
release_entity-outbox i e (some r) db =
    elim (Bool-cases (belongs db i r.active_sequence_touch_id)) [ inl t ↦ rw t | inr f ↦ rw f ]

release_of-outbox :
    (i : ℕ) (o : Option Prospect) (db : Db) → (release_of i o db).1.outbox ≡ db.outbox
release_of-outbox i none db = refl
release_of-outbox i (some p) db =
    release_entity-outbox i p.entity_id (db.entities.rows p.entity_id) db

release_sequence-outbox : (i : ℕ) (db : Db) → (release_sequence i db).1.outbox ≡ db.outbox
unfolding release_sequence
release_sequence-outbox i db = release_of-outbox i (db.prospects.rows i) db

note_trial-outbox :
    (tenant : String) (v : Option String) (db : Db) → (note_trial tenant v db).outbox ≡ db.outbox
unfolding record_trial
note_trial-outbox tenant none db = refl
note_trial-outbox tenant (some v) db =
    if_holds (λ (d : Db). d.outbox ≡ db.outbox) (v == "") _ _ refl refl

dispatch_row-outbox :
    (i : ℕ) (o : Option Touch) (db : Db) → (dispatch_row i o db).1.outbox ≡ db.outbox
dispatch_row-outbox i none db = refl
dispatch_row-outbox i (some t) db = elim (Bool-cases (is_claimed t.status)) [
  | inl c ↦ rw c
  | inr f ↦ rw f
]

module _ (out : List Message) where
  pg_store-Outbox :
      {C : Type 0} (py : Python) (min_gap annual_cap : ℕ)
      → StoreKeeps (pg_store {C = C} py min_gap annual_cap) (OutboxIs out)
  unfolding pg_store persist_claim
  pg_store-Outbox py min_gap annual_cap = record {
    halted_scopes = λ x db h. h;
    is_suppressed = λ x y db h. rw (is_suppressed-same py x y db) h;
    frequency_ok = λ x y db h. h;
    sequence_continuation_ok = λ x y db h. h;
    try_consume_budget = λ x t db h. ap (λ (d : Db). d.outbox) (consume-frame x t.cohort_id db) ∙ h;
    release_budget = λ x t db h. release-outbox x t.cohort_id db ∙ h;
    pick_mailbox = λ x db h. ap (λ (d : Db). d.outbox) (pick-frame x db) ∙ h;
    confidence_sendable = λ x y db h. h;
    persist_claim = λ t m rs db h. claim_row-outbox t m rs (db.touches.rows t.touch_id) db ∙ h;
  }

  pub claim-Outbox :
      {C : Type 0} (py : Python) (min_gap annual_cap : ℕ) (checks : Checks C) (t : DraftTouch C)
      → Keeps (OutboxIs out) (claim (pg_store py min_gap annual_cap) checks t)
  claim-Outbox py min_gap annual_cap checks t =
      claim-Keeps (pg_store py min_gap annual_cap) checks (OutboxIs out)
        (pg_store-Outbox py min_gap annual_cap) t

  schedule-Outbox : (i n : ℕ) (o : Option ℕ) → Keeps (OutboxIs out) (schedule i n o)
  schedule-Outbox i n none db h = h
  schedule-Outbox i n (some d) db h =
      Keeps-after (OutboxIs out)
        (enqueue QueueName.compose (Payload.step i n) (some (Key.followup i n)) (d * 86400) db) _
        (enqueue-outbox _ _ _ _ db ∙ h) (λ _ s h'. h')

  plan_with-Outbox : (i n : ℕ) (seq : SequenceSpec) → Keeps (OutboxIs out) (plan_with i n seq)
  plan_with-Outbox i n seq =
      Keeps-if (OutboxIs out) (leb seq.steps (n + 1)) _ _ (λ db h. release_sequence-outbox i db ∙ h)
        (schedule-Outbox i (n + 1) _)

  plan_for-Outbox :
      {C : Type 0} (setup : Setup C) (i : ℕ) (t : DraftTouch C) (o : Option SequenceSpec)
      → Keeps (OutboxIs out) (plan_for setup i t o)
  plan_for-Outbox setup i t none db h = h
  plan_for-Outbox setup i t (some seq) db h = plan_with-Outbox i t.draft.step_index seq db h

  plan_table-Outbox :
      {C : Type 0} (setup : Setup C) (i : ℕ) (t : DraftTouch C)
      (o : Option (String → String → Option SequenceSpec))
      → Keeps (OutboxIs out) (plan_table setup i t o)
  plan_table-Outbox setup i t none db h = h
  plan_table-Outbox setup i t (some table) db h =
      if_holds (λ (x : Result Unit × Db). OutboxIs out x.1) (is_reply t.profile) _ _ h
        (plan_for-Outbox setup i t (sequence_for table t.tenant (db.prospects.rows i)) db h)

  plan-Outbox :
      {C : Type 0} (setup : Setup C) (i : ℕ) (t : DraftTouch C)
      → Keeps (OutboxIs out) (plan_next_step setup i t)
  unfolding plan_next_step
  plan-Outbox setup i t = plan_table-Outbox setup i t setup.sequences

  advance-Outbox : {C : Type 0} (setup : Setup C) (i : ℕ) → Keeps (OutboxIs out) (advance setup i)
  unfolding advance transition
  advance-Outbox setup i db h =
      if_holds (λ (x : Result Unit × Db). OutboxIs out x.1) (is_queued (db.prospects.rows i)) _ _
        (transition-outbox i contacted "system:deliver" (db.prospects.rows i) db ∙ h) h

  -- What comes behind the hand-over keeps the outbox.
  pub rest-Outbox :
      {C : Type 0} (setup : Setup C) (t : DraftTouch C) (row : Touch) (db : Db)
      → OutboxIs out db
      → OutboxIs out (after_hand_over setup t row db).1
  unfolding after_hand_over dispatch
  rest-Outbox setup t row db h =
      let s1 = note_trial t.tenant row.variant_id db in
      Keeps-after (OutboxIs out) (advance setup row.prospect_id s1) _
        (advance-Outbox setup row.prospect_id s1 (note_trial-outbox t.tenant row.variant_id db ∙ h))
        (λ _ s2 h2.
          Keeps-after (OutboxIs out) (dispatch t.touch_id s2) _
            (dispatch_row-outbox t.touch_id (s2.touches.rows t.touch_id) s2 ∙ h2)
            (λ _ s3 h3. plan-Outbox setup row.prospect_id t s3 h3))
