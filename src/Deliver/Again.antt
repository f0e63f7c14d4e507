-- ===== src/Deliver/Again.antt =====
-- A delivery that has returned is never repeated: the second one writes and sends nothing.
use open_reachout.Base.{
  ℕ, ◌+◌, ◌≡◌, refl, sym, ◌∙◌, ap, if_holds, String, Bool, false, Option, none, some, Exec, Result,
  ok, after, arith, ℕ_eq, ==_refl, Bool-cases, inl, inr, row_is, apply_row, after_returns, leb,
  Table,
}
use open_reachout.Db.{
  Db, Touch, Prospect, Entity, ClaimedTouch, TouchStatus, drafted, dispatched, sent, released,
  QueueName, Payload, Key,
}
use open_reachout.Queue.{enqueue, taken}
use open_reachout.Gatekeeper.{DraftTouch, Verdict, issued, refused, claim}
use open_reachout.PgStore.{pg_store, is_drafted}
use open_reachout.Deliver.{
  Setup, SequenceSpec, release_sequence, release_of, release_entity, gap_at, schedule, plan_with,
  sequence_for, plan_for, plan_table, plan_next_step, belongs, is_reply, is_claimed, dispatch,
  dispatch_row, advance, note_trial, after_hand_over, hand_over, send_claimed, act_on,
  release_touch, attempt, gate_draft, with_email, load_with, load, by_status, deliver_row,
  deliver_touch,
}

-- Touch i is not a draft that waits to be sent, or is no touch.
abbrev pub NotDrafted : ℕ → Db → Type 0
NotDrafted i db = row_is (λ (t : Touch). is_drafted t.status) (db.touches.rows i) ≡ false

abbrev TouchesAre : Table Touch → Db → Type 0
TouchesAre t db = db.touches ≡ t

enqueue-touches :
    (q : QueueName) (p : Payload) (k : Option Key) (d : ℕ) (db : Db)
    → (enqueue q p k d db).1.touches ≡ db.touches
unfolding enqueue
enqueue-touches q p k d db = elim (Bool-cases (taken db k)) [ inl t ↦ rw t | inr f ↦ rw f ]

schedule-touches : (p n : ℕ) (o : Option ℕ) (db : Db) → (schedule p n o db).1.touches ≡ db.touches
unfolding enqueue
schedule-touches p n none db = refl
schedule-touches p n (some d) db = elim (Bool-cases (taken db (some (Key.followup p n)))) [
  | inl t ↦ rw t
  | inr f ↦ rw f
]

release_entity-touches :
    (p e : ℕ) (o : Option Entity) (db : Db) → (release_entity p e o db).1.touches ≡ db.touches
release_entity-touches p e none db = refl
release_entity-touches p e (some r) db =
    if_holds (λ (x : Bool × Db). x.1.touches ≡ db.touches) (belongs db p r.active_sequence_touch_id)
      _ _ refl refl

release_of-touches :
    (p : ℕ) (o : Option Prospect) (db : Db) → (release_of p o db).1.touches ≡ db.touches
release_of-touches p none db = refl
release_of-touches p (some r) db =
    release_entity-touches p r.entity_id (db.entities.rows r.entity_id) db

plan_with-touches :
    (p n : ℕ) (seq : SequenceSpec) (db : Db) → (plan_with p n seq db).1.touches ≡ db.touches
unfolding release_sequence
plan_with-touches p n seq db =
    if_holds (λ (m : Exec Db Unit). (m db).1.touches ≡ db.touches) (leb seq.steps (n + 1)) _ _
      (release_of-touches p (db.prospects.rows p) db)
      (schedule-touches p (n + 1) (gap_at seq.gaps_days n) db)

module _ {C : Type 0} (setup : Setup C) (i : ℕ) where
  plan_for-touches :
      (p : ℕ) (t : DraftTouch C) (o : Option SequenceSpec) (db : Db)
      → (plan_for setup p t o db).1.touches ≡ db.touches
  plan_for-touches p t none db = refl
  plan_for-touches p t (some seq) db = plan_with-touches p t.draft.step_index seq db

  plan_table-touches :
      (p : ℕ) (t : DraftTouch C) (o : Option (String → String → Option SequenceSpec)) (db : Db)
      → (plan_table setup p t o db).1.touches ≡ db.touches
  plan_table-touches p t none db = refl
  plan_table-touches p t (some table) db =
      if_holds (λ (x : Result Unit × Db). x.1.touches ≡ db.touches) (is_reply t.profile) _ _ refl
        (plan_for-touches p t (sequence_for table t.tenant (db.prospects.rows p)) db)

  dispatched_not :
      (o : Option Touch) (db s : Db)
      → db.touches.rows i ≡ o
      → ◌≡◌ {A = Result Unit × Db} (dispatch_row i o db) (ok tt, s)
      → NotDrafted i s
  dispatched_not none db s at e = ground (arith, at, e)
  dispatched_not (some t) db s at e = elim (Bool-cases (is_claimed t.status)) [
    | inl c ↦
        let there = ap (λ (x : Result Unit × Db). x.1) (rw c at e) in
        rw (sym there) (rw (==_refl i, at))
    | inr f ↦ cc (rw f at e)
  ]

  dispatched_at :
      (k : ℕ) (db s : Db)
      → k ≡ i
      → ◌≡◌ {A = Result Unit × Db} (dispatch_row k (db.touches.rows k) db) (ok tt, s)
      → NotDrafted i s
  dispatched_at k db s is_i e = dispatched_not (db.touches.rows i) db s refl (rw is_i at e)

  rest_not :
      (t : DraftTouch C) (row : Touch) (db s : Db)
      → t.touch_id ≡ i
      → after_hand_over setup t row db ≡ (ok tt, s)
      → NotDrafted i s
  unfolding after_hand_over dispatch plan_next_step
  rest_not t row db s is_i e =
      let s1 = note_trial t.tenant row.variant_id db in
      let (u2, s2, e2, k2) = after_returns (advance setup row.prospect_id s1) _ tt s e in
      let (u3, s3, e3, k3) =
        after_returns (dispatch_row t.touch_id (s2.touches.rows t.touch_id) s2) _ tt s k2 in
      let fine : NotDrafted i s3 = dispatched_at t.touch_id s2 s3 is_i e3 in
      let same = plan_table-touches row.prospect_id t setup.sequences s3 in
      let same' : s.touches ≡ s3.touches =
        sym (ap (λ (x : Result Unit × Db). x.1.touches) k3) ∙ same in
      rw same' fine

  send_not :
      (t : DraftTouch C) (row : Touch) (c : ClaimedTouch) (db s : Db)
      → t.touch_id ≡ i
      → send_claimed setup t row c db ≡ (ok tt, s)
      → NotDrafted i s
  unfolding send_claimed
  send_not t row c db s is_i e =
      let (u, s1, e1, k1) = after_returns (hand_over setup c t.draft db) _ tt s e in
      rest_not t row s1 s is_i k1

  released_row :
      (o : Option Touch)
      → row_is
          (λ (t : Touch). is_drafted t.status)
          (apply_row (λ (t : Touch). record t { status = released }) o)
        ≡ false
  released_row none = refl
  released_row (some t) = refl

  released_not : (db : Db) → NotDrafted i (release_touch setup i db)
  released_not db = rw (==_refl i) (released_row (db.touches.rows i))

  act_not :
      (t : DraftTouch C) (row : Touch) (v : Verdict) (db s : Db)
      → t.touch_id ≡ i
      → ◌≡◌ {A = Result Unit × Db} (act_on setup t row v db) (ok tt, s)
      → NotDrafted i s
  act_not t row (issued c) db s is_i e = send_not t row c db s is_i e
  act_not t row (refused r) db s is_i e = elim (Bool-cases r.terminal) [
    | inl h ↦
        let there : release_touch setup t.touch_id db ≡ s =
          ap (λ (x : Result Unit × Db). x.1) (rw h at e) in
        rw (sym there, is_i) (released_not db)
    | inr f ↦ cc (rw f at e)
  ]

  attempt_not :
      (t : DraftTouch C) (row : Touch) (db s : Db)
      → t.touch_id ≡ i
      → attempt setup t row db ≡ (ok tt, s)
      → NotDrafted i s
  unfolding attempt
  attempt_not t row db s is_i e =
      let (v, s1, e1, k1) =
        after_returns
          (claim (pg_store setup.py setup.min_gap_days setup.annual_cap) setup.checks t db) _ tt s
          e in
      act_not t row v s1 s is_i k1

  email_not :
      (ctx : C) (row : Touch) (p : Prospect) (o : Option String) (db s : Db)
      → ◌≡◌ {A = Result Unit × Db}
          (after (with_email ctx i row p o db) (λ t. attempt setup t row))
          (ok tt, s)
      → NotDrafted i s
  email_not ctx row p none db s e = cc
  email_not ctx row p (some email) db s e =
      attempt_not (gate_draft ctx i row p email) row db s refl e

  context_not :
      (row : Touch) (p : Prospect) (o : Option C) (db s : Db)
      → ◌≡◌ {A = Result Unit × Db} (load_with setup i row p o db) (ok tt, s)
      → NotDrafted i s
  context_not row p none db s e = cc
  context_not row p (some ctx) db s e = email_not ctx row p p.email_canonical db s e

  load_not :
      (row : Touch) (o : Option Prospect) (db s : Db)
      → ◌≡◌ {A = Result Unit × Db} (load setup i row o db) (ok tt, s)
      → NotDrafted i s
  load_not row none db s e = cc
  load_not row (some p) db s e = context_not row p (setup.validator_ctx_for p.tenant) db s e

  status_not :
      (row : Touch) (st : TouchStatus) (db s : Db)
      → db.touches.rows i ≡ some row
      → row.status ≡ st
      → ◌≡◌ {A = Result Unit × Db} (by_status setup i row st db) (ok tt, s)
      → NotDrafted i s
  status_not row drafted db s at is_st e = load_not row (db.prospects.rows row.prospect_id) db s e
  status_not row dispatched db s at is_st e = ground (arith, at, is_st, e)
  status_not row sent db s at is_st e = ground (arith, at, is_st, e)
  status_not row _ db s at is_st e = cc

  row_not :
      (o : Option Touch) (db s : Db)
      → db.touches.rows i ≡ o
      → ◌≡◌ {A = Result Unit × Db} (deliver_row setup i o db) (ok tt, s)
      → NotDrafted i s
  row_not none db s at e = cc
  row_not (some row) db s at e = status_not row row.status db s at refl e

  status_same :
      (row : Touch) (st : TouchStatus) (db : Db)
      → is_drafted st ≡ false
      → (by_status setup i row st db).1 ≡ db
  status_same row drafted db h = cc
  status_same row dispatched db h = refl
  status_same row sent db h = refl
  status_same row _ db h = refl

  row_same :
      (o : Option Touch) (db : Db)
      → row_is (λ (t : Touch). is_drafted t.status) o ≡ false
      → (deliver_row setup i o db).1 ≡ db
  row_same none db h = refl
  row_same (some row) db h = status_same row row.status db h

  -- Once a delivery of a touch has returned, delivering it again changes nothing: nothing is written
  -- and nothing is handed to the provider.
  pub deliver_again :
      (db db' : Db) → deliver_touch setup i db ≡ (ok tt, db') → (deliver_touch setup i db').1 ≡ db'
  unfolding deliver_touch
  deliver_again db db' e =
      row_same (db'.touches.rows i) db' (row_not (db.touches.rows i) db db' refl e)
