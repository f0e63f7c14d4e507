-- ===== src/Deliver/Safety.antt =====
-- What a delivery hands to the provider.
use open_reachout.Base.{
  ℕ, ◌≡◌, ◌∙◌, refl, sym, ap, String, Option, none, some, List, [], ◌∷◌, ◌++◌, Exec, Result, ok,
  err, after, raise, modify, runtime_error, if_holds,
}
use mathlib.Core.Path.{subst}
use open_reachout.Db.{Db, Touch, Prospect, ClaimedTouch, Message, TouchStatus, drafted, dispatched}
use open_reachout.Gatekeeper.{DraftTouch, Verdict, issued, refused, claim}
use open_reachout.PgStore.{pg_store}
use open_reachout.PgStore.Sendable.{IsSendable}
use open_reachout.PgStore.Claims.{claim-IsSendable}
use open_reachout.Deliver.{
  Setup, accept, hand_over, after_hand_over, send_claimed, act_on, attempt, with_email,
  release_touch, gate_draft, text_or_empty, profile_of, load_with, load, by_status, deliver_row,
  deliver_touch,
}
use open_reachout.Deliver.Outbox.{OutboxIs, claim-Outbox, rest-Outbox}

-- The draft t is what the tables of db hold for touch i: its content, its prospect's address, tenant,
-- entity and cohort, and the validator context of the tenant. A missing subject or body is empty.
pub record IsLoaded {C : Type 0} (setup : Setup C) (i : ℕ) (db : Db) (t : DraftTouch C)
    : Type 0 where
  pub row : Touch
  pub prospect : Prospect
  pub email : String
  pub context : C
  pub at : db.touches.rows i ≡ some row
  pub its_prospect : db.prospects.rows row.prospect_id ≡ some prospect
  pub its_email : prospect.email_canonical ≡ some email
  pub its_context : setup.validator_ctx_for prospect.tenant ≡ some context
  pub same_touch : t.touch_id ≡ i
  pub same_subject : t.draft.subject ≡ text_or_empty row.subject
  pub same_body : t.draft.body ≡ text_or_empty row.body
  pub same_step : t.draft.step_index ≡ row.step_index
  pub same_hash : t.stored_content_hash ≡ row.content_hash
  pub same_recipient : t.email_canonical ≡ email
  pub same_tenant : t.tenant ≡ prospect.tenant
  pub same_entity : t.entity_id ≡ prospect.entity_id
  pub same_cohort : t.cohort_id ≡ prospect.cohort_id
  pub same_prospect : t.prospect_id ≡ row.prospect_id
  pub same_profile : t.profile ≡ profile_of row.kind
  pub same_context : t.validator_ctx ≡ context

-- The provider accepted this message, which is for the claim c and has the stored subject and body.
pub record IsAccepted {C : Type 0} (setup : Setup C) (row : Touch) (c : ClaimedTouch) (m : Message)
    : Type 0 where
  pub names_claim : m.claim ≡ c
  pub stored_subject : m.subject ≡ text_or_empty row.subject
  pub stored_body : m.body ≡ text_or_empty row.body
  pub is_sent : setup.send m ≡ ok tt

-- The outbox after a delivery of touch i in the database db: as before, or one message longer, and
-- then a claim was issued in db for what is stored of the touch, and the message has that content.
pub data Sent {C : Type 0} (setup : Setup C) (i : ℕ) (db : Db) : List Message → Type 0 where
  unsent : Sent setup i db db.outbox
  handed :
      (t : DraftTouch C) (c : ClaimedTouch) (m : Message) (db' : Db) (l : IsLoaded setup i db t)
      → IsSendable setup.py setup.min_gap_days setup.annual_cap setup.checks t db c db'
      → IsAccepted setup l.row c m
      → Sent setup i db (db.outbox ++ m ∷ [])

module _ {C : Type 0} (setup : Setup C) (i : ℕ) (db : Db) where
  unsent_of : (s : Db) → OutboxIs db.outbox s → Sent setup i db s.outbox
  unsent_of s h = subst (Sent setup i db) (sym h) unsent

  accepted-Sent :
      (t : DraftTouch C) (row : Touch) (c : ClaimedTouch) (m : Message) (s db' : Db)
      (r : Result Unit) (e : IsLoaded setup i db t)
      → IsSendable setup.py setup.min_gap_days setup.annual_cap setup.checks t db c db'
      → m.claim ≡ c
      → m.subject ≡ t.draft.subject
      → m.body ≡ t.draft.body
      → ◌≡◌ {A = Result Unit} (setup.send m) r
      → OutboxIs db.outbox s
      → Sent setup i db (after (accept setup m r s) (λ _. after_hand_over setup t row)).1.outbox
  accepted-Sent t row c m s db' (ok u) e h is_c is_subject is_body is_sent o =
      let s' : Db = record s { outbox = s.outbox ++ m ∷ [] } in
      subst (Sent setup i db)
        (sym (
          rest-Outbox (db.outbox ++ m ∷ []) setup t row s'
            (ap (λ (l : List Message). l ++ m ∷ []) o)))
        (handed t c m db' e h (record {
          names_claim = is_c;
          stored_subject = is_subject ∙ e.same_subject;
          stored_body = is_body ∙ e.same_body;
          is_sent = is_sent;
        }))
  accepted-Sent t row c m s db' (err x) e h is_c is_subject is_body is_sent o = unsent_of s o

  verdict-Sent :
      (t : DraftTouch C) (row : Touch) (p : Result Verdict × Db)
      → IsLoaded setup i db t
      → ◌≡◌ {A = Result Verdict × Db}
          (claim (pg_store setup.py setup.min_gap_days setup.annual_cap) setup.checks t db)
          p
      → OutboxIs db.outbox p.1
      → Sent setup i db (after p (act_on setup t row)).1.outbox
  unfolding send_claimed hand_over
  verdict-Sent t row (err x, s) e q o = unsent_of s o
  verdict-Sent t row (ok (refused r), s) e q o =
      if_holds (λ (m : Exec Db Unit). Sent setup i db (m s).1.outbox) r.terminal
        (modify (release_touch setup t.touch_id)) (raise (runtime_error "retryable refusal"))
        (unsent_of s o) (unsent_of s o)
  verdict-Sent t row (ok (issued c), s) e q o =
      let m : Message = record { claim = c; subject = t.draft.subject; body = t.draft.body } in
      accepted-Sent t row c m s s (setup.send m) e
        (claim-IsSendable setup.py setup.min_gap_days setup.annual_cap setup.checks t db s c q) refl
        refl refl refl o

  attempt-Sent :
      (t : DraftTouch C) (row : Touch)
      → IsLoaded setup i db t
      → Sent setup i db (attempt setup t row db).1.outbox
  unfolding attempt
  attempt-Sent t row e =
      verdict-Sent t row
        (claim (pg_store setup.py setup.min_gap_days setup.annual_cap) setup.checks t db) e refl
        (claim-Outbox db.outbox setup.py setup.min_gap_days setup.annual_cap setup.checks t db refl)

  module _ (row : Touch) (at : db.touches.rows i ≡ some row) where
    email-Sent :
        (ctx : C) (p : Prospect) (o : Option String)
        → db.prospects.rows row.prospect_id ≡ some p
        → setup.validator_ctx_for p.tenant ≡ some ctx
        → p.email_canonical ≡ o
        → Sent setup i db (after (with_email ctx i row p o db) (λ t. attempt setup t row)).1.outbox
    email-Sent ctx p none its its_ctx e = unsent
    email-Sent ctx p (some email) its its_ctx e =
        attempt-Sent (gate_draft ctx i row p email) row (record {
          row = row;
          prospect = p;
          email = email;
          context = ctx;
          at = at;
          its_prospect = its;
          its_email = e;
          its_context = its_ctx;
          same_touch = refl;
          same_subject = refl;
          same_body = refl;
          same_step = refl;
          same_hash = refl;
          same_recipient = refl;
          same_tenant = refl;
          same_entity = refl;
          same_cohort = refl;
          same_prospect = refl;
          same_profile = refl;
          same_context = refl;
        })

    load_with-Sent :
        (p : Prospect) (o : Option C)
        → db.prospects.rows row.prospect_id ≡ some p
        → setup.validator_ctx_for p.tenant ≡ o
        → Sent setup i db (load_with setup i row p o db).1.outbox
    load_with-Sent p none its e = unsent
    load_with-Sent p (some ctx) its e = email-Sent ctx p p.email_canonical its e refl

    load-Sent :
        (o : Option Prospect)
        → db.prospects.rows row.prospect_id ≡ o
        → Sent setup i db (load setup i row o db).1.outbox
    load-Sent none its = unsent
    load-Sent (some p) its = load_with-Sent p (setup.validator_ctx_for p.tenant) its refl

    status-Sent : (s : TouchStatus) → Sent setup i db (by_status setup i row s db).1.outbox
    status-Sent dispatched = unsent
    status-Sent drafted = load-Sent (db.prospects.rows row.prospect_id) refl
    status-Sent _ = unsent

  row-Sent :
      (o : Option Touch)
      → db.touches.rows i ≡ o
      → Sent setup i db (deliver_row setup i o db).1.outbox
  row-Sent none at = unsent
  row-Sent (some row) at = status-Sent row at row.status

-- The provider accepts at most one message in a delivery, with the subject and body that are stored
-- of the touch, and only one for which a claim was issued in the database that the delivery started
-- from, for this content and the prospect's address: so no halt was set there, the address was neither
-- suppressed nor forgotten, the content passed the validators and had the stored hash, and, but for a
-- REPLY, frequency and budgets allowed it.
pub deliver-Sent :
    {C : Type 0} (setup : Setup C) (i : ℕ) (db : Db)
    → Sent setup i db (deliver_touch setup i db).1.outbox
unfolding deliver_touch
deliver-Sent setup i db = row-Sent setup i db (db.touches.rows i) refl
