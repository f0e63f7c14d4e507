-- ===== src/Events/Once.antt =====
-- Events are handled once, however often they are delivered (invariant I-10).
use open_reachout.Base.{
  ℕ, ◌≡◌, refl, sym, ap, ◌∙◌, String, Bool, true, false, Option, none, some, List, [], ◌∷◌, Exec,
  Result, ok, err, after, after_returns, arith, ℕ_eq, string_eq, ◌==◌, ==_refl, if_holds,
  Bool-cases, inl, inr,
}
use open_reachout.States.{
  ProspectState, allowed, assert_transition, bounced, declined, unsubscribed, engaged,
}
use open_reachout.Db.{Db, Prospect, QueueName, Payload, Key}
use open_reachout.Queue.{enqueue, taken}
use open_reachout.Canonical.{Python, canonicalize}
use open_reachout.Control.{global_scope}
use open_reachout.Suppression.{suppress, suppress_canonical}
use open_reachout.Lifecycle.{transition, transition_from}
use open_reachout.Learning.{Guardrail, record_guardrail}
use open_reachout.Gatekeeper.Keeps.{Keeps, Keeps-after}
use open_reachout.Events.{
  ProviderEvent, EventKind, reply, bounce, complaint, unsubscribe, sent, Ref, prospect_for,
  audit_skip, safe_transition, note_guardrail, mark_sent, store_reply, keep_reply, suppress_if,
  close, act_on, act, mark_seen, ingest_one, ingest_events,
}

-- The events that are on record are these.
abbrev SeenIs : (String → Bool) → Db → Type 0
SeenIs seen db = db.provider_events ≡ seen

module _ (seen : String → Bool) where
  enqueue-Seen :
      (q : QueueName) (p : Payload) (k : Option Key) (d : ℕ) → Keeps (SeenIs seen) (enqueue q p k d)
  unfolding enqueue
  enqueue-Seen q p k d db h = elim (Bool-cases (taken db k)) [ inl t ↦ rw t h | inr f ↦ rw f h ]

  from-Seen :
      (i : ℕ) (target : ProspectState) (actor : String) (o : Option Prospect)
      → Keeps (SeenIs seen) (transition_from i target actor o)
  unfolding assert_transition
  from-Seen i target actor none db h = h
  from-Seen i target actor (some p) db h = elim (Bool-cases (allowed p.state target)) [
    | inl t ↦ rw t h
    | inr f ↦ rw f h
  ]

  skip-Seen :
      (p : ℕ) (target : ProspectState) (x : Result Unit × Db)
      → SeenIs seen x.1
      → SeenIs seen (audit_skip p target x).1
  skip-Seen p target (ok u, db) h = h
  skip-Seen p target (err e, db) h = ground (arith, h)

  safe-Seen : (p : ℕ) (target : ProspectState) → Keeps (SeenIs seen) (safe_transition p target)
  unfolding safe_transition transition
  safe-Seen p target db h =
      skip-Seen p target _ (from-Seen p target "system:events" (db.prospects.rows p) db h)

  guardrail-Seen :
      (tenant variant : String) (kind : Guardrail) (db : Db)
      → SeenIs seen db
      → SeenIs seen (record_guardrail tenant variant kind db).1
  unfolding record_guardrail
  guardrail-Seen tenant variant kind db h = ground (arith, h)

  note-Seen :
      (tenant : String) (kind : Guardrail) (o : Option String) (db : Db)
      → SeenIs seen db
      → SeenIs seen (note_guardrail tenant kind o db)
  note-Seen tenant kind none db h = h
  note-Seen tenant kind (some v) db h =
      if_holds (SeenIs seen) (v == "") _ _ h (guardrail-Seen tenant v kind db h)

  reply-Seen : (e : ProviderEvent) (p : ℕ) → Keeps (SeenIs seen) (keep_reply e p)
  reply-Seen e p db h =
      let s1 = (store_reply p e.touch_id e.body db).1 in
      let r = db.replies.next in
      Keeps-after (SeenIs seen)
        (enqueue QueueName.classify (Payload.reply r) (some (Key.classify r)) 0 s1)
        (λ _. safe_transition p engaged)
        (enqueue-Seen QueueName.classify (Payload.reply r) (some (Key.classify r)) 0 s1 h)
        (λ _. safe-Seen p engaged)

  module _ (py : Python) where
    canonical-Seen :
        (scope reason : String) (x : Option ℕ) (propagate : Bool) (o : Option String)
        → Keeps (SeenIs seen) (suppress_canonical py scope reason x propagate o)
    canonical-Seen scope reason x propagate none db h = h
    canonical-Seen scope reason x false (some c) db h = h
    canonical-Seen scope reason x true (some c) db h =
        Keeps-after (SeenIs seen)
          (enqueue QueueName.control (Payload.pause_lead c scope) (some (Key.pause c scope reason))
            0 _)
          _
          (enqueue-Seen QueueName.control (Payload.pause_lead c scope)
            (some (Key.pause c scope reason)) 0 _ h)
          (λ _ s hs. hs)

    suppress-Seen :
        (reason : String) (o : Option String) → Keeps (SeenIs seen) (suppress_if py reason o)
    unfolding suppress
    suppress-Seen reason none db h = h
    suppress-Seen reason (some e) db h =
        if_holds (λ (m : Exec Db Unit). SeenIs seen (m db).1) (e == "") _ _ h
          (Keeps-after (SeenIs seen)
            (suppress_canonical py global_scope reason none true (canonicalize py e) db) _
            (canonical-Seen global_scope reason none true (canonicalize py e) db h) (λ _ s hs. hs))

    close-Seen :
        (r : Ref) (reason : String) (kind : Guardrail) (target : ProspectState)
        → Keeps (SeenIs seen) (close py r reason kind target)
    close-Seen r reason kind target db h =
        Keeps-after (SeenIs seen) (suppress_if py reason r.email_canonical db) _
          (suppress-Seen reason r.email_canonical db h)
          (λ _ s hs. safe-Seen r.prospect_id target _ (note-Seen r.tenant kind r.variant_id s hs))

    mark-Seen : (o : Option ℕ) (db : Db) → SeenIs seen db → SeenIs seen (mark_sent o db)
    mark-Seen none db h = h
    mark-Seen (some i) db h = h

    act_on-Seen :
        (e : ProviderEvent) (k : EventKind) (o : Option Ref) → Keeps (SeenIs seen) (act_on py e k o)
    act_on-Seen e bounce (some r) = close-Seen r "bounce" Guardrail.bounce bounced
    act_on-Seen e complaint (some r) = close-Seen r "complaint" Guardrail.complaint declined
    act_on-Seen e unsubscribe (some r) =
        close-Seen r "unsubscribe" Guardrail.unsubscribe unsubscribed
    act_on-Seen e reply (some r) = reply-Seen e r.prospect_id
    act_on-Seen e sent r = λ db h. mark-Seen e.touch_id db h
    act_on-Seen e _ _ = λ db h. h

module _ (py : Python) where
  act-seen : (e : ProviderEvent) (db : Db) → (act py e db).1.provider_events ≡ db.provider_events
  unfolding act
  act-seen e db = act_on-Seen db.provider_events py e e.kind (prospect_for e db) db refl

  -- What handling one event leaves on record: what was there, and the event.
  record Kept (e : ProviderEvent) (db db' : Db) : Type 0 where
    here : db'.provider_events e.provider_event_id ≡ true
    others : (x : String) → db.provider_events x ≡ true → db'.provider_events x ≡ true

  fresh-Kept :
      (e : ProviderEvent) (b : Bool) (db db' : Db)
      → ◌≡◌ {A = Result Bool × Db}
          (after (act py e (mark_seen py e.provider_event_id db)) (λ _ s. (ok true, s)))
          (ok b, db')
      → Kept e db db'
  fresh-Kept e b db db' h =
      let marked = mark_seen py e.provider_event_id db in
      let (u, s, e1, k1) = after_returns (act py e marked) _ b db' h in
      let same : db'.provider_events ≡ marked.provider_events =
        sym (ap (λ (x : Result Bool × Db). x.1.provider_events) k1)
        ∙ (sym (ap (λ (x : Result Unit × Db). x.1.provider_events) e1) ∙ act-seen e marked) in
      record {
        here = rw same (rw (==_refl e.provider_event_id));
        others = λ x hx. rw same (ground (arith, hx));
      }

  one-Kept :
      (e : ProviderEvent) (b : Bool) (db db' : Db)
      → ◌≡◌ {A = Result Bool × Db} (ingest_one py e db) (ok b, db')
      → Kept e db db'
  one-Kept e b db db' h = elim (Bool-cases (db.provider_events e.provider_event_id)) [
    | inr f ↦ fresh-Kept e b db db' (rw f at h)
    | inl t ↦
        let same : db ≡ db' = ap (λ (x : Result Bool × Db). x.1) (rw t at h) in
        rw (sym same) (record { here = t; others = λ x hx. hx })
  ]

  abbrev AllSeen : List ProviderEvent → Db → Type 0
  AllSeen [] db = Unit
  AllSeen (e ∷ es) db = (db.provider_events e.provider_event_id ≡ true) × AllSeen es db

  ingested :
      (es : List ProviderEvent) (n : ℕ) (db db' : Db)
      → ingest_events py es db ≡ (ok n, db')
      → AllSeen es db' × ((x : String) → db.provider_events x ≡ true → db'.provider_events x ≡ true)
  unfolding ingest_events
  ingested [] n db db' h =
      let same : db ≡ db' = ap (λ (x : Result ℕ × Db). x.1) h in (tt, λ x hx. rw (sym same) hx)
  ingested (e ∷ es) n db db' h =
      let (b, s1, e1, k1) = after_returns (ingest_one py e db) _ n db' h in
      let (m, s2, e2, k2) = after_returns (ingest_events py es s1) _ n db' k1 in
      let same : s2 ≡ db' = ap (λ (x : Result ℕ × Db). x.1) k2 in
      let one = one-Kept e b db s1 e1 in
      let (all, grow) = ingested es m s1 s2 e2 in
      rw (sym same) ((grow e.provider_event_id one.here, all), λ x hx. grow x (one.others x hx))

  nothing_new :
      (es : List ProviderEvent) (db : Db) → AllSeen es db → ingest_events py es db ≡ (ok 0, db)
  unfolding ingest_events
  nothing_new [] db all = refl
  nothing_new (e ∷ es) db (first, all) = rw first (rw (nothing_new es db all))

  -- When a batch of provider events has been ingested, ingesting the same batch again processes none
  -- of them and leaves the database as it is.
  pub ingest_events_again :
      (es : List ProviderEvent) (n : ℕ) (db db' : Db)
      → ingest_events py es db ≡ (ok n, db')
      → ingest_events py es db' ≡ (ok 0, db')
  ingest_events_again es n db db' h = nothing_new es db' (ingested es n db db' h).0
