-- ===== src/Referrals/Once.antt =====
-- One referral ask for an entity, ever.
use open_reachout.Base.{
  ℕ, ◌≡◌, refl, ap, ◌∙◌, String, Bool, true, false, Option, none, some, Result, ok, err, arith,
  Bool-cases, inl, inr, apply_row, update, row_is, ==_refl,
}
use open_reachout.Db.{Db, Prospect, Entity, QueueName, Payload, Key}
use open_reachout.Gatekeeper.{Checks}
use open_reachout.Queue.{enqueue, taken}
use open_reachout.Drafts.{queue_draft}
use open_reachout.Escalations.{escalate}
use open_reachout.HumanTasks.{create_for_step}
use open_reachout.Referrals.{
  Mode, direct, on_behalf_of, ReferralSpec, Persona, Runtimes, ComposeResult, askable, mark_asked,
  may_ask, mark_entity, ask_by, ask_composed, ask_for, ask_loaded, load_for_referral,
  process_positive_event,
}

enqueue-entities :
    (q : QueueName) (p : Payload) (k : Option Key) (delay : ℕ) (db : Db)
    → (enqueue q p k delay db).1.entities ≡ db.entities
unfolding enqueue
enqueue-entities q p k delay db = elim (Bool-cases (taken db k)) [
  | inl t ↦ rw t refl
  | inr f ↦ rw f refl
]

module _ {C : Type 0} (checks : Checks C) (tokenize : Option (ℕ → String → String))
    (runtimes : Runtimes)
    (compose : Persona → String → ℕ → Db → Result (Option ComposeResult)) where
  ask_by-entities :
      (mode : Mode) (p : ℕ) (persona : Persona) (r : ComposeResult) (db : Db)
      → (ask_by checks tokenize runtimes compose mode p persona r db).1.entities ≡ db.entities
  unfolding queue_draft create_for_step enqueue
  ask_by-entities on_behalf_of p persona r db = refl
  ask_by-entities direct p persona r db = ground arith

  ask_composed-entities :
      (mode : Mode) (p : ℕ) (persona : Persona) (r : Result (Option ComposeResult)) (db : Db)
      → (ask_composed checks tokenize runtimes compose mode p persona r db).1.entities ≡ db.entities
  unfolding escalate
  ask_composed-entities mode p persona (err e) db = refl
  ask_composed-entities mode p persona (ok none) db = refl
  ask_composed-entities mode p persona (ok (some r)) db = ask_by-entities mode p persona r db

-- What the UPDATE marks is not asked again.
marked : (e : Option Entity) → row_is askable (apply_row mark_asked e) ≡ false
marked none = refl
marked (some e) = refl

asked_row : (i : ℕ) (db : Db) → row_is askable ((update i mark_asked db.entities).rows i) ≡ false
asked_row i db = rw (==_refl i) (marked (db.entities.rows i))

closed_row :
    (q : ℕ) (db d : Db) (r s : Prospect)
    → d.entities ≡ (mark_entity (some r) db).entities
    → d.prospects.rows q ≡ some s
    → s.entity_id ≡ r.entity_id
    → may_ask q d ≡ false
closed_row q db d r s kept at_q same = rw at_q (rw same (rw kept (asked_row r.entity_id db)))

-- Does a run ask for a referral?
abbrev pub asks : Result (Option ℕ) → Bool
asks (ok (some i)) = true
asks _ = false

module _ {C : Type 0} (checks : Checks C) (tokenize : Option (ℕ → String → String))
    (runtimes : Runtimes)
    (compose : Persona → String → ℕ → Db → Result (Option ComposeResult)) where
  closed_spec :
      (q : ℕ) (db : Db) (persona : Persona) (spec : Option ReferralSpec)
      → may_ask q db ≡ false
      → (asks (ask_for checks tokenize runtimes compose q persona spec db).0 ≡ false)
        × ((ask_for checks tokenize runtimes compose q persona spec db).1 ≡ db)
  closed_spec q db persona none h = (refl, refl)
  closed_spec q db persona (some spec) h = rw h (refl, refl)

  closed_loaded :
      (q : ℕ) (db : Db) (r : Result (Option Persona))
      → may_ask q db ≡ false
      → (asks (ask_loaded checks tokenize runtimes compose q r db).0 ≡ false)
        × ((ask_loaded checks tokenize runtimes compose q r db).1 ≡ db)
  closed_loaded q db (err e) h = (refl, refl)
  closed_loaded q db (ok none) h = (refl, refl)
  closed_loaded q db (ok (some persona)) h = closed_spec q db persona persona.referral h

  marks_spec :
      (p : ℕ) (db : Db) (persona : Persona) (spec : Option ReferralSpec)
      → asks (ask_for checks tokenize runtimes compose p persona spec db).0 ≡ true
      → (ask_for checks tokenize runtimes compose p persona spec db).1.entities
        ≡ (mark_entity (db.prospects.rows p) db).entities
  marks_spec p db persona none h = cc
  marks_spec p db persona (some spec) h = elim (Bool-cases (may_ask p db)) [
    | inl y ↦ rw y (
        ask_composed-entities checks tokenize runtimes compose spec.mode p persona
          (compose persona spec.prompt p (mark_entity (db.prospects.rows p) db))
          (mark_entity (db.prospects.rows p) db))
    | inr n ↦ absurd (let no = rw n at h in ground (arith, no))
  ]

  marks_loaded :
      (p : ℕ) (db : Db) (r : Result (Option Persona))
      → asks (ask_loaded checks tokenize runtimes compose p r db).0 ≡ true
      → (ask_loaded checks tokenize runtimes compose p r db).1.entities
        ≡ (mark_entity (db.prospects.rows p) db).entities
  marks_loaded p db (err e) h = cc
  marks_loaded p db (ok none) h = cc
  marks_loaded p db (ok (some persona)) h = marks_spec p db persona persona.referral h

  -- After a run of `process_positive_event` that asks for a referral, a run for a prospect that has the
  -- same entity in the new database does not ask: it leaves the database as it is.
  pub process_positive_event-Once :
      (p q : ℕ) (db : Db) (r s : Prospect)
      → let done = process_positive_event checks tokenize runtimes compose p db in
        asks done.0 ≡ true
        → db.prospects.rows p ≡ some r
        → done.1.prospects.rows q ≡ some s
        → s.entity_id ≡ r.entity_id
        → let again = process_positive_event checks tokenize runtimes compose q done.1 in
          (asks again.0 ≡ false) × (again.1 ≡ done.1)
  unfolding process_positive_event
  process_positive_event-Once p q db r s h at_p at_q same =
      let done = process_positive_event checks tokenize runtimes compose p db in
      let kept = marks_loaded p db (load_for_referral runtimes p db) h in
      closed_loaded q done.1 (load_for_referral runtimes q done.1)
        (closed_row q db done.1 r s (kept ∙ ap (λ x. (mark_entity x db).entities) at_p) at_q same)
