-- ===== src/Replies.antt =====
-- What to do with a reply (`route` of src/open_reachout/core/replies.py). The model's classification
-- is a parameter; a confidence is a value of any type with a test for the floor.
pub mod Outbound
pub mod OptOut
use open_reachout.Base.{
  ℕ, ◌≡◌, ◌↔◌, String, Bool, true, false, ◌&&◌, ◌||◌, Option, none, some, List, [], ◌∷◌, Result, ok,
  err, Error, arith, Eq, ℕ_eq, ◌==◌, if◌then◌else◌, leb, contains,
}
use open_reachout.Canonical.{Python}
use open_reachout.Pattern.{Regex, star, search}
use open_reachout.Pattern.Notation.{any_of, opt, ◌▸◌, line_start, txt, one_of, word, edge}
use open_reachout.Envelope.{injection_suspects}

pub data Action : Type 0 where
  suppress_unsubscribe send_signup_link answer_faq close_polite_suppress reenrich nothing escalate :
      Action

abbrev pub position : Action → ℕ
position suppress_unsubscribe = 0
position send_signup_link = 1
position answer_faq = 2
position close_polite_suppress = 3
position reenrich = 4
position nothing = 5
position escalate = 6

abbrev pub action_beq : Action → Action → Bool
action_beq a b = position a == position b

pub action_beq_iff : (a b : Action) → (action_beq a b ≡ true) ↔ (a ≡ b)
action_beq_iff a b = ground arith

instance abbrev pub action_eq : Eq Action
action_eq = record { beq = action_beq; beq_iff = action_beq_iff }

pub data Intent : Type 0 where
  interested question objection not_interested unsubscribe out_of_office wrong_person hostile
        other :
      Intent

-- _INTENT_ACTIONS
abbrev pub intent_action : Intent → Action
intent_action interested = send_signup_link
intent_action question = answer_faq
intent_action objection = answer_faq
intent_action not_interested = close_polite_suppress
intent_action unsubscribe = suppress_unsubscribe
intent_action out_of_office = nothing
intent_action wrong_person = reenrich
intent_action hostile = escalate
intent_action other = escalate

abbrev pub outbound_actions : List Action
outbound_actions = send_signup_link ∷ answer_faq ∷ close_polite_suppress ∷ []

abbrev pub max_agentic_exchanges : ℕ
max_agentic_exchanges = 1

-- ClassifyReplyOutput
pub record Output (F : Type 0) : Type 0 where
  pub intent : Intent
  pub confidence : F
  pub objection_class : Option String
  pub injection_suspected : Bool

pub record RouteDecision (F : Type 0) : Type 0 where
  pub action : Action
  pub intent : Intent
  pub confidence : F
  pub reason : String
  pub deterministic : Bool
  pub objection_class : Option String

pub record Router (F : Type 0) : Type 0 where
  pub python : Python
  pub classify : String → Result (Output F)
  pub below_floor : F → Bool
  pub certain : F

-- UNSUBSCRIBE_RE
unfoldable pub unsubscribe_re : Python → Regex
unsubscribe_re py =
    edge py
    ▸ any_of (txt py "unsubscribe") (
        (txt py "opt" ▸ opt (one_of py " -") ▸ txt py "out")
        ∷ txt py "remove me"
        ∷ txt py "take me off"
        ∷ (txt py "stop "
            ▸ any_of (opt (txt py "e") ▸ txt py "mail") (txt py "contact" ∷ txt py "send" ∷ [])
            ▸ star (word py))
        ∷ (txt py "do not " ▸ any_of (opt (txt py "e") ▸ txt py "mail") (txt py "contact" ∷ []))
        ∷ (line_start ▸ txt py "stop" ▸ edge py)
        ∷ [])

abbrev pub opts_out : Python → String → Bool
opts_out py body = search (unsubscribe_re py) body

abbrev pub is_hostile : Intent → Bool
is_hostile hostile = true
is_hostile _ = false

abbrev pub is_nonempty : List String → Bool
is_nonempty [] = false
is_nonempty (_ ∷ _) = true

module _ {F : Type 0} (router : Router F) where
  abbrev pub hand_to_human : Output F → Intent → String → RouteDecision F
  hand_to_human o intent reason = record {
    action = escalate;
    intent = intent;
    confidence = o.confidence;
    reason = reason;
    deterministic = false;
    objection_class = none;
  }

  abbrev pub act_on : Output F → Action → ℕ → List Action → RouteDecision F
  act_on o action exchanges allowed =
      if contains outbound_actions action && leb max_agentic_exchanges exchanges
      then hand_to_human o o.intent "agentic exchange cap reached (FR-4.2)"
      else (if contains allowed action
          then (record {
            action = action;
            intent = o.intent;
            confidence = o.confidence;
            reason = "classified";
            deterministic = false;
            objection_class = o.objection_class;
          })
          else hand_to_human o o.intent "action not in tenant allowlist")

  abbrev pub decide : Bool → ℕ → List Action → Output F → RouteDecision F
  decide suspicious exchanges allowed o =
      if suspicious || o.injection_suspected
      then hand_to_human o o.intent "injection suspicion"
      else (if is_hostile o.intent
          then hand_to_human o hostile "hostile always escalates"
          else (if router.below_floor o.confidence
              then hand_to_human o o.intent "below confidence floor"
              else act_on o (intent_action o.intent) exchanges allowed))

  abbrev pub decide_on : Bool → ℕ → List Action → Result (Output F) → Result (RouteDecision F)
  decide_on suspicious exchanges allowed (ok o) = ok (decide suspicious exchanges allowed o)
  decide_on suspicious exchanges allowed (err e) = err e

  -- the deterministic pre-pass
  abbrev pub opted_out : RouteDecision F
  opted_out = record {
    action = suppress_unsubscribe;
    intent = unsubscribe;
    confidence = router.certain;
    reason = "deterministic pre-pass";
    deterministic = true;
    objection_class = none;
  }

  unfoldable pub route : String → ℕ → List Action → Result (RouteDecision F)
  route body exchanges allowed =
      if opts_out router.python body
      then ok opted_out
      else decide_on (is_nonempty (injection_suspects router.python body)) exchanges allowed
          (router.classify body)
