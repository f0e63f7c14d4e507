-- ===== src/States.antt =====
-- The prospect lifecycle (src/open_reachout/core/states.py): the states, the table of allowed
-- transitions, and the guard that every writer of a prospect's state goes through.
pub mod Reach
use open_reachout.Base.{
  ℕ, ◌≡◌, ◌↔◌, Bool, true, List, [], ◌∷◌, arith, Exec, pure, raise, transition_error, Eq, ℕ_eq,
  ◌==◌, if◌then◌else◌, contains,
}

pub data ProspectState : Type 0 where
  discovered enriched qualified queued contacted engaged converted : ProspectState
  disqualified unenrichable bounced declined unsubscribed no_response forgotten : ProspectState

-- A number for each state, by which two states are compared.
abbrev pub position : ProspectState → ℕ
position discovered = 0
position enriched = 1
position qualified = 2
position queued = 3
position contacted = 4
position engaged = 5
position converted = 6
position disqualified = 7
position unenrichable = 8
position bounced = 9
position declined = 10
position unsubscribed = 11
position no_response = 12
position forgotten = 13

abbrev pub state_beq : ProspectState → ProspectState → Bool
state_beq s t = position s == position t

pub state_beq_iff : (s t : ProspectState) → (state_beq s t ≡ true) ↔ (s ≡ t)
state_beq_iff s t = ground arith

instance abbrev pub state_eq : Eq ProspectState
state_eq = record { beq = state_beq; beq_iff = state_beq_iff }

-- TRANSITIONS
unfoldable pub transitions : ProspectState → List ProspectState
transitions discovered = enriched ∷ unenrichable ∷ forgotten ∷ []
transitions enriched = qualified ∷ disqualified ∷ forgotten ∷ []
transitions qualified = queued ∷ forgotten ∷ []
transitions queued = contacted ∷ disqualified ∷ forgotten ∷ []
transitions contacted =
    engaged ∷ converted ∷ bounced ∷ declined ∷ unsubscribed ∷ no_response ∷ forgotten ∷ []
transitions engaged = converted ∷ declined ∷ unsubscribed ∷ no_response ∷ forgotten ∷ []
transitions no_response = queued ∷ forgotten ∷ []
transitions converted = forgotten ∷ []
transitions disqualified = forgotten ∷ []
transitions unenrichable = forgotten ∷ []
transitions bounced = forgotten ∷ []
transitions declined = forgotten ∷ []
transitions unsubscribed = forgotten ∷ []
transitions forgotten = []

-- CONTACTABLE_STATES
abbrev pub contactable : List ProspectState
contactable = queued ∷ contacted ∷ engaged ∷ []

unfoldable pub allowed : ProspectState → ProspectState → Bool
unfolding transitions
allowed current target = contains (transitions current) target

unfoldable pub assert_transition : {S : Type 0} → ProspectState → ProspectState → Exec S (Unit {0})
assert_transition current target =
    if allowed current target then pure tt else raise transition_error
