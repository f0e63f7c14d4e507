-- ===== src/Gatekeeper.antt =====
-- The gatekeeper (src/open_reachout/core/gatekeeper.py): the one place where a drafted touch becomes
-- a claimed one. The storage is an interface, as the `GateStore` protocol is; so are the two pure
-- functions of core/compliance/validators.py that it calls.
pub mod Passed
pub mod Late
pub mod Order
pub mod Keeps
pub mod Compensation
use open_reachout.Base.{
  ℕ, ◌+◌, ◌≡◌, String, Bool, true, false, Option, none, some, List, [], ◌∷◌, ◌++◌, Exec, Result, ok,
  err, Error, pure, raise, after, ◌>>=◌, ◌>>◌, not, if◌then◌else◌, ◌==◌, string_eq, Eq,
}
use open_reachout.Db.{ClaimedTouch}

pub data RefusalReason : Type 0 where
  halted validation suppressed frequency budget no_capacity confidence internal : RefusalReason

pub data GateProfile : Type 0 where
  cold reply followup : GateProfile

-- Violation, Finding and Draft of core/compliance/validators.py
pub data Violation : Type 0 where
  missing_physical_address missing_unsubscribe fake_thread_subject deceptive_subject too_long
        forbidden_claim unregistered_claim phi_suspected url_not_allowlisted bump_theater
        missing_sender_identity empty :
      Violation

-- A finding's detail, its f-strings kept as the parts that they are formed from.
pub data Note : Type 0 where
  note : String → Note
  subject_note : String → Note
  words_note : ℕ → ℕ → Note

pub record Finding : Type 0 where
  pub code : Violation
  pub detail : Note

-- The f-string of a detail is kept as the parts that it is formed from.
pub data Detail : Type 0 where
  gate : String → Detail
  findings : List Finding → Detail
  repr : Error → Detail

pub record Refusal : Type 0 where
  pub reason : RefusalReason
  pub detail : Detail
  pub terminal : Bool

-- ClaimedTouch | Refusal
pub data Verdict : Type 0 where
  issued : ClaimedTouch → Verdict
  refused : Refusal → Verdict

pub record Draft : Type 0 where
  pub subject : String
  pub body : String
  pub step_index : ℕ

-- DraftTouch, generic in the validator context `C`
pub record DraftTouch (C : Type 0) : Type 0 where
  pub touch_id : ℕ
  pub tenant : String
  pub entity_id : ℕ
  pub email_canonical : String
  pub draft : Draft
  pub stored_content_hash : String
  pub groundedness_passed_hash : Option String
  pub profile : GateProfile
  pub validator_ctx : C
  pub cohort_id : String
  pub prospect_id : ℕ

-- content_hash and validate of core/compliance/validators.py
pub record Checks (C : Type 0) : Type 0 where
  pub content_hash : Draft → String
  pub validate : Draft → C → Result (List Finding)

abbrev pub Results : Type 0
Results = List (String × String)

-- GateStore: each call may raise, and may write to the store.
pub record GateStore (S C : Type 0) : Type 0 where
  pub halted_scopes : String → Exec S (List String)
  pub is_suppressed : String → String → Exec S Bool
  pub frequency_ok : ℕ → String → Exec S Bool
  pub sequence_continuation_ok : ℕ → ℕ → Exec S Bool
  pub try_consume_budget : String → DraftTouch C → Exec S Bool
  pub release_budget : String → DraftTouch C → Exec S (Unit {0})
  pub pick_mailbox : String → Exec S (Option String)
  pub confidence_sendable : String → String → Exec S Bool
  pub persist_claim : DraftTouch C → String → Results → Exec S (Unit {0})

abbrev pub opt_eq : Option String → String → Bool
opt_eq none s = false
opt_eq (some r) s = r == s

-- COLD and FOLLOWUP consume budget, REPLY does not
abbrev pub is_volume : GateProfile → Bool
is_volume cold = true
is_volume followup = true
is_volume reply = false

module _ {S C : Type 0} (store : GateStore S C) (checks : Checks C) where
  open store use {
    halted_scopes, is_suppressed, frequency_ok, sequence_continuation_ok, try_consume_budget,
    release_budget, pick_mailbox, confidence_sendable, persist_claim,
  }

  abbrev pub refuse : String → RefusalReason → Bool → Exec S Verdict
  refuse name reason terminal =
      pure (refused (record { reason = reason; detail = gate name; terminal = terminal }))

  -- 8. persist, and construct the proof of the claim
  unfoldable pub persist : DraftTouch C → String → Results → Exec S Verdict
  persist t mailbox results = do
    persist_claim t mailbox results
    pure (
        issued (record {
          touch_id = t.touch_id;
          tenant = t.tenant;
          mailbox = mailbox;
          content_sha256 = t.stored_content_hash;
          recipient = t.email_canonical;
        }))

  -- The compensation of a refusal after gate 5.
  abbrev pub give_back : DraftTouch C → Exec S (Unit {0})
  give_back t = if is_volume t.profile then release_budget t.tenant t else pure tt

  -- 7. verification confidence
  unfoldable pub check_confidence : DraftTouch C → String → Results → Exec S Verdict
  unfolding persist
  check_confidence t mailbox results = do
    sendable ← confidence_sendable t.email_canonical t.tenant
    if sendable
        then persist t mailbox (results ++ ("confidence", "pass") ∷ [])
        else (do give_back t; refuse "confidence" confidence true)

  -- 6. mailbox capacity
  abbrev pub with_mailbox : DraftTouch C → Results → Option String → Exec S Verdict
  with_mailbox t results none = do give_back t; refuse "mailbox" no_capacity false
  with_mailbox t results (some m) = check_confidence t m (results ++ ("mailbox", m) ∷ [])

  unfoldable pub check_mailbox : DraftTouch C → Results → Exec S Verdict
  unfolding check_confidence
  check_mailbox t results = do mailbox ← pick_mailbox t.tenant; with_mailbox t results mailbox

  -- 5. volume budgets
  unfoldable pub check_budget : DraftTouch C → Results → Exec S Verdict
  unfolding check_mailbox
  check_budget t results =
      if is_volume t.profile
      then (do
        consumed ← try_consume_budget t.tenant t
        if consumed
            then check_mailbox t (results ++ ("budget", "pass") ∷ [])
            else refuse "budget" budget false)
      else check_mailbox t results

  -- 4. entity frequency, or the continuation of the entity's own sequence
  abbrev pub frequency_gate : DraftTouch C → GateProfile → Results → Exec S Verdict
  frequency_gate t cold results = do
    fine ← frequency_ok t.entity_id t.tenant
    if fine
        then check_budget t (results ++ ("frequency", "pass") ∷ [])
        else refuse "frequency" frequency true
  frequency_gate t followup results = do
    fine ← sequence_continuation_ok t.entity_id t.prospect_id
    if fine
        then check_budget t (results ++ ("frequency", "pass(continuation)") ∷ [])
        else refuse "frequency" frequency true
  frequency_gate t reply results = check_budget t results

  -- 3. suppression
  unfoldable pub check_suppression : DraftTouch C → Results → Exec S Verdict
  unfolding check_budget
  check_suppression t results = do
    hit ← is_suppressed t.email_canonical t.tenant
    if hit
        then refuse "suppression" suppressed true
        else frequency_gate t t.profile (results ++ ("suppression", "pass") ∷ [])

  -- 2. hash binding, validators, groundedness
  abbrev pub after_findings : DraftTouch C → Results → Result (List Finding) → Exec S Verdict
  after_findings t results (err e) = raise e
  after_findings t results (ok (f ∷ fs)) =
      pure (refused (record { reason = validation; detail = findings (f ∷ fs); terminal = true }))
  after_findings t results (ok []) =
      if opt_eq t.groundedness_passed_hash t.stored_content_hash
      then check_suppression t (results ++ ("validators", "pass") ∷ [])
      else refuse "groundedness" validation true

  unfoldable pub check_content : DraftTouch C → Results → Exec S Verdict
  unfolding check_suppression
  check_content t results =
      if checks.content_hash t.draft == t.stored_content_hash
      then after_findings t results (checks.validate t.draft t.validator_ctx)
      else refuse "content_hash" validation true

  -- 1. halt and kill switches
  abbrev pub after_halt : DraftTouch C → List String → Exec S Verdict
  after_halt t (s ∷ ss) = refuse "halt" halted false
  after_halt t [] = check_content t (("halt", "pass") ∷ [])

  unfoldable pub gates : DraftTouch C → Exec S Verdict
  unfolding check_content
  gates t = do scopes ← halted_scopes t.tenant; after_halt t scopes

  -- `except Exception`: any error is a refusal that may be retried
  abbrev pub fail_closed : Result Verdict × S → Result Verdict × S
  fail_closed (ok v, s) = (ok v, s)
  fail_closed (err e, s) =
      (ok (refused (record { reason = internal; detail = repr e; terminal = false })), s)

  unfoldable pub claim : DraftTouch C → Exec S Verdict
  unfolding gates
  claim t s = fail_closed (gates t s)
