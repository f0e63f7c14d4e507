-- ===== src/Gatekeeper/Passed.antt =====
-- What it means that a drafted touch passes every gate, from one state of the store to another.
use open_reachout.Base.{◌≡◌, String, Bool, true, false, some, [], ◌∷◌, ◌++◌, ok}
use open_reachout.Db.{ClaimedTouch}
use open_reachout.Gatekeeper.{
  GateProfile, cold, reply, followup, DraftTouch, Checks, Results, GateStore, is_volume,
}

module _ {S C : Type 0} (store : GateStore S C) (checks : Checks C) where
  open store use {
    halted_scopes, is_suppressed, frequency_ok, sequence_continuation_ok, try_consume_budget,
    release_budget, pick_mailbox, confidence_sendable, persist_claim,
  }

  -- The frequency gate of a profile, from one state of the store to the next.
  abbrev pub FrequencyPasses : DraftTouch C → GateProfile → S → S → Type 0
  FrequencyPasses t cold s s' = frequency_ok t.entity_id t.tenant s ≡ (ok true, s')
  FrequencyPasses t followup s s' =
      sequence_continuation_ok t.entity_id t.prospect_id s ≡ (ok true, s')
  FrequencyPasses t reply s s' = s ≡ s'

  abbrev pub BudgetPasses : DraftTouch C → Bool → S → S → Type 0
  BudgetPasses t true s s' = try_consume_budget t.tenant t s ≡ (ok true, s')
  BudgetPasses t false s s' = s ≡ s'

  abbrev pub frequency_results : GateProfile → Results → Results
  frequency_results cold rs = rs ++ ("frequency", "pass") ∷ []
  frequency_results followup rs = rs ++ ("frequency", "pass(continuation)") ∷ []
  frequency_results reply rs = rs

  abbrev pub budget_results : Bool → Results → Results
  budget_results true rs = rs ++ ("budget", "pass") ∷ []
  budget_results false rs = rs

  -- The results that each profile records on its way to gate 6.
  abbrev pub passes_of : GateProfile → Results
  passes_of p = budget_results (is_volume p) (
      frequency_results p
        (("halt", "pass") ∷ ("validators", "pass") ∷ ("suppression", "pass") ∷ []))

  -- Every gate passes, from the state s to the state s'.
  pub record Passed (t : DraftTouch C) (s : S) (c : ClaimedTouch) (s' : S) : Type 0 where
    pub s1 : S
    pub s2 : S
    pub s3 : S
    pub s4 : S
    pub s5 : S
    pub s6 : S
    pub mailbox : String
    pub not_halted : halted_scopes t.tenant s ≡ (ok [], s1)
    pub hash_bound : checks.content_hash t.draft ≡ t.stored_content_hash
    pub no_findings : checks.validate t.draft t.validator_ctx ≡ ok []
    pub grounded : t.groundedness_passed_hash ≡ some t.stored_content_hash
    pub not_suppressed : is_suppressed t.email_canonical t.tenant s1 ≡ (ok false, s2)
    pub frequency_passes : FrequencyPasses t t.profile s2 s3
    pub budget_passes : BudgetPasses t (is_volume t.profile) s3 s4
    pub has_mailbox : pick_mailbox t.tenant s4 ≡ (ok (some mailbox), s5)
    pub is_confident : confidence_sendable t.email_canonical t.tenant s5 ≡ (ok true, s6)
    pub persisted :
        persist_claim t mailbox
          ((passes_of t.profile ++ ("mailbox", mailbox) ∷ []) ++ ("confidence", "pass") ∷ [])
          s6
        ≡ (ok tt, s')
    pub proof : c ≡ record {
      touch_id = t.touch_id;
      tenant = t.tenant;
      mailbox = mailbox;
      content_sha256 = t.stored_content_hash;
      recipient = t.email_canonical;
    }
