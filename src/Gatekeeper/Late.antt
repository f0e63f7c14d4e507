-- ===== src/Gatekeeper/Late.antt =====
-- The late gates (budget, mailbox, confidence, persist): what an issued claim went through there.
use open_reachout.Base.{
  ◌≡◌, refl, String, Bool, true, false, Option, none, some, [], ◌∷◌, ◌++◌, Result, ok, err, arith,
  after, after_returns, if◌then◌else◌, ◌>>=◌, ◌>>◌,
}
use open_reachout.Db.{ClaimedTouch}
use open_reachout.Gatekeeper.{
  Verdict, issued, GateProfile, cold, reply, followup, RefusalReason, confidence, budget, frequency,
  refuse, DraftTouch, Checks, Results, GateStore, is_volume, persist, check_confidence,
  with_mailbox, check_mailbox, check_budget, frequency_gate, give_back,
}
use open_reachout.Gatekeeper.Passed.{
  FrequencyPasses, BudgetPasses, frequency_results, budget_results,
}

module _ {S C : Type 0} (store : GateStore S C) (checks : Checks C) where
  open store use {
    halted_scopes, is_suppressed, frequency_ok, sequence_continuation_ok, try_consume_budget,
    release_budget, pick_mailbox, confidence_sendable, persist_claim,
  }

  module _ (t : DraftTouch C) (c : ClaimedTouch) (s' : S) where
    -- what gates 6 to 8 need, from the state s4 and with these results so far
    pub record Late (rs : Results) (s4 : S) : Type 0 where
      pub s5 : S
      pub s6 : S
      pub mailbox : String
      pub has_mailbox : pick_mailbox t.tenant s4 ≡ (ok (some mailbox), s5)
      pub is_confident : confidence_sendable t.email_canonical t.tenant s5 ≡ (ok true, s6)
      pub persisted :
          persist_claim t mailbox
            ((rs ++ ("mailbox", mailbox) ∷ []) ++ ("confidence", "pass") ∷ [])
            s6
          ≡ (ok tt, s')
      pub proof : c ≡ record {
        touch_id = t.touch_id;
        tenant = t.tenant;
        mailbox = mailbox;
        content_sha256 = t.stored_content_hash;
        recipient = t.email_canonical;
      }

    refused_here :
        (p : Result Unit × S) (name : String) (reason : RefusalReason) (terminal : Bool)
        → ◌≡◌ {A = Result Verdict × S}
            (after p (λ _. refuse store checks name reason terminal))
            (ok (issued c), s')
        → ⊥
    refused_here (ok _, s) name reason terminal h = cc
    refused_here (err e, s) name reason terminal h = cc

    Late-of_confidence :
        (m : String) (rs : Results) (s4 s5 s6 : S) (b : Bool)
        → pick_mailbox t.tenant s4 ≡ (ok (some m), s5)
        → confidence_sendable t.email_canonical t.tenant s5 ≡ (ok b, s6)
        → (if b
              then persist store checks t m
                  ((rs ++ ("mailbox", m) ∷ []) ++ ("confidence", "pass") ∷ [])
              else (do give_back store checks t; refuse store checks "confidence" confidence true))
            s6
          ≡ (ok (issued c), s')
        → Late rs s4
    unfolding persist
    Late-of_confidence m rs s4 s5 s6 true pick conf h =
        let (_, s7, p, e) =
          after_returns
            (persist_claim t m ((rs ++ ("mailbox", m) ∷ []) ++ ("confidence", "pass") ∷ []) s6) _ _
            _ h in
        record {
          s5 = s5;
          s6 = s6;
          mailbox = m;
          has_mailbox = pick;
          is_confident = conf;
          persisted = cc (p, e);
          proof = ground arith;
        }
    Late-of_confidence m rs s4 s5 s6 false pick conf h =
        absurd (refused_here (give_back store checks t s6) _ _ _ h)

    Late-with :
        (rs : Results) (s4 s5 : S) (o : Option String)
        → pick_mailbox t.tenant s4 ≡ (ok o, s5)
        → with_mailbox store checks t rs o s5 ≡ (ok (issued c), s')
        → Late rs s4
    unfolding check_confidence
    Late-with rs s4 s5 none pick h = absurd (refused_here (give_back store checks t s5) _ _ _ h)
    Late-with rs s4 s5 (some m) pick h =
        let (b, s6, conf, e) =
          after_returns (confidence_sendable t.email_canonical t.tenant s5) _ _ _ h in
        Late-of_confidence m rs s4 s5 s6 b pick conf e

    Late-of_mailbox :
        (rs : Results) (s : S) → check_mailbox store checks t rs s ≡ (ok (issued c), s') → Late rs s
    unfolding check_mailbox
    Late-of_mailbox rs s h =
        let (o, s5, pick, e) = after_returns (pick_mailbox t.tenant s) _ _ _ h in
        Late-with rs s s5 o pick e

    pub record Mid (rs : Results) (s3 : S) : Type 0 where
      pub s4 : S
      pub budget_passes : BudgetPasses store checks t (is_volume t.profile) s3 s4
      pub late : Late (budget_results store checks (is_volume t.profile) rs) s4

    consumed_gate :
        (rs : Results) (s4 : S) (b : Bool)
        → (if b
              then check_mailbox store checks t (rs ++ ("budget", "pass") ∷ [])
              else refuse store checks "budget" budget false)
            s4
          ≡ (ok (issued c), s')
        → (b ≡ true) × Late (rs ++ ("budget", "pass") ∷ []) s4
    consumed_gate rs s4 true h = (refl, Late-of_mailbox (rs ++ ("budget", "pass") ∷ []) s4 h)
    consumed_gate rs s4 false h = cc

    budget_gate :
        (v : Bool) (rs : Results) (s3 : S)
        → (if v
              then (do
                consumed ← try_consume_budget t.tenant t
                if consumed
                    then check_mailbox store checks t (rs ++ ("budget", "pass") ∷ [])
                    else refuse store checks "budget" budget false)
              else check_mailbox store checks t rs)
            s3
          ≡ (ok (issued c), s')
        → (s4 : S) × BudgetPasses store checks t v s3 s4
          × Late (budget_results store checks v rs) s4
    budget_gate true rs s3 h =
        let (b, s4, p, e) = after_returns (try_consume_budget t.tenant t s3) _ _ _ h in
        let (yes', l) = consumed_gate rs s4 b e in (s4, rw yes' at p, l)
    budget_gate false rs s3 h = (s3, refl, Late-of_mailbox rs s3 h)

    Mid-of_budget :
        (rs : Results) (s3 : S)
        → check_budget store checks t rs s3 ≡ (ok (issued c), s')
        → Mid rs s3
    unfolding check_budget
    Mid-of_budget rs s3 h =
        let (s4, b, l) = budget_gate (is_volume t.profile) rs s3 h in
        record { s4 = s4; budget_passes = b; late = l }

    continue_gate :
        (rs : Results) (s3 : S) (b : Bool)
        → (if b
              then check_budget store checks t rs
              else refuse store checks "frequency" frequency true)
            s3
          ≡ (ok (issued c), s')
        → (b ≡ true) × Mid rs s3
    continue_gate rs s3 true h = (refl, Mid-of_budget rs s3 h)
    continue_gate rs s3 false h = cc

    pub frequency_inv :
        (p : GateProfile) (rs : Results) (s2 : S)
        → frequency_gate store checks t p rs s2 ≡ (ok (issued c), s')
        → (s3 : S) × FrequencyPasses store checks t p s2 s3
          × Mid (frequency_results store checks p rs) s3
    frequency_inv cold rs s2 h =
        let (b, s3, p, e) = after_returns (frequency_ok t.entity_id t.tenant s2) _ _ _ h in
        let (yes', m) = continue_gate _ s3 b e in (s3, rw yes' at p, m)
    frequency_inv followup rs s2 h =
        let (b, s3, p, e) =
          after_returns (sequence_continuation_ok t.entity_id t.prospect_id s2) _ _ _ h in
        let (yes', m) = continue_gate _ s3 b e in (s3, rw yes' at p, m)
    frequency_inv reply rs s2 h = (s2, refl, Mid-of_budget rs s2 h)
