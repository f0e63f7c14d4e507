-- ===== src/Gatekeeper/Compensation.antt =====
-- A refusal gives back what the claim had consumed at gate 5.
use open_reachout.Base.{
  ◌≡◌, ◌≢◌, refl, String, Bool, true, false, Option, none, some, List, [], ◌∷◌, Exec, Result, ok,
  err, after, if◌then◌else◌, pure, ◌==◌, string_eq, arith,
}
use mathlib.Core.Path.{subst, ap}
use open_reachout.Gatekeeper.{
  Verdict, issued, refused, Refusal, RefusalReason, internal, confidence, budget, frequency,
  no_capacity, GateProfile, cold, reply, followup, DraftTouch, Checks, Results, GateStore,
  is_volume, persist, check_confidence, with_mailbox, check_mailbox, check_budget, frequency_gate,
  check_suppression, after_findings, check_content, after_halt, gates, claim, opt_eq, fail_closed,
  Finding, refuse,
}

-- How the gates of one touch move between two properties of the store: Q, nothing is consumed; R,
-- this touch's budget is consumed.
pub record Consumption {S C : Type 0} (store : GateStore S C) (t : DraftTouch C) (Q R : S → Type 0)
    : Type 0 where
  pub halted_scopes : (s : S) → Q s → Q (store.halted_scopes t.tenant s).1
  pub is_suppressed : (s : S) → Q s → Q (store.is_suppressed t.email_canonical t.tenant s).1
  pub frequency_ok : (s : S) → Q s → Q (store.frequency_ok t.entity_id t.tenant s).1
  pub sequence_continuation_ok :
      (s : S) → Q s → Q (store.sequence_continuation_ok t.entity_id t.prospect_id s).1
  pub consumed : (s s' : S) → Q s → store.try_consume_budget t.tenant t s ≡ (ok true, s') → R s'
  pub unconsumed : (s s' : S) → Q s → store.try_consume_budget t.tenant t s ≡ (ok false, s') → Q s'
  pub released : (s : S) → R s → Q (store.release_budget t.tenant t s).1
  pub pick_mailbox : (s : S) → R s → R (store.pick_mailbox t.tenant s).1
  pub pick_mailbox_free : (s : S) → Q s → Q (store.pick_mailbox t.tenant s).1
  pub confidence_sendable :
      (s : S) → R s → R (store.confidence_sendable t.email_canonical t.tenant s).1
  pub confidence_sendable_free :
      (s : S) → Q s → Q (store.confidence_sendable t.email_canonical t.tenant s).1

module _ {S C : Type 0} (store : GateStore S C) (checks : Checks C) (t : DraftTouch C)
    (Q R : S → Type 0) (k : Consumption store t Q R) where
  -- Where the gates end: a refusal leaves nothing consumed.
  abbrev Ends : Result Verdict × S → Type 0
  Ends (ok (refused r), s) = (r.reason ≢ internal) × Q s
  Ends (ok (issued c), s) = Unit
  Ends (err e, s) = Unit

  Ends-after :
      {A : Type 0} (p : Result A × S) (f : A → Exec S Verdict)
      → ((a : A) (s : S) → ◌≡◌ {A = Result A × S} p (ok a, s) → Ends (f a s))
      → Ends (after p f)
  Ends-after (ok a, s) f h = h a s refl
  Ends-after (err e, s) f h = tt

  Ends-if :
      (b : Bool) (m n : Exec S Verdict) (s : S)
      → (b ≡ true → Ends (m s))
      → (b ≡ false → Ends (n s))
      → Ends ((if b then m else n) s)
  Ends-if true m n s hm hn = hm refl
  Ends-if false m n s hm hn = hn refl

  -- What holds from gate 6 on, by whether the profile consumes budget.
  abbrev Charged : Bool → S → Type 0
  Charged true = R
  Charged false = Q

  at_state :
      (P : S → Type 0) {A : Type 0} (p : Result A × S) (a : A) (s : S)
      → ◌≡◌ {A = Result A × S} p (ok a, s)
      → P p.1
      → P s
  at_state P p a s e h = subst (λ q. P q.1) e h

  refuse_back :
      (v : Bool) (name : String) (reason : RefusalReason) (terminal : Bool)
      → reason ≢ internal
      → (s : S) → Charged v s
      → Ends (
          after
            ((if v then store.release_budget t.tenant t else pure tt) s)
            (λ _. refuse store checks name reason terminal))
  refuse_back true name reason terminal n s h =
      Ends-after (store.release_budget t.tenant t s) _
        (λ a s' e. (n, at_state Q _ a s' e (k.released s h)))
  refuse_back false name reason terminal n s h = (n, h)

  Charged-confidence :
      (v : Bool) (s : S)
      → Charged v s
      → Charged v (store.confidence_sendable t.email_canonical t.tenant s).1
  Charged-confidence true = k.confidence_sendable
  Charged-confidence false = k.confidence_sendable_free

  Charged-pick : (v : Bool) (s : S) → Charged v s → Charged v (store.pick_mailbox t.tenant s).1
  Charged-pick true = k.pick_mailbox
  Charged-pick false = k.pick_mailbox_free

  persist-Ends : (m : String) (rs : Results) (s : S) → Ends (persist store checks t m rs s)
  unfolding persist
  persist-Ends m rs s = Ends-after (store.persist_claim t m rs s) _ (λ a s' e. tt)

  confidence-Ends :
      (m : String) (rs : Results) (s : S)
      → Charged (is_volume t.profile) s
      → Ends (check_confidence store checks t m rs s)
  unfolding check_confidence
  confidence-Ends m rs s h =
      Ends-after (store.confidence_sendable t.email_canonical t.tenant s) _ (λ b s' e.
        Ends-if b _ _ s' (λ _. persist-Ends m _ s')
          (λ _.
            refuse_back (is_volume t.profile) "confidence" confidence true (λ q. cc) s'
              (at_state (Charged (is_volume t.profile)) _ b s' e
                (Charged-confidence (is_volume t.profile) s h))))

  with_mailbox-Ends :
      (rs : Results) (o : Option String) (s : S)
      → Charged (is_volume t.profile) s
      → Ends (with_mailbox store checks t rs o s)
  with_mailbox-Ends rs none s h =
      refuse_back (is_volume t.profile) "mailbox" no_capacity false (λ q. cc) s h
  with_mailbox-Ends rs (some m) s h = confidence-Ends m _ s h

  mailbox-Ends :
      (rs : Results) (s : S)
      → Charged (is_volume t.profile) s
      → Ends (check_mailbox store checks t rs s)
  unfolding check_mailbox
  mailbox-Ends rs s h = Ends-after (store.pick_mailbox t.tenant s) _ (λ o s' e.
      with_mailbox-Ends rs o s' (
        at_state (Charged (is_volume t.profile)) _ o s' e (Charged-pick (is_volume t.profile) s h)))

  consumed-Ends :
      (rs : Results) (s s' : S) (b : Bool)
      → Q s
      → store.try_consume_budget t.tenant t s ≡ (ok b, s')
      → is_volume t.profile ≡ true
      → Ends (
          (if b then check_mailbox store checks t rs else refuse store checks "budget" budget false)
            s')
  consumed-Ends rs s s' true h e v = mailbox-Ends rs s' (rw v (k.consumed s s' h e))
  consumed-Ends rs s s' false h e v = (λ q. cc, k.unconsumed s s' h e)

  budget-Ends : (rs : Results) (s : S) → Q s → Ends (check_budget store checks t rs s)
  unfolding check_budget
  budget-Ends rs s h =
      Ends-if (is_volume t.profile) _ _ s
        (λ v.
          Ends-after (store.try_consume_budget t.tenant t s) _
            (λ b s' e. consumed-Ends _ s s' b h e v))
        (λ v. mailbox-Ends rs s (rw v h))

  fine-Ends :
      (rs : Results) (b : Bool) (s : S)
      → Q s
      → Ends (
          (if b
              then check_budget store checks t rs
              else refuse store checks "frequency" frequency true)
            s)
  fine-Ends rs b s h = Ends-if b _ _ s (λ _. budget-Ends rs s h) (λ _. (λ q. cc, h))

  frequency-Ends :
      (p : GateProfile) (rs : Results) (s : S) → Q s → Ends (frequency_gate store checks t p rs s)
  frequency-Ends cold rs s h =
      Ends-after (store.frequency_ok t.entity_id t.tenant s) _
        (λ b s' e. fine-Ends _ b s' (at_state Q _ b s' e (k.frequency_ok s h)))
  frequency-Ends followup rs s h =
      Ends-after (store.sequence_continuation_ok t.entity_id t.prospect_id s) _
        (λ b s' e. fine-Ends _ b s' (at_state Q _ b s' e (k.sequence_continuation_ok s h)))
  frequency-Ends reply rs s h = budget-Ends rs s h

  suppression-Ends : (rs : Results) (s : S) → Q s → Ends (check_suppression store checks t rs s)
  unfolding check_suppression
  suppression-Ends rs s h =
      Ends-after (store.is_suppressed t.email_canonical t.tenant s) _ (λ b s' e.
        let h' = at_state Q _ b s' e (k.is_suppressed s h) in
        Ends-if b _ _ s' (λ _. (λ q. cc, h')) (λ _. frequency-Ends t.profile _ s' h'))

  findings-Ends :
      (rs : Results) (fs : Result (List Finding)) (s : S)
      → Q s
      → Ends (after_findings store checks t rs fs s)
  findings-Ends rs (ok []) s h =
      Ends-if (opt_eq t.groundedness_passed_hash t.stored_content_hash) _ _ s
        (λ _. suppression-Ends _ s h) (λ _. (λ q. cc, h))
  findings-Ends rs (ok (f ∷ fs)) s h = (λ q. cc, h)
  findings-Ends rs (err e) s h = tt

  content-Ends : (rs : Results) (s : S) → Q s → Ends (check_content store checks t rs s)
  unfolding check_content
  content-Ends rs s h =
      Ends-if (checks.content_hash t.draft == t.stored_content_hash) _ _ s
        (λ _. findings-Ends rs _ s h) (λ _. (λ q. cc, h))

  halt-Ends : (scopes : List String) (s : S) → Q s → Ends (after_halt store checks t scopes s)
  halt-Ends [] s h = content-Ends _ s h
  halt-Ends (x ∷ xs) s h = (λ q. cc, h)

  closed-Ends :
      (p : Result Verdict × S) (r : Refusal) (s' : S)
      → Ends p
      → ◌≡◌ {A = Result Verdict × S} (fail_closed store checks p) (ok (refused r), s')
      → r.reason ≢ internal
      → Q s'
  closed-Ends (ok (refused r'), s) r s' h e n = subst Q (ap (λ (q : Result Verdict × S). q.1) e) h.1
  closed-Ends (ok (issued c), s) r s' h e n = cc
  closed-Ends (err x, s) r s' h e n = absurd (n (ground arith))

  -- A refusal other than INTERNAL leaves the store where nothing of the budget is consumed: gates
  -- before the fifth consume nothing, and those after it release what it consumed.
  pub claim-refused :
      (s s' : S) (r : Refusal)
      → claim store checks t s ≡ (ok (refused r), s')
      → r.reason ≢ internal
      → Q s
      → Q s'
  unfolding claim gates
  claim-refused s s' r e n h =
      closed-Ends (gates store checks t s) r s'
        (Ends-after (store.halted_scopes t.tenant s) _
          (λ ss s1 e1. halt-Ends ss s1 (at_state Q _ ss s1 e1 (k.halted_scopes s h))))
        e n
