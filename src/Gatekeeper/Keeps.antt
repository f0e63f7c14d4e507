-- ===== src/Gatekeeper/Keeps.antt =====
-- What every method of the store keeps, `claim` keeps: on every branch, refusals and errors included.
use open_reachout.Base.{
  String, ℕ, Bool, true, false, Option, none, some, List, [], ◌∷◌, Exec, Result, ok, err, after,
  if◌then◌else◌, ◌==◌, string_eq,
}
use open_reachout.Gatekeeper.{
  Verdict, GateProfile, cold, reply, followup, DraftTouch, Checks, Results, GateStore, is_volume,
  persist, check_confidence, with_mailbox, check_mailbox, check_budget, frequency_gate,
  check_suppression, after_findings, check_content, after_halt, gates, claim, opt_eq, fail_closed,
  give_back, Finding,
}

-- A block leaves a state in P where it starts in one, whether it returns or raises.
abbrev pub Keeps : {S A : Type 0} → (S → Type 0) → Exec S A → Type 0
Keeps {S} P m = (s : S) → P s → P (m s).1

pub Keeps-after :
    {S A B : Type 0} (P : S → Type 0) (p : Result A × S) (f : A → Exec S B)
    → P p.1
    → ((a : A) → Keeps P (f a))
    → P (after p f).1
Keeps-after P (ok a, s) f h k = k a s h
Keeps-after P (err e, s) f h k = h

pub Keeps-if :
    {S A : Type 0} (P : S → Type 0) (b : Bool) (m n : Exec S A)
    → Keeps P m
    → Keeps P n
    → Keeps P (if b then m else n)
Keeps-if P true m n hm hn = hm
Keeps-if P false m n hm hn = hn

-- Each method of the store keeps P.
pub record StoreKeeps {S C : Type 0} (store : GateStore S C) (P : S → Type 0) : Type 0 where
  pub halted_scopes : (x : String) → Keeps P (store.halted_scopes x)
  pub is_suppressed : (x y : String) → Keeps P (store.is_suppressed x y)
  pub frequency_ok : (x : ℕ) (y : String) → Keeps P (store.frequency_ok x y)
  pub sequence_continuation_ok : (x y : ℕ) → Keeps P (store.sequence_continuation_ok x y)
  pub try_consume_budget : (x : String) (t : DraftTouch C) → Keeps P (store.try_consume_budget x t)
  pub release_budget : (x : String) (t : DraftTouch C) → Keeps P (store.release_budget x t)
  pub pick_mailbox : (x : String) → Keeps P (store.pick_mailbox x)
  pub confidence_sendable : (x y : String) → Keeps P (store.confidence_sendable x y)
  pub persist_claim :
      (t : DraftTouch C) (x : String) (rs : Results) → Keeps P (store.persist_claim t x rs)

module _ {S C : Type 0} (store : GateStore S C) (checks : Checks C) (P : S → Type 0)
    (k : StoreKeeps store P) (t : DraftTouch C) where
  give_back-Keeps : Keeps P (give_back store checks t)
  give_back-Keeps = Keeps-if P (is_volume t.profile) _ _ (k.release_budget t.tenant t) (λ s h. h)

  persist-Keeps : (m : String) (rs : Results) → Keeps P (persist store checks t m rs)
  unfolding persist
  persist-Keeps m rs s h =
      Keeps-after P (store.persist_claim t m rs s) _ (k.persist_claim t m rs s h) (λ _ s' h'. h')

  confidence-Keeps : (m : String) (rs : Results) → Keeps P (check_confidence store checks t m rs)
  unfolding check_confidence
  confidence-Keeps m rs s h =
      Keeps-after P (store.confidence_sendable t.email_canonical t.tenant s) _
        (k.confidence_sendable t.email_canonical t.tenant s h)
        (λ b. Keeps-if P b _ _ (persist-Keeps m _) (λ s' h'.
          Keeps-after P (give_back store checks t s') _ (give_back-Keeps s' h') (λ _ s2 h2. h2)))

  with_mailbox-Keeps :
      (rs : Results) (o : Option String) → Keeps P (with_mailbox store checks t rs o)
  with_mailbox-Keeps rs none s h =
      Keeps-after P (give_back store checks t s) _ (give_back-Keeps s h) (λ _ s2 h2. h2)
  with_mailbox-Keeps rs (some m) s h = confidence-Keeps m _ s h

  mailbox-Keeps : (rs : Results) → Keeps P (check_mailbox store checks t rs)
  unfolding check_mailbox
  mailbox-Keeps rs s h =
      Keeps-after P (store.pick_mailbox t.tenant s) _ (k.pick_mailbox t.tenant s h)
        (with_mailbox-Keeps rs)

  budget-Keeps : (rs : Results) → Keeps P (check_budget store checks t rs)
  unfolding check_budget
  budget-Keeps rs =
      Keeps-if P (is_volume t.profile) _ _
        (λ s h.
          Keeps-after P (store.try_consume_budget t.tenant t s) _
            (k.try_consume_budget t.tenant t s h)
            (λ b. Keeps-if P b _ _ (mailbox-Keeps _) (λ s' h'. h')))
        (mailbox-Keeps rs)

  frequency-Keeps : (p : GateProfile) (rs : Results) → Keeps P (frequency_gate store checks t p rs)
  frequency-Keeps cold rs s h =
      Keeps-after P (store.frequency_ok t.entity_id t.tenant s) _
        (k.frequency_ok t.entity_id t.tenant s h)
        (λ b. Keeps-if P b _ _ (budget-Keeps _) (λ s' h'. h'))
  frequency-Keeps followup rs s h =
      Keeps-after P (store.sequence_continuation_ok t.entity_id t.prospect_id s) _
        (k.sequence_continuation_ok t.entity_id t.prospect_id s h)
        (λ b. Keeps-if P b _ _ (budget-Keeps _) (λ s' h'. h'))
  frequency-Keeps reply rs s h = budget-Keeps rs s h

  suppression-Keeps : (rs : Results) → Keeps P (check_suppression store checks t rs)
  unfolding check_suppression
  suppression-Keeps rs s h =
      Keeps-after P (store.is_suppressed t.email_canonical t.tenant s) _
        (k.is_suppressed t.email_canonical t.tenant s h)
        (λ b. Keeps-if P b _ _ (λ s' h'. h') (frequency-Keeps t.profile _))

  findings-Keeps :
      (rs : Results) (fs : Result (List Finding)) → Keeps P (after_findings store checks t rs fs)
  findings-Keeps rs (ok []) s h =
      Keeps-if P (opt_eq t.groundedness_passed_hash t.stored_content_hash) _ _ (suppression-Keeps _)
        (λ s' h'. h') s h
  findings-Keeps rs (ok (f ∷ fs)) s h = h
  findings-Keeps rs (err e) s h = h

  content-Keeps : (rs : Results) → Keeps P (check_content store checks t rs)
  unfolding check_content
  content-Keeps rs =
      Keeps-if P (checks.content_hash t.draft == t.stored_content_hash) _ _ (findings-Keeps rs _)
        (λ s' h'. h')

  halt-Keeps : (scopes : List String) → Keeps P (after_halt store checks t scopes)
  halt-Keeps [] s h = content-Keeps _ s h
  halt-Keeps (x ∷ xs) s h = h

  closed-Keeps : (p : Result Verdict × S) → P p.1 → P (fail_closed store checks p).1
  closed-Keeps (ok v, s) h = h
  closed-Keeps (err e, s) h = h

  -- A property that each method of the store keeps holds after `claim`, whatever the verdict is.
  pub claim-Keeps : Keeps P (claim store checks t)
  unfolding claim gates
  claim-Keeps s h =
      closed-Keeps (gates store checks t s)
        (Keeps-after P (store.halted_scopes t.tenant s) _ (k.halted_scopes t.tenant s h) halt-Keeps)
