-- ===== src/Gatekeeper/Order.antt =====
-- When `claim` issues a touch: exactly when every gate, in the pinned order, lets it pass.
use open_reachout.Base.{
  ◌≡◌, ◌↔◌, refl, String, Bool, true, false, Option, none, some, List, [], ◌∷◌, ◌++◌, Result, ok,
  err, ==_iff, ==_refl, ap, string_eq, after_returns, if◌then◌else◌,
}
use open_reachout.Db.{ClaimedTouch}
use open_reachout.Gatekeeper.{
  Verdict, issued, refused, GateProfile, cold, reply, followup, suppressed, validation, internal,
  repr, refuse, Finding, DraftTouch, Checks, Results, GateStore, is_volume, check_mailbox,
  check_budget, frequency_gate, check_suppression, after_findings, check_content, after_halt, gates,
  claim, opt_eq, fail_closed,
}
use open_reachout.Gatekeeper.Passed.{
  Passed, FrequencyPasses, BudgetPasses, frequency_results, budget_results, passes_of,
}
use open_reachout.Gatekeeper.Late.{Late, Mid, frequency_inv}

module _ {S C : Type 0} (store : GateStore S C) (checks : Checks C) (t : DraftTouch C)
    (c : ClaimedTouch) (s' : S) where
  open store use {
    halted_scopes, is_suppressed, frequency_ok, sequence_continuation_ok, try_consume_budget,
    release_budget, pick_mailbox, confidence_sendable, persist_claim,
  }

  base : Results
  base = ("halt", "pass") ∷ ("validators", "pass") ∷ []

  record Clear (s1 : S) : Type 0 where
    s2 : S
    s3 : S
    not_suppressed : is_suppressed t.email_canonical t.tenant s1 ≡ (ok false, s2)
    frequency_passes : FrequencyPasses store checks t t.profile s2 s3
    mid :
        Mid store checks t c s'
          (frequency_results store checks t.profile (base ++ ("suppression", "pass") ∷ []))
          s3

  hit_gate :
      (s1 s2 : S) (b : Bool)
      → is_suppressed t.email_canonical t.tenant s1 ≡ (ok b, s2)
      → (if b
            then refuse store checks "suppression" suppressed true
            else frequency_gate store checks t t.profile (base ++ ("suppression", "pass") ∷ []))
          s2
        ≡ (ok (issued c), s')
      → Clear s1
  hit_gate s1 s2 true p h = cc
  hit_gate s1 s2 false p h =
      let (s3, f, m) = frequency_inv store checks t c s' t.profile _ s2 h in
      record { s2 = s2; s3 = s3; not_suppressed = p; frequency_passes = f; mid = m }

  Clear-of : (s1 : S) → check_suppression store checks t base s1 ≡ (ok (issued c), s') → Clear s1
  unfolding check_suppression
  Clear-of s1 h =
      let (b, s2, p, e) = after_returns (is_suppressed t.email_canonical t.tenant s1) _ _ _ h in
      hit_gate s1 s2 b p e

  grounded_gate :
      (s1 : S) (b : Bool)
      → (if b
            then check_suppression store checks t base
            else refuse store checks "groundedness" validation true)
          s1
        ≡ (ok (issued c), s')
      → (b ≡ true) × Clear s1
  grounded_gate s1 true h = (refl, Clear-of s1 h)
  grounded_gate s1 false h = cc

  findings_gate :
      (s1 : S) (fs : Result (List Finding))
      → after_findings store checks t (("halt", "pass") ∷ []) fs s1 ≡ (ok (issued c), s')
      → (fs ≡ ok []) × (opt_eq t.groundedness_passed_hash t.stored_content_hash ≡ true) × Clear s1
  unfolding base
  findings_gate s1 (ok []) h = let (g, cl) = grounded_gate s1 _ h in (refl, g, cl)
  findings_gate s1 (ok (f ∷ fs)) h = cc
  findings_gate s1 (err e) h = cc

  hash_gate :
      (s1 : S) (b : Bool)
      → (if b
            then after_findings store checks t
                (("halt", "pass") ∷ [])
                (checks.validate t.draft t.validator_ctx)
            else refuse store checks "content_hash" validation true)
          s1
        ≡ (ok (issued c), s')
      → (b ≡ true)
        × (checks.validate t.draft t.validator_ctx ≡ ok [])
        × (opt_eq t.groundedness_passed_hash t.stored_content_hash ≡ true)
        × Clear s1
  hash_gate s1 true h = let (e, g, cl) = findings_gate s1 _ h in (refl, e, g, cl)
  hash_gate s1 false h = cc

  opt_eq-some : (o : Option String) (x : String) → opt_eq o x ≡ true → o ≡ some x
  opt_eq-some none x h = cc
  opt_eq-some (some y) x h = ap some ((==_iff y x).0 h)

  content_inv :
      (s s1 : S)
      → halted_scopes t.tenant s ≡ (ok [], s1)
      → check_content store checks t (("halt", "pass") ∷ []) s1 ≡ (ok (issued c), s')
      → Passed store checks t s c s'
  unfolding check_content base
  content_inv s s1 n h =
      let (hb, nf, g, cl) = hash_gate s1 _ h in
      let m = cl.mid in
      let l = m.late in
      record {
        s1 = s1;
        s2 = cl.s2;
        s3 = cl.s3;
        s4 = m.s4;
        s5 = l.s5;
        s6 = l.s6;
        mailbox = l.mailbox;
        not_halted = n;
        hash_bound = (==_iff _ _).0 hb;
        no_findings = nf;
        grounded = opt_eq-some _ _ g;
        not_suppressed = cl.not_suppressed;
        frequency_passes = cl.frequency_passes;
        budget_passes = m.budget_passes;
        has_mailbox = l.has_mailbox;
        is_confident = l.is_confident;
        persisted = l.persisted;
        proof = l.proof;
      }

  halt_gate :
      (s s1 : S) (scopes : List String)
      → halted_scopes t.tenant s ≡ (ok scopes, s1)
      → after_halt store checks t scopes s1 ≡ (ok (issued c), s')
      → Passed store checks t s c s'
  halt_gate s s1 [] n h = content_inv s s1 n h
  halt_gate s s1 (x ∷ xs) n h = cc

  gates_inv : (s : S) → gates store checks t s ≡ (ok (issued c), s') → Passed store checks t s c s'
  unfolding gates
  gates_inv s h =
      let (scopes, s1, n, e) = after_returns (halted_scopes t.tenant s) _ _ _ h in
      halt_gate s s1 scopes n e

  not_closed :
      (p : Result Verdict × S)
      → ◌≡◌ {A = Result Verdict × S} (fail_closed store checks p) (ok (issued c), s')
      → ◌≡◌ {A = Result Verdict × S} p (ok (issued c), s')
  not_closed (ok v, s) h = h
  not_closed (err e, s) h = cc

  claim_inv : (s : S) → claim store checks t s ≡ (ok (issued c), s') → Passed store checks t s c s'
  unfolding claim
  claim_inv s h = gates_inv s (not_closed (gates store checks t s) h)

  mailbox_of_Late :
      (rs : Results) (s4 : S)
      → Late store checks t c s' rs s4
      → check_mailbox store checks t rs s4 ≡ (ok (issued c), s')
  unfolding check_mailbox
  mailbox_of_Late rs s4 l = rw (l.has_mailbox, l.is_confident, l.persisted, l.proof)

  budget_of :
      (v : Bool) (rs : Results) (s3 s4 : S)
      → BudgetPasses store checks t v s3 s4
      → Late store checks t c s' (budget_results store checks v rs) s4
      → v ≡ is_volume t.profile
      → check_budget store checks t rs s3 ≡ (ok (issued c), s')
  unfolding check_budget
  budget_of true rs s3 s4 b l e = rw (← e, b) (mailbox_of_Late _ s4 l)
  budget_of false rs s3 s4 b l e = rw (← e, b) (mailbox_of_Late _ s4 l)

  frequency_of :
      (p : GateProfile) (rs : Results) (s2 s3 s4 : S)
      → FrequencyPasses store checks t p s2 s3
      → BudgetPasses store checks t (is_volume t.profile) s3 s4
      → Late store checks t c s'
          (budget_results store checks (is_volume t.profile) (frequency_results store checks p rs))
          s4
      → frequency_gate store checks t p rs s2 ≡ (ok (issued c), s')
  frequency_of cold rs s2 s3 s4 f b l = rw f (budget_of _ _ s3 s4 b l refl)
  frequency_of followup rs s2 s3 s4 f b l = rw f (budget_of _ _ s3 s4 b l refl)
  frequency_of reply rs s2 s3 s4 f b l = rw f (budget_of _ _ s3 s4 b l refl)

  opt_eq_of : (o : Option String) (x : String) → o ≡ some x → opt_eq o x ≡ true
  opt_eq_of o x e = rw e (==_refl x)

  suppression_of :
      (s1 : S) (p : Clear s1) → check_suppression store checks t base s1 ≡ (ok (issued c), s')
  unfolding check_suppression
  suppression_of s1 p = rw p.not_suppressed (
      frequency_of t.profile _ p.s2 p.s3 p.mid.s4 p.frequency_passes p.mid.budget_passes p.mid.late)

  content_of :
      (s s1 : S) (p : Passed store checks t s c s')
      → Clear p.s1
      → check_content store checks t (("halt", "pass") ∷ []) p.s1 ≡ (ok (issued c), s')
  unfolding check_content base
  content_of s s1 p cl =
      rw (p.hash_bound, ==_refl t.stored_content_hash)
        (rw p.no_findings (
          rw (opt_eq_of t.groundedness_passed_hash t.stored_content_hash p.grounded)
            (suppression_of p.s1 cl)))

  claim_of : (s : S) → Passed store checks t s c s' → claim store checks t s ≡ (ok (issued c), s')
  unfolding claim base
  claim_of s p =
      let l : Late store checks t c s' (passes_of store checks t.profile) p.s4 = record {
        s5 = p.s5;
        s6 = p.s6;
        mailbox = p.mailbox;
        has_mailbox = p.has_mailbox;
        is_confident = p.is_confident;
        persisted = p.persisted;
        proof = p.proof;
      } in
      let cl : Clear p.s1 = record {
        s2 = p.s2;
        s3 = p.s3;
        not_suppressed = p.not_suppressed;
        frequency_passes = p.frequency_passes;
        mid = record { s4 = p.s4; budget_passes = p.budget_passes; late = l };
      } in
      rw p.not_halted (rw (content_of s p.s1 p cl))

  -- `claim` issues a given ClaimedTouch and leaves the store in the state s' exactly when all gates
  -- pass in the pinned order, each in the state that the one before it left: no halted scope; the
  -- stored hash is that of the draft, the validators find nothing and the groundedness audit was of
  -- that hash; the address is not suppressed; the entity may be contacted (COLD) or continued
  -- (FOLLOWUP); budget is consumed (not for a REPLY); a mailbox is picked; the address is verified;
  -- the claim is persisted with these gate results; and the ClaimedTouch names the touch, that
  -- mailbox, the hash and the recipient.
  pub claim-issued_iff :
      (s : S) → (claim store checks t s ≡ (ok (issued c), s')) ↔ Passed store checks t s c s'
  claim-issued_iff s = (claim_inv s, claim_of s)

module _ {S C : Type 0} (store : GateStore S C) (checks : Checks C) where
  closed_total : (p : Result Verdict × S) → (v : Verdict) × ((fail_closed store checks p).0 ≡ ok v)
  closed_total (ok v, s) = (v, refl)
  closed_total (err e, s) =
      (refused (record { reason = internal; detail = repr e; terminal = false }), refl)

  -- No exception leaves `claim`, whatever the store's methods raise: it always returns a verdict.
  pub claim-total : (t : DraftTouch C) (s : S) → (v : Verdict) × ((claim store checks t s).0 ≡ ok v)
  unfolding claim
  claim-total t s = closed_total (gates store checks t s)
