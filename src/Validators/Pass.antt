-- ===== src/Validators/Pass.antt =====
-- An empty list of findings is the only pass (invariant I-9).
use mathlib.Core.Path.{subst}
use open_reachout.Base.{
  ◌≡◌, ◌↔◌, inl, inr, refl, sym, ap, ◌∙◌, false, Option, none, some, List, [], ◌++◌, Result, ok,
  err, Bool-cases, string_eq, ◌==◌, is_empty, if◌then◌else◌,
}
use open_reachout.Canonical.{Python}
use open_reachout.Gatekeeper.{Draft, Finding}
use open_reachout.Validators.{
  ValidatorContext, RegimeCheck, Regimes, strip, checked, validate, with_extras, regime_findings,
  checks_findings, run_checks,
}
use open_reachout.Validators.Clean.{All, append_nil, checks_nil}
use open_reachout.Validators.Passing.{IsClean, core_out, core_in, phi_iff, claims_iff}

module _ (py : Python) (regimes : Regimes) where
  extras_iff :
      (before behind : List Finding) (o : Result (List Finding))
      → (with_extras py regimes before o behind ≡ ok [])
        ↔ ((before ≡ []) × (o ≡ ok []) × (behind ≡ []))
  extras_iff before behind (err e) = (λ h. cc, λ h. cc (h.1))
  extras_iff before behind (ok fs) = (
    λ h.
        let (a, b) = (append_nil before (fs ++ behind)).0 (inside h) in
        let (c, d) = (append_nil fs behind).0 b in (a, ap ok c, d),
    λ h.
        ap ok
          ((append_nil before (fs ++ behind)).1 (h.0, (append_nil fs behind).1 (inside h.1, h.2))),
  )
    where
      inside : {xs : List Finding} → ok xs ≡ ok [] → xs ≡ []
      inside e = cc e

  module _ (draft : Draft) (ctx : ValidatorContext) where
    abbrev Cleared : Type 0
    Cleared =
        (checks : List RegimeCheck) × (regimes ctx.compliance_regime ≡ some checks)
        × All (λ k. k draft ctx ≡ []) checks

    known_iff :
        (o : Option (List RegimeCheck))
        → regimes ctx.compliance_regime ≡ o
        → (checks_findings py regimes o draft ctx ≡ ok []) ↔ Cleared
    known_iff none e = (λ h. cc, λ c. cc (c.1, e))
    known_iff (some ks) e = (
      λ h. (ks, e, (checks_nil py regimes ks draft ctx).0 (inside h)),
      λ c. ap ok (
          subst (λ w. run_checks py regimes w draft ctx ≡ []) (same (sym c.1 ∙ e))
            ((checks_nil py regimes c.0 draft ctx).1 c.2)),
    )
      where
        inside : {xs : List Finding} → ok xs ≡ ok [] → xs ≡ []
        inside e = cc e

        same : {xs ys : List RegimeCheck} → some xs ≡ some ys → xs ≡ ys
        same e = cc e

    regime_iff :
        ((if ctx.compliance_regime == "us_can_spam"
            then ok []
            else regime_findings py regimes draft ctx)
          ≡ ok [])
        ↔ (((ctx.compliance_regime == "us_can_spam") ≡ false) → Cleared)
    regime_iff = elim (Bool-cases (ctx.compliance_regime == "us_can_spam")) [
      | inl y ↦ (λ h n. cc, λ k. rw y)
      | inr n ↦ (
        λ h n'. (known_iff (regimes ctx.compliance_regime) refl).0 (rw n at h),
        λ k. rw n ((known_iff (regimes ctx.compliance_regime) refl).1 (k n)),
      )
    ]

    checked_iff :
        is_empty (strip py draft.subject) ≡ false
        → is_empty (strip py draft.body) ≡ false
        → (checked py regimes (strip py draft.subject) (strip py draft.body) draft ctx ≡ ok [])
          ↔ IsClean py regimes draft ctx
    checked_iff s b = (
      λ h.
          let (a, o, c) = (extras_iff _ _ _).0 h in
          let (k, p) = (append_nil _ _).0 a in
          record {
            has_subject = s;
            has_body = b;
            core = core_out py _ _ _ ctx k;
            no_phi = (phi_iff py _ _ ctx).0 p;
            regime = regime_iff.0 o;
            only_claims = (claims_iff py _ ctx).0 c;
          },
      λ c. (extras_iff _ _ _).1 (
        (append_nil _ _).1 (core_in py _ _ _ ctx c.core, (phi_iff py _ _ ctx).1 c.no_phi),
        regime_iff.1 c.regime,
        (claims_iff py _ ctx).1 c.only_claims,
      ),
    )

-- `validate` returns no finding exactly for a clean draft: subject and body are not blank; the body
-- holds the physical address, the unsubscribe text in any case and, where one is configured, the
-- sender's identity; the subject spans no fake reply prefix and no deceptive phrase; the body has at
-- most max_words words; no forbidden pattern, the pack's or the tenant's, occurs in subject and body;
-- every URL has an allowed prefix; a follow-up has no empty bump; in a sensitive sector no PHI pattern
-- occurs; a regime other than the default is known and its checks find nothing; and in allowlist mode
-- each claim-like sentence before the unsubscribe text has an approved phrase.
pub validate-IsClean :
    (py : Python) (regimes : Regimes) (draft : Draft) (ctx : ValidatorContext)
    → (validate py regimes draft ctx ≡ ok []) ↔ IsClean py regimes draft ctx
unfolding validate
validate-IsClean py regimes draft ctx = elim (Bool-cases (is_empty (strip py draft.subject))) [
  | inl t ↦ (λ h. cc (rw t at h), λ c. cc (t, c.has_subject))
  | inr f ↦ elim (Bool-cases (is_empty (strip py draft.body))) [
    | inl t ↦ (λ h. cc (rw (f, t) at h), λ c. cc (t, c.has_body))
    | inr g ↦ rw (f, g) (checked_iff py regimes draft ctx f g)
  ]
]
