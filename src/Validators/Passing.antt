-- ===== src/Validators/Passing.antt =====
-- What a draft without findings is (invariant I-9).
use open_reachout.Base.{
  ℕ, ◌≤◌, ◌≡◌, ◌↔◌, inl, inr, String, true, false, not, ◌&&◌, none, some, List, [], ◌++◌, arith,
  Bool-cases, string_eq, ◌==◌, ltb, leb, is_empty, is_in,
}
use open_reachout.Base.Parts.{Contains, is_in_iff}
use open_reachout.Canonical.{Python}
use open_reachout.Gatekeeper.{
  Draft, Finding, missing_physical_address, missing_unsubscribe, missing_sender_identity,
  fake_thread_subject, deceptive_subject, too_long, forbidden_claim, url_not_allowlisted,
  bump_theater, unregistered_claim, phi_suspected, note,
}
use open_reachout.Pattern.{Pos, mark, search, begins, find_all}
use open_reachout.Pattern.Spans.{Spans}
use open_reachout.Pattern.Search.{Occurs, begins_iff}
use open_reachout.Validators.{
  ValidatorContext, RegimeCheck, Regimes, count_words, sentences, strip, forbidden_hits, phi_hits,
  unregistered_claims, is_allowed_url, screened, content_of, lacks_identity, core_findings,
  phi_findings, claim_findings, flag, report,
}
use open_reachout.Validators.Patterns.{
  default_forbidden, fake_thread, deceptive, url, bump, phi_patterns,
}
use open_reachout.Validators.Clean.{
  All, append_nil, flag_nil, report_nil, not-true, not-false, search_not, hits_nil, names_nil,
  urls_nil, flagged_nil, IsRegistered,
}

module _ (py : Python) where
  -- The checks that always run find nothing in this subject and body.
  pub record IsCoreClean (subject body : String) (step_index : ℕ) (ctx : ValidatorContext)
      : Type 0 where
    pub has_address : Contains body (strip py ctx.physical_address)
    pub has_unsubscribe : Contains (py.lower body) (py.lower (strip py ctx.unsubscribe_text))
    pub has_identity :
        (is_empty (strip py ctx.sender_identity) ≡ false)
        → Contains body (strip py ctx.sender_identity)
    pub no_fake_thread : (q : Pos) → ¬ Spans (fake_thread py) (mark none subject) q
    pub not_deceptive : ¬ Occurs (deceptive py) none subject
    pub short : count_words py.is_space false body ≤ ctx.max_words
    pub no_forbidden :
        All
          (λ r. ¬ Occurs r none (content_of py subject body))
          (default_forbidden py ++ ctx.forbidden_patterns)
    pub known_urls :
        All (λ u. is_allowed_url py ctx.allowed_url_prefixes u ≡ true) (find_all (url py) body)
    pub no_bump : 1 ≤ step_index → ¬ Occurs (bump py) none body

  identity_iff :
      (body : String) (ctx : ValidatorContext)
      → (lacks_identity py body ctx ≡ false) ↔ (
          is_empty (strip py ctx.sender_identity) ≡ false
          → Contains body (strip py ctx.sender_identity))
  identity_iff body ctx = (
    λ h e. (is_in_iff (strip py ctx.sender_identity) body).0 (ground (arith, h, e)),
    λ k. elim (Bool-cases (is_empty (strip py ctx.sender_identity))) [
      | inl t ↦ rw t
      | inr f ↦ rw (f, (is_in_iff (strip py ctx.sender_identity) body).1 (k f))
    ],
  )

  bump_iff :
      (body : String) (n : ℕ)
      → ((leb 1 n && search (bump py) body) ≡ false) ↔ (1 ≤ n → ¬ Occurs (bump py) none body)
  bump_iff body n = (
    λ h le. (search_not (bump py) body).0 (ground (arith, h)),
    λ k. elim (Bool-cases (leb 1 n)) [
      | inl t ↦ rw (t, (search_not (bump py) body).1 (k (ground (arith, t))))
      | inr f ↦ rw f
    ],
  )

  thread_iff :
      (subject : String)
      → (begins (fake_thread py) subject ≡ false)
        ↔ ((q : Pos) → ¬ Spans (fake_thread py) (mark none subject) q)
  thread_iff subject = (
    λ h q k. (not-true _).0 h ((begins_iff (fake_thread py) subject).1 (q, k)),
    λ n. (not-true _).1 (λ e. let (q, k) = (begins_iff (fake_thread py) subject).0 e in n q k),
  )

  part_iff : (t s : String) → (not (is_in s t) ≡ false) ↔ Contains t s
  part_iff t s = (
    λ h. (is_in_iff s t).0 ((not-false (is_in s t)).0 h),
    λ k. (not-false (is_in s t)).1 ((is_in_iff s t).1 k),
  )

  not_over : (n m : ℕ) → ltb n m ≡ false → m ≤ n
  not_over n m h = ground arith

  pub core_out :
      (subject body : String) (n : ℕ) (ctx : ValidatorContext)
      → core_findings py subject body n ctx ≡ []
      → IsCoreClean subject body n ctx
  unfolding forbidden_hits
  core_out subject body n ctx h =
      let (a1, h1) = (append_nil (flag _ missing_physical_address _) _).0 h in
      let (a2, h2) = (append_nil (flag _ missing_unsubscribe _) _).0 h1 in
      let (a3, h3) = (append_nil (flag _ missing_sender_identity _) _).0 h2 in
      let (a4, h4) = (append_nil (flag _ fake_thread_subject _) _).0 h3 in
      let (a5, h5) = (append_nil (flag _ deceptive_subject _) _).0 h4 in
      let (a6, h6) = (append_nil (flag _ too_long _) _).0 h5 in
      let (a7, h7) = (append_nil (report forbidden_claim _) _).0 h6 in
      let (a8, a9) = (append_nil (report url_not_allowlisted _) _).0 h7 in
      let over = (flag_nil (ltb ctx.max_words (count_words py.is_space false body)) _ _).0 a6 in
      record {
        has_address = (part_iff body _).0 ((flag_nil _ _ _).0 a1);
        has_unsubscribe = (part_iff (py.lower body) _).0 ((flag_nil _ _ _).0 a2);
        has_identity = (identity_iff body ctx).0 ((flag_nil _ _ _).0 a3);
        no_fake_thread = (thread_iff subject).0 ((flag_nil _ _ _).0 a4);
        not_deceptive = (search_not (deceptive py) subject).0 ((flag_nil _ _ _).0 a5);
        short = not_over ctx.max_words (count_words py.is_space false body) over;
        no_forbidden =
            (hits_nil (default_forbidden py ++ ctx.forbidden_patterns) _).0 ((report_nil _ _).0 a7);
        known_urls = (urls_nil py _ _).0 ((report_nil _ _).0 a8);
        no_bump = (bump_iff body n).0 ((flag_nil _ _ _).0 a9);
      }

  pub core_in :
      (subject body : String) (n : ℕ) (ctx : ValidatorContext)
      → IsCoreClean subject body n ctx
      → core_findings py subject body n ctx ≡ []
  unfolding forbidden_hits
  core_in subject body n ctx c = both_nil ((flag_nil _ _ _).1 ((part_iff body _).1 c.has_address)) (
      both_nil ((flag_nil _ _ _).1 ((part_iff (py.lower body) _).1 c.has_unsubscribe)) (
        both_nil ((flag_nil _ _ _).1 ((identity_iff body ctx).1 c.has_identity)) (
          both_nil ((flag_nil _ _ _).1 ((thread_iff subject).1 c.no_fake_thread)) (
            both_nil ((flag_nil _ _ _).1 ((search_not (deceptive py) subject).1 c.not_deceptive)) (
              both_nil
                ((flag_nil (ltb ctx.max_words (count_words py.is_space false body)) _ _).1
                  (within c.short))
                (both_nil
                  ((report_nil forbidden_claim _).1 (
                    (hits_nil (default_forbidden py ++ ctx.forbidden_patterns)
                        (content_of py subject body)).1
                      c.no_forbidden))
                  (both_nil
                    ((report_nil url_not_allowlisted _).1 ((urls_nil py _ _).1 c.known_urls))
                    ((flag_nil _ bump_theater (note "content-free follow-up")).1
                      ((bump_iff body n).1 c.no_bump)))))))))
    where
      within : {a b : ℕ} → a ≤ b → ltb b a ≡ false
      within h = ground arith

      both_nil : {xs ys : List Finding} → xs ≡ [] → ys ≡ [] → xs ++ ys ≡ []
      both_nil p q = (append_nil _ _).1 (p, q)

  -- What the checks that a tenant switches on ask for.
  pub record IsClean (regimes : Regimes) (draft : Draft) (ctx : ValidatorContext) : Type 0 where
    pub has_subject : is_empty (strip py draft.subject) ≡ false
    pub has_body : is_empty (strip py draft.body) ≡ false
    pub core : IsCoreClean (strip py draft.subject) (strip py draft.body) draft.step_index ctx
    pub no_phi :
        ((ctx.sector_sensitivity == "none") ≡ false)
        → All
            (λ p. ¬ Occurs p.1 none (content_of py (strip py draft.subject) (strip py draft.body)))
            (phi_patterns py)
    pub regime :
        ((ctx.compliance_regime == "us_can_spam") ≡ false)
        → (checks : List RegimeCheck) × (regimes ctx.compliance_regime ≡ some checks)
          × All (λ k. k draft ctx ≡ []) checks
    pub only_claims :
        ((ctx.claim_mode == "allowlist") ≡ true)
        → All
            (IsRegistered py ctx.approved_claims)
            (sentences false (screened py (strip py draft.body) ctx))

  pub phi_iff :
      (subject body : String) (ctx : ValidatorContext)
      → (phi_findings py subject body ctx ≡ []) ↔ (
          ((ctx.sector_sensitivity == "none") ≡ false)
          → All (λ p. ¬ Occurs p.1 none (content_of py subject body)) (phi_patterns py))
  unfolding phi_hits
  phi_iff subject body ctx = elim (Bool-cases (ctx.sector_sensitivity == "none")) [
    | inl y ↦ (λ h n. cc, λ k. rw y)
    | inr n ↦ (
      λ h n'.
          (names_nil (phi_patterns py) (content_of py subject body)).0
            ((report_nil phi_suspected _).0 (rw n at h)),
      λ k. rw n (
          (report_nil phi_suspected _).1
            ((names_nil (phi_patterns py) (content_of py subject body)).1 (k n))),
    )
  ]

  pub claims_iff :
      (body : String) (ctx : ValidatorContext)
      → (claim_findings py body ctx ≡ []) ↔ (
          ((ctx.claim_mode == "allowlist") ≡ true)
          → All (IsRegistered py ctx.approved_claims) (sentences false (screened py body ctx)))
  unfolding unregistered_claims
  claims_iff body ctx = elim (Bool-cases (ctx.claim_mode == "allowlist")) [
    | inr n ↦ (λ h y. cc, λ k. rw n)
    | inl y ↦ (
      λ h y'.
          (flagged_nil py ctx.approved_claims (sentences false (screened py body ctx))).0
            ((report_nil unregistered_claim _).0 (rw y at h)),
      λ k. rw y (
          (report_nil unregistered_claim _).1 (
            (flagged_nil py ctx.approved_claims (sentences false (screened py body ctx))).1 (k y))),
    )
  ]
