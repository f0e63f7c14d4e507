-- ===== src/Validators/Clean.antt =====
-- When each check of a draft finds nothing.
use open_reachout.Base.{
  ◌≡◌, ◌≢◌, ◌↔◌, inl, inr, refl, String, Bool, true, false, not, Option, none, some, List, [], ◌∷◌,
  ◌++◌, arith, Bool-cases, string_eq, if◌then◌else◌,
}
use open_reachout.Canonical.{Python}
use open_reachout.Gatekeeper.{Draft, Violation, Note}
use open_reachout.Pattern.{Regex, Match, find, search, is_found}
use open_reachout.Pattern.Search.{Occurs, search_iff}
use open_reachout.Validators.{
  ValidatorContext, RegimeCheck, Regimes, group_of, hits_of, names_of, flag, report, has_phrase,
  flagged, is_allowed_url, foreign_urls, run_checks, is_unregistered,
}
use open_reachout.Validators.Patterns.{claim_signal}

-- P holds for every element.
abbrev pub All : {A : Type 0} → (A → Type 0) → List A → Type 0
All P [] = Unit
All P (x ∷ xs) = P x × All P xs

pub append_nil : {A : Type 0} (xs ys : List A) → (xs ++ ys ≡ []) ↔ ((xs ≡ []) × (ys ≡ []))
append_nil [] ys = (λ h. (refl, h), λ h. h.1)
append_nil (x ∷ xs) ys = (λ h. cc, λ h. cc (h.0))

pub flag_nil : (b : Bool) (c : Violation) (n : Note) → (flag b c n ≡ []) ↔ (b ≡ false)
flag_nil true c n = (λ h. cc, λ h. cc)
flag_nil false c n = (λ h. refl, λ h. refl)

pub report_nil : (c : Violation) (hits : List String) → (report c hits ≡ []) ↔ (hits ≡ [])
report_nil c [] = (λ h. refl, λ h. refl)
report_nil c (x ∷ xs) = (λ h. cc, λ h. cc)

pub not-true : (b : Bool) → (b ≡ false) ↔ (b ≢ true)
not-true true = (λ h e. cc, λ h. absurd (h refl))
not-true false = (λ h e. cc, λ h. refl)

pub not-false : (b : Bool) → (not b ≡ false) ↔ (b ≡ true)
not-false true = (λ h. refl, λ h. refl)
not-false false = (λ h. cc, λ h. cc)

pub search_not : (r : Regex) (s : String) → (search r s ≡ false) ↔ (¬ Occurs r none s)
search_not r s = (
  λ h k. (not-true (search r s)).0 h ((search_iff r s).1 k),
  λ n. (not-true (search r s)).1 (λ e. n ((search_iff r s).0 e)),
)

group_nil : (o : Option Match) → (group_of o ≡ []) ↔ (is_found o ≡ false)
group_nil none = (λ h. refl, λ h. refl)
group_nil (some m) = (λ h. cc, λ h. cc)

pub hits_nil :
    (rs : List Regex) (s : String) → (hits_of rs s ≡ []) ↔ All (λ r. ¬ Occurs r none s) rs
unfolding search
hits_nil [] s = (λ h. tt, λ h. refl)
hits_nil (r ∷ rs) s = (
  λ h.
      let (a, b) = (append_nil (group_of (find r s)) (hits_of rs s)).0 h in
      ((search_not r s).0 ((group_nil (find r s)).0 a), (hits_nil rs s).0 b),
  λ h.
      (append_nil (group_of (find r s)) (hits_of rs s)).1
        ((group_nil (find r s)).1 ((search_not r s).1 h.0), (hits_nil rs s).1 h.1),
)

if_nil :
    {A : Type 0} (b : Bool) (x : A) (ys : List A)
    → ((if b then x ∷ [] else []) ++ ys ≡ []) ↔ ((b ≡ false) × (ys ≡ []))
if_nil true x ys = (λ h. cc, λ h. cc (h.0))
if_nil false x ys = (λ h. (refl, h), λ h. h.1)

pub names_nil :
    (ps : List (String × Regex)) (s : String)
    → (names_of ps s ≡ []) ↔ All (λ p. ¬ Occurs p.1 none s) ps
names_nil [] s = (λ h. tt, λ h. refl)
names_nil ((name, r) ∷ ps) s = (
  λ h.
      let (a, b) = (if_nil (search r s) name (names_of ps s)).0 h in
      ((search_not r s).0 a, (names_nil ps s).0 b),
  λ h.
      (if_nil (search r s) name (names_of ps s)).1 ((search_not r s).1 h.0, (names_nil ps s).1 h.1),
)

module _ (py : Python) where
  unless_nil :
      (b : Bool) (x : String) (ys : List String)
      → ((if b then [] else x ∷ []) ++ ys ≡ []) ↔ ((b ≡ true) × (ys ≡ []))
  unless_nil true x ys = (λ h. (refl, h), λ h. h.1)
  unless_nil false x ys = (λ h. cc, λ h. cc (h.0))

  pub urls_nil :
      (prefixes us : List String)
      → (foreign_urls py prefixes us ≡ []) ↔ All (λ u. is_allowed_url py prefixes u ≡ true) us
  urls_nil prefixes [] = (λ h. tt, λ h. refl)
  urls_nil prefixes (u ∷ us) = (
    λ h.
        let (a, b) = (unless_nil (is_allowed_url py prefixes u) u _).0 h in
        (a, (urls_nil prefixes us).0 b),
    λ h. (unless_nil (is_allowed_url py prefixes u) u _).1 (h.0, (urls_nil prefixes us).1 h.1),
  )

  -- A claim-like sentence has an approved phrase.
  abbrev pub IsRegistered : List String → String → Type 0
  IsRegistered approved s = Occurs (claim_signal py) none s → has_phrase py approved s ≡ true

  registered :
      (approved : List String) (s : String)
      → (is_unregistered py approved s ≡ false) ↔ IsRegistered approved s
  registered approved s = (
    λ h k. ground (arith, h, (search_iff (claim_signal py) s).1 k),
    λ h. elim (Bool-cases (search (claim_signal py) s)) [
      | inl y ↦
          rw y ((not-false (has_phrase py approved s)).1 (h ((search_iff (claim_signal py) s).0 y)))
      | inr n ↦ rw n
    ],
  )

  pub flagged_nil :
      (approved ss : List String) → (flagged py approved ss ≡ []) ↔ All (IsRegistered approved) ss
  flagged_nil approved [] = (λ h. tt, λ h. refl)
  flagged_nil approved (s ∷ ss) = (
    λ h.
        let (a, b) = (if_nil (is_unregistered py approved s) _ _).0 h in
        ((registered approved s).0 a, (flagged_nil approved ss).0 b),
    λ h.
        (if_nil (is_unregistered py approved s) _ _).1
          ((registered approved s).1 h.0, (flagged_nil approved ss).1 h.1),
  )

pub checks_nil :
    (py : Python) (regimes : Regimes) (checks : List RegimeCheck) (draft : Draft)
    (ctx : ValidatorContext)
    → (run_checks py regimes checks draft ctx ≡ []) ↔ All (λ k. k draft ctx ≡ []) checks
checks_nil py regimes [] draft ctx = (λ h. tt, λ h. refl)
checks_nil py regimes (k ∷ ks) draft ctx = (
  λ h.
      let (a, b) = (append_nil (k draft ctx) _).0 h in
      (a, (checks_nil py regimes ks draft ctx).0 b),
  λ h. (append_nil (k draft ctx) _).1 (h.0, (checks_nil py regimes ks draft ctx).1 h.1),
)
