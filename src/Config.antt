-- ===== src/Config.antt =====
-- The checks across the fields of a tenant's configuration (src/open_reachout/core/config.py). What
-- pydantic checks field by field (types, patterns and lengths) is left out; a raised ValueError is
-- `value_error`.
pub mod Sequences
use open_reachout.Base.{
  ℕ, zero, suc, ◌+◌, ◌-◌, String, Bool, true, false, not, ◌&&◌, ◌||◌, Option, none, some, List, [],
  ◌∷◌, ◌++◌, Result, ok, err, value_error, ℕ_eq, string_eq, ◌==◌, if◌then◌else◌, ltb, contains,
  size, starts_with,
}
use open_reachout.Canonical.{Python}
use open_reachout.Deliver.{SequenceSpec}
use open_reachout.Validators.{strip, forbidden_hits, unregistered_claims}

abbrev pub min_follow_up_gap_days : ℕ
min_follow_up_gap_days = 3

abbrev pub length : {A : Type 0} → List A → ℕ
length [] = 0
length (x ∷ xs) = suc (length xs)

abbrev pub any_below : ℕ → List ℕ → Bool
any_below bound [] = false
any_below bound (g ∷ gs) = ltb g bound || any_below bound gs

abbrev pub refuse_if : Bool → Result (Unit {0})
refuse_if true = err value_error
refuse_if false = ok tt

infixl 5 ◌>>◌
abbrev pub ◌>>◌ : Result (Unit {0}) → Result (Unit {0}) → Result (Unit {0})
ok tt >> next = next
err e >> next = err e

-- human_tasks: which step is done off the channel, and how. A step is never negative here.
abbrev pub check_tasks : Python → ℕ → List (ℕ × String) → Result (Unit {0})
check_tasks py steps [] = ok tt
check_tasks py steps ((step, instruction) ∷ rest) =
    (refuse_if (not (ltb step steps)) >> refuse_if (ltb (size (strip py instruction)) 10))
    >> check_tasks py steps rest

-- SequenceSpec._gaps
unfoldable pub check_gaps : Python → SequenceSpec → List (ℕ × String) → Result (Unit {0})
check_gaps py seq human_tasks =
    (refuse_if (not (length seq.gaps_days == seq.steps - 1))
      >> refuse_if (any_below min_follow_up_gap_days seq.gaps_days))
    >> check_tasks py seq.steps human_tasks

abbrev pub is_nil : {A : Type 0} → List A → Bool
is_nil [] = true
is_nil (x ∷ xs) = false

-- AboutUs._https_links
unfoldable pub check_links : List (String × String) → Result (Unit {0})
check_links [] = ok tt
check_links ((key, url) ∷ rest) = refuse_if (not (starts_with "https://" url)) >> check_links rest

-- AboutUs._faq_linted
unfoldable pub check_faq : Python → List (String × String) → Result (Unit {0})
check_faq py [] = ok tt
check_faq py ((question, answer) ∷ rest) =
    refuse_if (not (is_nil (forbidden_hits py answer []))) >> check_faq py rest

abbrev pub any_short : Python → List String → Bool
any_short py [] = false
any_short py (c ∷ cs) = ltb (size (strip py c)) 5 || any_short py cs

-- AboutUs._allowlist_needs_claims
unfoldable pub check_claims : Python → String → List String → Result (Unit {0})
check_claims py mode approved =
    refuse_if ((mode == "allowlist") && is_nil approved) >> refuse_if (any_short py approved)

abbrev pub has_repeat : List String → Bool
has_repeat [] = false
has_repeat (x ∷ xs) = contains xs x || has_repeat xs

-- AssetSpec
pub record AssetSpec : Type 0 where
  pub id : String
  pub url : String
  pub summary : String

abbrev pub ids_of : List AssetSpec → List String
ids_of [] = []
ids_of (a ∷ rest) = a.id ∷ ids_of rest

abbrev pub check_assets : Python → String → List String → List AssetSpec → Result (Unit {0})
check_assets py mode approved [] = ok tt
check_assets py mode approved (a ∷ rest) =
    (refuse_if (not (is_nil (forbidden_hits py a.summary [])))
      >> refuse_if
          ((mode == "allowlist") && not (is_nil (unregistered_claims py a.summary approved))))
    >> check_assets py mode approved rest

-- AboutUs._assets_claims_linted
unfoldable pub lint_assets : Python → String → List String → List AssetSpec → Result (Unit {0})
lint_assets py mode approved assets =
    refuse_if (has_repeat (ids_of assets)) >> check_assets py mode approved assets

abbrev pub objection_classes : List String
objection_classes = "price" ∷ "trust" ∷ "timing" ∷ "already_solved" ∷ "other" ∷ []

-- PersonaSpec._counters_linted
unfoldable pub check_counters : Python → List (String × String) → Result (Unit {0})
check_counters py [] = ok tt
check_counters py ((klass, snippet) ∷ rest) =
    (refuse_if (not (contains objection_classes klass))
      >> refuse_if (not (is_nil (forbidden_hits py snippet []))))
    >> check_counters py rest

-- PersonaSpec, as far as the budget check reads it: its id and its cohorts' monthly budgets
pub record PersonaBudgets : Type 0 where
  pub id : String
  pub monthly_budgets : List ℕ

abbrev pub sum : List ℕ → ℕ
sum [] = 0
sum (n ∷ ns) = n + sum ns

abbrev pub total_budget : List PersonaBudgets → ℕ
total_budget [] = 0
total_budget (p ∷ rest) = sum p.monthly_budgets + total_budget rest

abbrev pub persona_ids : List PersonaBudgets → List String
persona_ids [] = []
persona_ids (p ∷ rest) = p.id ∷ persona_ids rest

-- TenantConfig._budget_consistency
unfoldable pub check_budgets : ℕ → List PersonaBudgets → Result (Unit {0})
check_budgets monthly_prospects personas =
    refuse_if (ltb monthly_prospects (total_budget personas))
    >> refuse_if (has_repeat (persona_ids personas))
