-- ===== src/Learning.antt =====
-- The bandit's counters (src/open_reachout/stats/persistence.py) and its guardrails
-- (src/open_reachout/stats/bandit.py). A rate limit x / 1000 is tested by cross multiplication, so
-- that the comparison is one of whole numbers.
pub mod Guardrails
use open_reachout.Base.{
  ℕ, ◌+◌, ◌*◌, ◌≡◌, String, Bool, true, false, not, ◌&&◌, ◌||◌, Option, none, some, List, [], ◌∷◌,
  ◌++◌, string_eq, ◌==◌, if◌then◌else◌, ltb,
}
use open_reachout.Db.{Db, VariantStats, Audit}

abbrev pub cold_stats : VariantStats
cold_stats = record {
  trials = 0;
  successes = 0;
  complaints = 0;
  unsubs = 0;
  bounces = 0;
  paused = false;
}

abbrev pub stats_or_cold : Option VariantStats → VariantStats
stats_or_cold none = cold_stats
stats_or_cold (some s) = s

-- INSERT ... ON CONFLICT (tenant, variant_id) DO UPDATE
abbrev pub upsert : String → String → (VariantStats → VariantStats) → Db → Db
upsert tenant variant f db = record db {
  variant_stats = λ t v.
      if (tenant == t) && (variant == v)
      then some (f (stats_or_cold (db.variant_stats t v)))
      else db.variant_stats t v;
}

unfoldable pub record_trial : String → String → Db → Db
record_trial tenant variant = upsert tenant variant (λ s. record s { trials = s.trials + 1 })

unfoldable pub record_success : String → String → Db → Db
record_success tenant variant =
    upsert tenant variant (λ s. record s { successes = s.successes + 1 })

-- GUARDRAIL_COLUMNS
pub data Guardrail : Type 0 where
  bounce complaint unsubscribe : Guardrail

abbrev pub observe : Guardrail → VariantStats → VariantStats
observe bounce s = record s { bounces = s.bounces + 1 }
observe complaint s = record s { complaints = s.complaints + 1 }
observe unsubscribe s = record s { unsubs = s.unsubs + 1 }

abbrev pub guardrail_min_trials : ℕ
guardrail_min_trials = 10

-- n / trials > limit / 1000
abbrev pub over : ℕ → ℕ → ℕ → Bool
over n trials limit = ltb (limit * trials) (1000 * n)

abbrev pub named : Bool → String → List String
named b name = if b then name ∷ [] else []

unfoldable pub guardrail_breaches : VariantStats → List String
guardrail_breaches s =
    if ltb s.trials guardrail_min_trials
    then []
    else named (over s.complaints s.trials 2) "complaint_rate"
      ++ (named (over s.unsubs s.trials 20) "unsub_rate"
          ++ named (over s.bounces s.trials 50) "bounce_rate")

abbrev pub is_nil : List String → Bool
is_nil [] = true
is_nil (_ ∷ _) = false

abbrev pub pause : String → String → Db → Db
pause tenant variant db =
    let db' = upsert tenant variant (λ s. record s { paused = true }) db in
    record db' { audit = db'.audit ++ Audit.variant_paused variant ∷ [] }

abbrev pub pause_on : String → String → VariantStats → Db → Bool × Db
pause_on tenant variant s db =
    if s.paused || is_nil (guardrail_breaches s)
    then (false, db)
    else (true, pause tenant variant db)

-- by what _load_one returns
abbrev pub pause_loaded : String → String → Option VariantStats → Db → Bool × Db
pause_loaded tenant variant none db = (false, db)
pause_loaded tenant variant (some s) db = pause_on tenant variant s db

-- True when this observation paused the variant.
unfoldable pub record_guardrail : String → String → Guardrail → Db → Bool × Db
record_guardrail tenant variant kind db =
    let db' = upsert tenant variant (observe kind) db in
    pause_loaded tenant variant (db'.variant_stats tenant variant) db'
