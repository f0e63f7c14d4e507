-- ===== src/Sentiment.antt =====
-- The throttle on a cohort whose replies turn sour (src/open_reachout/stats/sentiment.py). Its scores are
-- floats, which are a parameter with the operations that the code makes of them. Replies come in the
-- order of their ids; of an audit row's payload there are the period and the prior cap.
pub mod Caps
use open_reachout.Base.{
  ℕ, zero, suc, ◌-◌, ◌/◌, ◌%◌, String, Bool, true, false, not, ◌&&◌, ◌||◌, Option, none, some, List,
  [], ◌∷◌, ◌++◌, Exec, pure, modify, ◌>>=◌, ◌>>◌, ℕ_eq, string_eq, ◌==◌, if◌then◌else◌, ltb,
  apply_row, row_is,
}
use open_reachout.Db.{Db, Reply, Prospect, Counter, Audit, Subject, cohort_month}
use open_reachout.Escalations.{escalate}
use open_reachout.Proposals.{set_cap}

abbrev pub min_replies : ℕ
min_replies = 10

abbrev pub evaluate_every : ℕ
evaluate_every = 10

abbrev pub window : ℕ
window = 200

-- 0.0, score + ALPHA * (x - score), SCORES.get(intent, 0.0), and the tests for the two floors
pub record Scores (F : Type 0) : Type 0 where
  pub neutral : F
  pub blend : F → F → F
  pub score_of : String → F
  pub below_throttle : F → Bool
  pub below_pause : F → Bool

abbrev pub in_cohort : String → String → Option Prospect → Bool
in_cohort tenant cohort = row_is (λ (p : Prospect). (p.tenant == tenant) && (p.cohort_id == cohort))

abbrev pub intent_row : String → String → Db → Option Reply → List String
intent_row tenant cohort db none = []
intent_row tenant cohort db (some r) =
    if in_cohort tenant cohort (db.prospects.rows r.prospect_id)
    then elim r.intent [ none ↦ [] | some i ↦ i ∷ [] ]
    else []

-- The classified replies of the cohort, oldest first
unfoldable pub intents_below : String → String → Db → ℕ → List String
intents_below tenant cohort db zero = []
intents_below tenant cohort db (suc n) =
    intents_below tenant cohort db n ++ intent_row tenant cohort db (db.replies.rows n)

unfoldable pub all_intents : String → String → Db → List String
unfolding intents_below
all_intents tenant cohort db = intents_below tenant cohort db db.replies.next

abbrev pub length : List String → ℕ
length [] = 0
length (x ∷ xs) = suc (length xs)

-- The newest ones: the list without all but its last n
unfoldable pub newest : ℕ → List String → List String
newest n [] = []
newest n (x ∷ xs) = let rest = newest n xs in if ltb n (length (x ∷ xs)) then rest else x ∷ xs

abbrev pub has_acted : String → String → String → List Audit → Bool
has_acted cohort event period [] = false
has_acted cohort event period (Audit.cohort_event c e p cap ∷ rest) =
    ((c == cohort) && ((e == event) && (p == period))) || has_acted cohort event period rest
has_acted cohort event period (_ ∷ rest) = has_acted cohort event period rest

abbrev pub cap_of : Option Counter → Option ℕ
cap_of none = none
cap_of (some c) = some c.cap

abbrev pub note_event : String → String → Option ℕ → Db → Db
note_event cohort event prior db = record db {
  audit = db.audit ++ Audit.cohort_event cohort event db.month prior ∷ [];
}

-- GREATEST(cap / 2, 1)
abbrev pub halved : ℕ → ℕ
halved cap = if ltb 1 (cap / 2) then cap / 2 else 1

abbrev pub pause_sour : String → String → Exec Db (Option String)
pause_sour tenant cohort = λ db.
    (do
      modify (set_cap cohort (λ cap. 0))
      modify
          (note_event cohort "sentiment_pause" (cap_of (db.counters cohort_month cohort db.month)))
      _ ← escalate (some tenant) (Subject.cohort_subject cohort) "sentiment pause"
      pure (some "paused"))
      db

abbrev pub throttle_sour : String → Exec Db (Option String)
throttle_sour cohort = do
  modify (set_cap cohort halved)
  modify (note_event cohort "sentiment_throttle" none)
  pure (some "throttled")

module _ {F : Type 0} (scores : Scores F) where
  abbrev pub blend_all : F → List String → F
  blend_all score [] = score
  blend_all score (i ∷ rest) = blend_all (scores.blend score (scores.score_of i)) rest

  unfoldable pub cohort_sentiment : String → String → Db → F × ℕ
  unfolding all_intents newest
  cohort_sentiment tenant cohort db =
      let intents = newest window (all_intents tenant cohort db) in
      (blend_all scores.neutral intents, length intents)

  -- By the score and the number of replies that it rests on
  unfoldable pub evaluate_score : String → String → F × ℕ → Exec Db (Option String)
  unfolding escalate
  evaluate_score tenant cohort (score, n) db =
      if ltb n min_replies
      then pure none db
      else (if scores.below_pause score
          then (if has_acted cohort "sentiment_pause" db.month db.audit
              then pure none db
              else pause_sour tenant cohort db)
          else (if scores.below_throttle score
              then (if has_acted cohort "sentiment_throttle" db.month db.audit
                  then pure none db
                  else throttle_sour cohort db)
              else pure none db))

  unfoldable pub evaluate_cohort : String → String → Exec Db (Option String)
  unfolding evaluate_score cohort_sentiment
  evaluate_cohort tenant cohort db =
      evaluate_score tenant cohort (cohort_sentiment tenant cohort db) db

  unfoldable pub maybe_evaluate : String → String → Exec Db (Option String)
  unfolding evaluate_cohort
  maybe_evaluate tenant cohort db =
      let n = length (all_intents tenant cohort db) in
      if not (n == 0) && (n % evaluate_every == 0)
      then evaluate_cohort tenant cohort db
      else pure none db
