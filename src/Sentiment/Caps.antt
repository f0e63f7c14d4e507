-- ===== src/Sentiment/Caps.antt =====
-- What evaluating a cohort does to the caps.
use open_reachout.Base.{
  ℕ, zero, suc, ◌≤◌, ◌≡◌, ◌⊎◌, inl, inr, refl, String, Bool, true, false, ◌&&◌, Option, none, some,
  ok, arith, Bool-cases, ℕ_eq, string_eq, ◌==◌, ==_refl, if◌then◌else◌, ltb, apply_row, Result,
}
use open_reachout.Db.{Db, Counter, ScopeType, scope_eq, cohort_month}
use open_reachout.Escalations.{escalate}
use open_reachout.Sentiment.{
  Scores, evaluate_cohort, evaluate_score, cohort_sentiment, pause_sour, throttle_sour, has_acted,
  halved, min_replies,
}

-- The key of the cohort's counter of the month
abbrev pub is_month : String → Db → ScopeType → String → String → Bool
is_month cohort db st id period = (cohort_month == st) && ((cohort == id) && (db.month == period))

-- The cap after an action
abbrev pub capped : Option String → ℕ → ℕ
capped none cap = cap
capped (some action) cap = if action == "paused" then 0 else halved cap

-- What an evaluation that returned `r` leaves of the counters.
pub record Acted (cohort : String) (db db' : Db) (r : Option String) : Type 0 where
  pub others :
      (st : ScopeType) (id period : String)
      → is_month cohort db st id period ≡ false
      → db'.counters st id period ≡ db.counters st id period
  pub own :
      db'.counters cohort_month cohort db.month
      ≡ apply_row
          (λ (c : Counter). record c { cap = capped r c.cap })
          (db.counters cohort_month cohort db.month)
  pub month : db'.month ≡ db.month

module _ (cohort : String) where
  kept_row : (o : Option Counter) → o ≡ apply_row (λ (c : Counter). record c { cap = c.cap }) o
  kept_row none = refl
  kept_row (some c) = refl

  idle : (db : Db) → Acted cohort db db none
  idle db = record {
    others = λ st id period n. refl;
    own = kept_row (db.counters cohort_month cohort db.month);
    month = refl;
  }

  paused :
      (tenant : String) (db : Db) → Acted cohort db (pause_sour tenant cohort db).1 (some "paused")
  unfolding escalate
  paused tenant db = record {
    others = λ st id period n. rw n;
    own = rw (==_refl cohort, ==_refl db.month);
    month = refl;
  }

  throttled : (db : Db) → Acted cohort db (throttle_sour cohort db).1 (some "throttled")
  throttled db = record {
    others = λ st id period n. rw n;
    own = rw (==_refl cohort, ==_refl db.month);
    month = refl;
  }

  abbrev Did : Result (Option String) × Db → Db → Type 0
  Did q db = (r : Option String) × (q.0 ≡ ok r) × Acted cohort db q.1 r

  if_Did :
      (b : Bool) (x y : Result (Option String) × Db) (db : Db)
      → Did x db
      → Did y db
      → Did (if b then x else y) db
  if_Did true x y db hx hy = hx
  if_Did false x y db hx hy = hy

  score-Did :
      {F : Type 0} (scores : Scores F) (tenant : String) (s : F × ℕ) (db : Db)
      → Did (evaluate_score scores tenant cohort s db) db
  unfolding evaluate_score escalate
  score-Did scores tenant (score, n) db =
      let idle' : Did (ok none, db) db = (none, refl, idle db) in
      if_Did (ltb n min_replies) _ _ db idle' (
        if_Did (scores.below_pause score) _ _ db
          (if_Did (has_acted cohort "sentiment_pause" db.month db.audit) _ _ db idle'
            (some "paused", refl, paused tenant db))
          (if_Did (scores.below_throttle score) _ _ db
            (if_Did (has_acted cohort "sentiment_throttle" db.month db.audit) _ _ db idle'
              (some "throttled", refl, throttled db))
            idle'))

halved_bound : (cap : ℕ) → (halved cap ≤ cap) ⊎ ((cap ≡ 0) × (halved cap ≡ 1))
halved_bound zero = inr (refl, refl)
halved_bound (suc n) = inl (ground arith)

capped_bound :
    (r : Option String) (cap : ℕ) → (capped r cap ≤ cap) ⊎ ((cap ≡ 0) × (capped r cap ≡ 1))
capped_bound none cap = inl (omega arith)
capped_bound (some action) cap = elim (Bool-cases (action == "paused")) [
  | inl y ↦ rw y (inl (omega arith))
  | inr n ↦ rw n (halved_bound cap)
]

-- Evaluating a cohort always returns, and whatever the scores say: no counter but the cohort's own of
-- the month changes; that one keeps what it has used, its cap becomes 0 for a pause, half of it but at
-- least 1 for a throttle, and stays if nothing is done; and so the cap does not grow, but for a cap of 0
-- that a throttle makes 1.
pub evaluate_cohort-caps :
    {F : Type 0} (scores : Scores F) (tenant cohort : String) (db : Db)
    → let q = evaluate_cohort scores tenant cohort db in
      (r : Option String) × (q.0 ≡ ok r)
      × Acted cohort db q.1 r
      × ((cap : ℕ) → (capped r cap ≤ cap) ⊎ ((cap ≡ 0) × (capped r cap ≡ 1)))
unfolding evaluate_cohort
evaluate_cohort-caps scores tenant cohort db =
    let (r, e, acted) =
      score-Did cohort scores tenant (cohort_sentiment scores tenant cohort db) db in
    (r, e, acted, capped_bound r)
