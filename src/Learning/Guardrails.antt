-- ===== src/Learning/Guardrails.antt =====
-- What an observation of a bounce, a complaint or an unsubscribe does to its variant.
use open_reachout.Base.{
  ◌*◌, ◌≡◌, refl, String, Bool, not, ◌&&◌, ◌||◌, Option, some, arith, string_eq, ==_refl, ltb,
}
use open_reachout.Db.{Db, VariantStats}
use open_reachout.Learning.{
  Guardrail, observe, upsert, stats_or_cold, guardrail_breaches, is_nil, pause_on, pause_loaded,
  record_guardrail,
}

abbrev breaches : VariantStats → Bool
breaches s = not (is_nil (guardrail_breaches s))

-- The limits as one test.
abbrev pub exceeds : VariantStats → Bool
exceeds s =
    not (ltb s.trials 10)
    && (ltb (2 * s.trials) (1000 * s.complaints)
        || (ltb (20 * s.trials) (1000 * s.unsubs) || ltb (50 * s.trials) (1000 * s.bounces)))

exceeds_lem : (s : VariantStats) → is_nil (guardrail_breaches s) ≡ not (exceeds s)
unfolding guardrail_breaches
exceeds_lem s = ground arith

pause_on-row :
    (tenant variant : String) (s : VariantStats) (db : Db)
    → db.variant_stats tenant variant ≡ some s
    → (pause_on tenant variant s db).1.variant_stats tenant variant
      ≡ some (record s { paused = s.paused || exceeds s })
pause_on-row tenant variant s db at =
    rw (exceeds_lem s) (ground (arith, at, ==_refl tenant, ==_refl variant))

loaded-row :
    (tenant variant : String) (s : VariantStats) (db : Db) (o : Option VariantStats)
    → db.variant_stats tenant variant ≡ o
    → o ≡ some s
    → (pause_loaded tenant variant o db).1.variant_stats tenant variant
      ≡ some (record s { paused = s.paused || exceeds s })
loaded-row tenant variant s db o at e = rw e (pause_on-row tenant variant s db (rw e at at))

-- After an observation the variant's row is what it was (all zero, if there was none) with the one
-- counter up by one, and paused exactly if it was so before or if, after at least ten trials, its
-- complaints are above 0.2 %, its unsubscribes above 2 % or its bounces above 5 % of the trials.
pub record_guardrail-row :
    (tenant variant : String) (kind : Guardrail) (db : Db)
    → let seen = observe kind (stats_or_cold (db.variant_stats tenant variant)) in
      (record_guardrail tenant variant kind db).1.variant_stats tenant variant
      ≡ some (record seen { paused = seen.paused || exceeds seen })
unfolding record_guardrail
record_guardrail-row tenant variant kind db =
    let seen = observe kind (stats_or_cold (db.variant_stats tenant variant)) in
    let db' = upsert tenant variant (observe kind) db in
    loaded-row tenant variant seen db' (db'.variant_stats tenant variant) refl
      (rw (==_refl tenant, ==_refl variant))
