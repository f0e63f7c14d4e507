-- ===== src/Forget/Ran.antt =====
-- A deletion step by step.
use open_reachout.Base.{
  ℕ, suc, ◌≡◌, refl, ap, String, List, ok, err, Result, string_eq, ℕ_eq, if◌then◌else◌, pure, after,
}
use open_reachout.Db.{Db}
use open_reachout.Canonical.{Python}
use open_reachout.Forget.{
  ForgetReceipt, erase, erase_entities, drop_suppressions, note_executed, count_of, tombstone_all,
  propagate_all, is_nil,
}
use open_reachout.Forget.Steps.{Tombstoned, tombstone_all-Tombstoned, propagate_all-jobs}

abbrev pub erased : List ℕ → Db → Db
erased ids db = if is_nil ids then db else erase_entities ids db

abbrev pub finished : ℕ → List ℕ → List String → Db → Db
finished receipt ids as' s =
    note_executed receipt ids (count_of as') (drop_suppressions as' (erased ids s))

abbrev pub receipt_of : ℕ → List ℕ → List String → ForgetReceipt
receipt_of receipt ids as' = record {
  receipt_id = receipt;
  entity_ids = ids;
  addresses_tombstoned = count_of as';
}

module _ (py : Python) (ids : List ℕ) (as' : List String) where
  -- The database between the steps of a deletion that returned.
  pub record Ran (db db' : Db) (r : ForgetReceipt) : Type 0 where
    pub s : Db
    pub tombstoned : Tombstoned py as' (record db { receipts = suc db.receipts }) s
    pub written : db' ≡ record (finished db.receipts ids as' s) { jobs = db'.jobs }
    pub receipt : r ≡ receipt_of db.receipts ids as'

  propagated :
      (receipt : ℕ) (x : Result Unit × Db) (r : ForgetReceipt) (db' : Db)
      → ◌≡◌ {A = Result ForgetReceipt × Db}
          (after x (λ _. pure (receipt_of receipt ids as')))
          (ok r, db')
      → (◌≡◌ {A = Result Unit × Db} x (ok tt, db')) × (r ≡ receipt_of receipt ids as')
  propagated receipt (ok tt, s) r db' e = (
    ap (λ (q : Result ForgetReceipt × Db). (ok tt, q.1)) e,
    cc (ap (λ (q : Result ForgetReceipt × Db). q.0) e),
  )
  propagated receipt (err x, s) r db' e = cc (ap (λ (q : Result ForgetReceipt × Db). q.0) e)

  buried_then :
      (receipt : ℕ) (x : Result Unit × Db) (r : ForgetReceipt) (db' : Db)
      → ◌≡◌ {A = Result ForgetReceipt × Db}
          (after x (λ _ s.
            after
              (propagate_all py receipt as' (finished receipt ids as' s))
              (λ _. pure (receipt_of receipt ids as'))))
          (ok r, db')
      → (s : Db) × (◌≡◌ {A = Result Unit × Db} x (ok tt, s))
        × (propagate_all py receipt as' (finished receipt ids as' s) ≡ (ok tt, db'))
        × (r ≡ receipt_of receipt ids as')
  buried_then receipt (ok tt, s) r db' e =
      let (run, same) =
        propagated receipt (propagate_all py receipt as' (finished receipt ids as' s)) r db' e in
      (s, refl, run, same)
  buried_then receipt (err x, s) r db' e = cc (ap (λ (q : Result ForgetReceipt × Db). q.0) e)

  pub erase-Ran :
      (db db' : Db) (r : ForgetReceipt) → erase py ids as' db ≡ (ok r, db') → Ran db db' r
  unfolding erase
  erase-Ran db db' r e =
      let start : Db = record db { receipts = suc db.receipts } in
      let (s, run, out, same) = buried_then db.receipts (tombstone_all py as' start) r db' e in
      record {
        s = s;
        tombstoned = tombstone_all-Tombstoned py as' start s run;
        written = propagate_all-jobs py db.receipts as' (finished db.receipts ids as' s) db' out;
        receipt = same;
      }
