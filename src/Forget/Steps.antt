-- ===== src/Forget/Steps.antt =====
-- What the steps of a deletion leave behind (src/open_reachout/core/forget.py).
use mathlib.Core.Path.{subst}
use open_reachout.Base.{
  ℕ, ◌≡◌, inl, inr, refl, sym, ap, ◌∙◌, String, true, Option, none, some, List, [], ◌∷◌, ok, Result,
  string_eq, ℕ_eq, ◌==◌, ==_iff, ==_refl, Bool-cases, contains, after_returns, modify, ◌>>=◌, ◌>>◌,
}
use open_reachout.Db.{Db, Key, Payload, QueueName}
use open_reachout.Queue.{enqueue, taken}
use open_reachout.Canonical.{Python, tombstone_hash}
use open_reachout.Forget.{put_tombstone, hashed, tombstone_all, propagate_all}

-- The address has a tombstone.
abbrev pub Buried : Python → String → Db → Type 0
Buried py a db = (h : String) × (tombstone_hash py a ≡ some h) × (db.tombstones h ≡ true)

module _ (py : Python) where
  pub record Tombstoned (as' : List String) (db db' : Db) : Type 0 where
    pub frame : db' ≡ record db { tombstones = db'.tombstones }
    pub kept : (h : String) → db.tombstones h ≡ true → db'.tombstones h ≡ true
    pub buried : (a : String) → contains as' a ≡ true → Buried py a db'

  put-kept :
      (h k : String) (db : Db)
      → db.tombstones k ≡ true
      → (put_tombstone py h db).tombstones k ≡ true
  put-kept h k db e = elim (Bool-cases (h == k)) [ inl t ↦ rw t | inr f ↦ rw f e ]

  put-there : (h : String) (db : Db) → (put_tombstone py h db).tombstones h ≡ true
  put-there h db = rw (==_refl h)

  one_more :
      (a h : String) (rest : List String) (db db' : Db)
      → tombstone_hash py a ≡ some h
      → Tombstoned rest (put_tombstone py h db) db'
      → Tombstoned (a ∷ rest) db db'
  one_more a h rest db db' e r = record {
    frame = r.frame;
    kept = λ k t. r.kept k (put-kept h k db t);
    buried = λ b c. elim (Bool-cases (a == b)) [
      | inl t ↦ (h, ap (tombstone_hash py) (sym ((==_iff a b).0 t)) ∙ e, r.kept h (put-there h db))
      | inr f ↦ r.buried b (rw f at c)
    ];
  }

  first_hashed :
      (a : String) (rest : List String) (o : Option String) (db db' : Db)
      → tombstone_hash py a ≡ o
      → ◌≡◌ {A = Result Unit × Db}
          ((hashed py o >>= λ h. modify (put_tombstone py h) >> tombstone_all py rest) db)
          (ok tt, db')
      → ((s : Db) → tombstone_all py rest s ≡ (ok tt, db') → Tombstoned rest s db')
      → Tombstoned (a ∷ rest) db db'
  first_hashed a rest none db db' is e ih = cc
  first_hashed a rest (some h) db db' is e ih =
      one_more a h rest db db' is (ih (put_tombstone py h db) e)

  pub tombstone_all-Tombstoned :
      (as' : List String) (db db' : Db)
      → tombstone_all py as' db ≡ (ok tt, db')
      → Tombstoned as' db db'
  unfolding tombstone_all
  tombstone_all-Tombstoned [] db db' e =
      let same : db ≡ db' = ap (λ (q : Result Unit × Db). q.1) e in
      subst (Tombstoned [] db) same (record { frame = refl; kept = λ h t. t; buried = λ a c. cc })
  tombstone_all-Tombstoned (a ∷ rest) db db' e =
      first_hashed a rest (tombstone_hash py a) db db' refl e
        (λ s. tombstone_all-Tombstoned rest s db')

  enqueue-jobs :
      (q : QueueName) (p : Payload) (k : Option Key) (d : ℕ) (db : Db)
      → (enqueue q p k d db).1 ≡ record db { jobs = (enqueue q p k d db).1.jobs }
  unfolding enqueue
  enqueue-jobs q p k d db = elim (Bool-cases (taken db k)) [ inl t ↦ rw t | inr f ↦ rw f ]

  abbrev JobsOnly : Db → Db → Type 0
  JobsOnly db db' = db' ≡ record db { jobs = db'.jobs }

  JobsOnly-trans : (a b c : Db) → JobsOnly a b → JobsOnly b c → JobsOnly a c
  JobsOnly-trans a b c h k = k ∙ ap (λ (x : Db). record x { jobs = c.jobs }) h

  queued_next :
      (receipt : ℕ) (a : String) (rest : List String) (o : Option String) (db db' : Db)
      → ◌≡◌ {A = Result Unit × Db}
          ((hashed py o >>= λ h.
              enqueue QueueName.control (Payload.delete_lead a receipt) (some (Key.forget h)) 0
              >> propagate_all py receipt rest)
            db)
          (ok tt, db')
      → ((s : Db) → propagate_all py receipt rest s ≡ (ok tt, db') → JobsOnly s db')
      → JobsOnly db db'
  queued_next receipt a rest none db db' e ih = cc
  queued_next receipt a rest (some h) db db' e ih =
      let step =
        enqueue QueueName.control (Payload.delete_lead a receipt) (some (Key.forget h)) 0 in
      let (x, s, run, out) =
        after_returns (step db) (λ _. propagate_all py receipt rest) tt db' e in
      JobsOnly-trans db s db' (moved_to s x run) (ih s out)
    where
      moved_to :
          (s : Db) (x : Option ℕ)
          → enqueue QueueName.control (Payload.delete_lead a receipt) (some (Key.forget h)) 0 db
            ≡ (ok x, s)
          → JobsOnly db s
      moved_to s x run = subst (JobsOnly db) (ap (λ (q : Result (Option ℕ) × Db). q.1) run) (
          enqueue-jobs QueueName.control (Payload.delete_lead a receipt) (some (Key.forget h)) 0 db)

  pub propagate_all-jobs :
      (receipt : ℕ) (as' : List String) (db db' : Db)
      → propagate_all py receipt as' db ≡ (ok tt, db')
      → db' ≡ record db { jobs = db'.jobs }
  unfolding propagate_all
  propagate_all-jobs receipt [] db db' e =
      subst (JobsOnly db) (ap (λ (q : Result Unit × Db). q.1) e) refl
  propagate_all-jobs receipt (a ∷ rest) db db' e =
      queued_next receipt a rest (tombstone_hash py a) db db' e
        (λ s. propagate_all-jobs receipt rest s db')
