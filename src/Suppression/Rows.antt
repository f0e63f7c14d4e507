-- ===== src/Suppression/Rows.antt =====
-- A suppression that is written binds every later claim (invariant I-3).
use open_reachout.Base.{
  ℕ, ◌≡◌, ◌⊎◌, refl, String, Bool, true, false, Option, none, some, List, [], ◌∷◌, Result, ok,
  arith, string_eq, ==_iff, ==_refl, Bool-cases, inl, inr,
}
use open_reachout.Db.{Db, Suppression, Key, Payload, QueueName, ClaimedTouch}
use open_reachout.Queue.{enqueue, taken}
use open_reachout.Control.{global_scope}
use open_reachout.Canonical.{Python, canonicalize}
use open_reachout.Suppression.{
  same_row, upsert, binds, any_row, still_binds, suppress, suppress_canonical,
}
use open_reachout.Gatekeeper.{DraftTouch, Checks, issued, claim}
use open_reachout.PgStore.{pg_store}
use open_reachout.PgStore.Claims.{claim-IsSendable}

any_row-upsert :
    (p : Suppression → Bool) (r : Suppression) (rows : List Suppression)
    → p r ≡ true
    → any_row p (upsert r rows) ≡ true
unfolding any_row upsert
any_row-upsert p r [] h = rw h
any_row-upsert p r (s ∷ rows) h = elim (Bool-cases (same_row r.email_canonical r.scope s)) [
  | inl t ↦ rw (t, h)
  | inr f ↦ rw f (ground (arith, any_row-upsert p r rows h))
]

abbrev pub new_row : String → String → String → Option ℕ → Suppression
new_row canonical scope reason expires_at = record {
  email_canonical = canonical;
  scope = scope;
  reason = reason;
  expires_at = expires_at;
}

enqueue-rows :
    (q : QueueName) (p : Payload) (k : Option Key) (d : ℕ) (db : Db)
    → ((enqueue q p k d db).1.suppressions ≡ db.suppressions)
      × ((enqueue q p k d db).1.now ≡ db.now)
unfolding enqueue
enqueue-rows q p k d db = elim (Bool-cases (taken db k)) [
  | inl t ↦ rw t (refl, refl)
  | inr f ↦ rw f (refl, refl)
]

-- What `suppress` leaves of the table and of the clock, when it returns.
record Written (r : Suppression) (db db' : Db) : Type 0 where
  rows : db'.suppressions ≡ upsert r db.suppressions
  now : db'.now ≡ db.now

suppress-Written :
    (py : Python) (scope reason : String) (expires_at : Option ℕ) (propagate : Bool)
    (o : Option String) (canonical : String) (db db' : Db)
    → ◌≡◌ {A = Result String × Db}
        (suppress_canonical py scope reason expires_at propagate o db)
        (ok canonical, db')
    → Written (new_row canonical scope reason expires_at) db db'
unfolding enqueue
suppress-Written py scope reason expires_at propagate none canonical db db' e = cc
suppress-Written py scope reason expires_at false (some c) canonical db db' e = record {
  rows = ground (arith, e);
  now = ground (arith, e);
}
suppress-Written py scope reason expires_at true (some c) canonical db db' e = record {
  rows = ground (arith, e);
  now = ground (arith, e);
}

bound :
    (scope tenant reason canonical : String) (expires_at : Option ℕ) (now : ℕ)
    → (scope ≡ global_scope) ⊎ (scope ≡ tenant)
    → still_binds now expires_at ≡ true
    → binds now canonical tenant (new_row canonical scope reason expires_at) ≡ true
bound scope tenant reason canonical expires_at now (inl e) h =
    ground (arith, ==_refl canonical, ==_iff scope global_scope)
bound scope tenant reason canonical expires_at now (inr e) h =
    ground (arith, ==_refl canonical, ==_iff scope tenant)

-- In the database that `suppress` leaves when it has returned the canonical address, for the global
-- scope or a tenant's and without an expiry that has passed, no touch of that tenant to that address
-- can be claimed, whatever its profile and content.
pub suppress-claim :
    {C : Type 0} (py : Python) (min_gap annual_cap : ℕ) (checks : Checks C) (t : DraftTouch C)
    (email scope reason : String) (expires_at : Option ℕ) (propagate : Bool) (db db' db'' : Db)
    (c : ClaimedTouch)
    → suppress py email scope reason expires_at propagate db ≡ (ok t.email_canonical, db')
    → (scope ≡ global_scope) ⊎ (scope ≡ t.tenant)
    → still_binds db.now expires_at ≡ true
    → ¬ (claim (pg_store py min_gap annual_cap) checks t db' ≡ (ok (issued c), db''))
unfolding suppress
suppress-claim py min_gap annual_cap checks t email scope reason expires_at propagate db db' db'' c
      e which live claimed =
    let w =
      suppress-Written py scope reason expires_at propagate (canonicalize py email)
        t.email_canonical db db' e in
    let row = new_row t.email_canonical scope reason expires_at in
    let hit =
      any_row-upsert (binds db.now t.email_canonical t.tenant) row db.suppressions
        (bound scope t.tenant reason t.email_canonical expires_at db.now which live) in
    let clear : any_row (binds db'.now t.email_canonical t.tenant) db'.suppressions ≡ false =
      (claim-IsSendable py min_gap annual_cap checks t db' db'' c claimed).not_suppressed in
    cc (hit, rw (w.rows, w.now) at clear)
