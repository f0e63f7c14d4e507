-- ===== src/PgStore/Budget.antt =====
-- The counters: no claim takes one past its cap, and a refusal gives back what it had consumed.
use open_reachout.Base.{
  ℕ, ◌+◌, ◌-◌, ◌≤◌, ◌≡◌, refl, String, Bool, true, false, Option, none, some, List, [], ◌∷◌, arith,
  Bool-cases, inl, inr, if◌then◌else◌, apply_row, ◌==◌, string_eq, OnRow,
}
use open_reachout.Db.{
  Db, Touch, Counter, Mailbox, ScopeType, scope_eq, tenant_month, cohort_month, mailbox_day,
}
use open_reachout.Canonical.{Python, tombstone_hash}
use open_reachout.Suppression.{is_suppressed, is_suppressed_hash}
use open_reachout.PgStore.Mailboxes.{least_used_lem}
use open_reachout.Gatekeeper.{DraftTouch, Checks, Results, claim}
use open_reachout.Gatekeeper.Keeps.{StoreKeeps, Keeps, claim-Keeps}
use open_reachout.PgStore.{
  has_room, set_counter, bump, adjust_down, consume, release, fresh_counter, ensure_counters,
  can_send, least_used, take_mailbox, pick, persist_claim, pg_store, claim_row, is_drafted, blocked,
  address_of,
}

abbrev pub InCap : Counter → Type 0
InCap c = c.used ≤ c.cap

-- No counter is past its cap.
pub record AllInCap (db : Db) : Type 0 where
  pub at : (st : ScopeType) (id p : String) → OnRow InCap (db.counters st id p)

OnRow-choice :
    (b : Bool) (x y : Option Counter)
    → OnRow InCap x
    → OnRow InCap y
    → OnRow InCap (if b then x else y)
OnRow-choice true x y hx hy = hx
OnRow-choice false x y hx hy = hy

set_counter-AllInCap :
    (st : ScopeType) (id p : String) (c : Option Counter) (db : Db)
    → OnRow InCap c
    → AllInCap db
    → AllInCap (set_counter st id p c db)
set_counter-AllInCap st id p c db hc h = record {
  at = λ st' id' p'. OnRow-choice _ c _ hc (h.at st' id' p');
}

bumped :
    (o : Option Counter)
    → has_room o ≡ true
    → OnRow InCap (apply_row (λ (c : Counter). record c { used = c.used + 1 }) o)
bumped none h = tt
bumped (some c) h = ground arith

bump-AllInCap :
    (st : ScopeType) (id p : String) (db : Db)
    → has_room (db.counters st id p) ≡ true
    → AllInCap db
    → AllInCap (bump st id p db)
bump-AllInCap st id p db r h = set_counter-AllInCap st id p _ db (bumped (db.counters st id p) r) h

lowered :
    (o : Option Counter)
    → OnRow InCap o
    → OnRow InCap (apply_row (λ (c : Counter). record c { used = c.used - 1 }) o)
lowered none h = tt
lowered (some c) h = omega arith

adjust_down-AllInCap :
    (st : ScopeType) (id why : String) (db : Db) → AllInCap db → AllInCap (adjust_down st id why db)
unfolding adjust_down
adjust_down-AllInCap st id why db h = record {
  at =
      (set_counter-AllInCap st id db.month _ db
        (lowered (db.counters st id db.month) (h.at st id db.month)) h).at;
}

consume-AllInCap :
    (tenant cohort : String) (db : Db) → AllInCap db → AllInCap (consume tenant cohort db).1
unfolding consume
consume-AllInCap tenant cohort db h =
    elim (Bool-cases (has_room (db.counters tenant_month tenant db.month))) [
      | inr f ↦ rw f h
      | inl t ↦
          let db1 = bump tenant_month tenant db.month db in
          let h1 = bump-AllInCap tenant_month tenant db.month db t h in
          rw t (elim (Bool-cases (has_room (db1.counters cohort_month cohort db1.month))) [
            | inl u ↦ rw u (bump-AllInCap cohort_month cohort db1.month db1 u h1)
            | inr v ↦ rw v (adjust_down-AllInCap tenant_month tenant "cohort cap refusal" db1 h1)
          ])
    ]

release-AllInCap :
    (tenant cohort : String) (db : Db) → AllInCap db → AllInCap (release tenant cohort db)
unfolding release
release-AllInCap tenant cohort db h = adjust_down-AllInCap _ _ _ _ (adjust_down-AllInCap _ _ _ db h)

fresh : (cap : ℕ) (o : Option Counter) → OnRow InCap o → OnRow InCap (fresh_counter cap o)
fresh cap none h = omega arith
fresh cap (some c) h = h

ensure-AllInCap :
    (tenant : String) (ms : List Mailbox) (db : Db)
    → AllInCap db
    → AllInCap (ensure_counters tenant ms db)
unfolding ensure_counters
ensure-AllInCap tenant [] db h = h
ensure-AllInCap tenant (m ∷ ms) db h = elim (Bool-cases (m.tenant == tenant)) [
  | inl t ↦ rw t (
      ensure-AllInCap tenant ms _ (
        set_counter-AllInCap mailbox_day m.mailbox db.today _ db
          (fresh m.daily_cap _ (h.at mailbox_day m.mailbox db.today)) h))
  | inr f ↦ rw f (ensure-AllInCap tenant ms db h)
]

room_of :
    (tenant : String) (c : Option Counter) (m : Mailbox)
    → can_send tenant c m ≡ true
    → has_room c ≡ true
room_of tenant none m h = ground arith
room_of tenant (some c) m h = ground arith

take-AllInCap :
    (tenant : String) (ms : List Mailbox) (db : Db) (o : Option Mailbox)
    → least_used tenant (λ m. db.counters mailbox_day m db.today) ms ≡ o
    → AllInCap db
    → AllInCap (take_mailbox o db).1
take-AllInCap tenant ms db none e h = h
take-AllInCap tenant ms db (some m) e h =
    let (can, _) = least_used_lem tenant (λ m. db.counters mailbox_day m db.today) ms m e in
    bump-AllInCap mailbox_day m.mailbox db.today db
      (room_of tenant (db.counters mailbox_day m.mailbox db.today) m can) h

pick-AllInCap : (tenant : String) (db : Db) → AllInCap db → AllInCap (pick tenant db).1
unfolding pick
pick-AllInCap tenant db h =
    let db' = ensure_counters tenant db.mailboxes db in
    take-AllInCap tenant db'.mailboxes db' _ refl (ensure-AllInCap tenant db.mailboxes db h)

counters-claim_row :
    {C : Type 0} (t : DraftTouch C) (m : String) (rs : Results) (o : Option Touch) (db : Db)
    → (claim_row t m rs o db).1.counters ≡ db.counters
counters-claim_row t m rs none db = refl
counters-claim_row t m rs (some row) db = elim (Bool-cases (is_drafted row.status)) [
  | inr f ↦ rw f
  | inl d ↦ rw d (elim (Bool-cases (blocked db (address_of (db.prospects.rows row.prospect_id)))) [
    | inl b ↦ rw b
    | inr b ↦ rw b
  ])
]

persist-AllInCap :
    {C : Type 0} (t : DraftTouch C) (m : String) (rs : Results)
    → Keeps AllInCap (persist_claim t m rs)
unfolding persist_claim
persist-AllInCap t m rs db h = record {
  at = λ st id p. rw (counters-claim_row t m rs (db.touches.rows t.touch_id) db) (h.at st id p);
}

suppressed_hash-same :
    (py : Python) (x y : String) (o : Option String) (db : Db)
    → (is_suppressed_hash py x y o db).1 ≡ db
suppressed_hash-same py x y none db = refl
suppressed_hash-same py x y (some h) db = refl

pub is_suppressed-same : (py : Python) (x y : String) (db : Db) → (is_suppressed py x y db).1 ≡ db
unfolding is_suppressed
is_suppressed-same py x y db = suppressed_hash-same py x y (tombstone_hash py x) db

pg_store-AllInCap :
    {C : Type 0} (py : Python) (min_gap annual_cap : ℕ)
    → StoreKeeps (pg_store {C = C} py min_gap annual_cap) AllInCap
unfolding pg_store
pg_store-AllInCap py min_gap annual_cap = record {
  halted_scopes = λ x db h. h;
  is_suppressed = λ x y db h. rw (is_suppressed-same py x y db) h;
  frequency_ok = λ x y db h. h;
  sequence_continuation_ok = λ x y db h. h;
  try_consume_budget = λ x t db h. consume-AllInCap x t.cohort_id db h;
  release_budget = λ x t db h. release-AllInCap x t.cohort_id db h;
  pick_mailbox = λ x db h. pick-AllInCap x db h;
  confidence_sendable = λ x y db h. h;
  persist_claim = persist-AllInCap;
}

-- Whatever the verdict of `claim`, no counter (a tenant's or a cohort's month, a mailbox's day) ends
-- above its cap, if none was above it before.
pub claim-AllInCap :
    {C : Type 0} (py : Python) (min_gap annual_cap : ℕ) (checks : Checks C) (t : DraftTouch C)
    (db : Db)
    → AllInCap db
    → AllInCap (claim (pg_store py min_gap annual_cap) checks t db).1
claim-AllInCap py min_gap annual_cap checks t db h =
    claim-Keeps (pg_store py min_gap annual_cap) checks AllInCap
      (pg_store-AllInCap py min_gap annual_cap) t db h
