-- ===== src/PgStore/Refunds.antt =====
-- What a volume claim consumes at gate 5, and what `release_budget` gives back.
use open_reachout.Base.{
  ◌+◌, ◌-◌, ◌≡◌, refl, String, Bool, false, leb, ◌&&◌, Option, none, some, arith, ==_iff, ==_refl,
  if◌then◌else◌, apply_row, ◌==◌, string_eq,
}
use open_reachout.Db.{Db, Counter, ScopeType, scope_eq, tenant_month, cohort_month, mailbox_day}
use open_reachout.PgStore.{has_room, adjust_down, consume, release}

-- Is this the counter of the tenant's or of the cohort's current month?
abbrev pub charged : String → String → String → ScopeType → String → String → Bool
charged tenant cohort month tenant_month id p = (tenant == id) && (month == p)
charged tenant cohort month cohort_month id p = (cohort == id) && (month == p)
charged tenant cohort month mailbox_day id p = false

abbrev pub plus_one : Option Counter → Option Counter
plus_one = apply_row (λ (c : Counter). record c { used = c.used + 1 })

abbrev pub minus_one : Option Counter → Option Counter
minus_one = apply_row (λ (c : Counter). record c { used = c.used - 1 })

pub minus-plus : (o : Option Counter) → minus_one (plus_one o) ≡ o
minus-plus none = refl
minus-plus (some c) = ground arith

-- The result of gate 5: do both the tenant's and the cohort's month have room?
pub consume-result :
    (tenant cohort : String) (db : Db)
    → (consume tenant cohort db).0 ≡ (
        has_room (db.counters tenant_month tenant db.month)
        && has_room (db.counters cohort_month cohort db.month))
unfolding consume
consume-result tenant cohort db = ground arith

-- Is this counter below its cap?
abbrev pub below_cap : Option Counter → Bool
below_cap none = false
below_cap (some c) = leb (c.used + 1) c.cap

below_cap_lem : (o : Option Counter) → has_room o ≡ below_cap o
below_cap_lem none = refl
below_cap_lem (some c) = ground arith

consume-below_cap :
    (tenant cohort : String) (db : Db)
    → (consume tenant cohort db).0 ≡ (
        below_cap (db.counters tenant_month tenant db.month)
        && below_cap (db.counters cohort_month cohort db.month))
consume-below_cap tenant cohort db = rw (consume-result tenant cohort db) (
    rw (below_cap_lem (db.counters tenant_month tenant db.month))
      (rw (below_cap_lem (db.counters cohort_month cohort db.month)) refl))

-- The counters behind gate 5, by its result
pub consume-by_result :
    (tenant cohort : String) (db : Db) (st : ScopeType) (id p : String)
    → (consume tenant cohort db).1.counters st id p ≡ (
        if (consume tenant cohort db).0 && charged tenant cohort db.month st id p
        then plus_one (db.counters st id p)
        else db.counters st id p)
unfolding consume adjust_down
consume-by_result tenant cohort db tenant_month id p = ground (
  arith,
  ==_iff tenant id,
  ==_iff db.month p,
  ==_refl tenant,
  ==_refl db.month,
  minus-plus (db.counters tenant_month id p),
)
consume-by_result tenant cohort db cohort_month id p =
    ground (arith, ==_iff cohort id, ==_iff db.month p, ==_refl tenant, ==_refl db.month)
consume-by_result tenant cohort db mailbox_day id p = ground (arith)

-- Gate 5 passes exactly if there is a counter for the tenant's month and one for the cohort's month
-- and both have used less than their cap. It then adds one to these two; otherwise, the compensation
-- of a half-made charge included, it leaves every counter as it was.
pub consume-counters :
    (tenant cohort : String) (db : Db) (st : ScopeType) (id p : String)
    → let room =
        below_cap (db.counters tenant_month tenant db.month)
        && below_cap (db.counters cohort_month cohort db.month) in
      ((consume tenant cohort db).0 ≡ room)
      × ((consume tenant cohort db).1.counters st id p ≡ (
          if room && charged tenant cohort db.month st id p
          then plus_one (db.counters st id p)
          else db.counters st id p))
consume-counters tenant cohort db st id p = (
  consume-below_cap tenant cohort db,
  rw (consume-below_cap tenant cohort db) at (consume-by_result tenant cohort db st id p),
)

pub release-counters :
    (tenant cohort : String) (db : Db) (st : ScopeType) (id p : String)
    → (release tenant cohort db).counters st id p ≡ (
        if charged tenant cohort db.month st id p
        then minus_one (db.counters st id p)
        else db.counters st id p)
unfolding release adjust_down
release-counters tenant cohort db tenant_month id p =
    ground (arith, ==_iff tenant id, ==_iff db.month p, ==_refl tenant, ==_refl db.month)
release-counters tenant cohort db cohort_month id p =
    ground (arith, ==_iff cohort id, ==_iff db.month p, ==_refl tenant, ==_refl db.month)
release-counters tenant cohort db mailbox_day id p = ground (arith)
