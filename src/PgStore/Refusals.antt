-- ===== src/PgStore/Refusals.antt =====
-- A refused claim leaves the monthly budgets of the database as they were.
use open_reachout.Base.{
  ℕ, ◌≡◌, ◌≢◌, refl, ap, ◌∙◌, String, Bool, true, false, ◌&&◌, Option, none, some, List, [], ◌∷◌,
  arith, ok, Result, Bool-cases, inl, inr, if◌then◌else◌, ◌==◌, string_eq,
}
use mathlib.Core.Path.{subst}
use open_reachout.Db.{
  Db, Counter, Mailbox, ScopeType, scope_eq, tenant_month, cohort_month, mailbox_day,
}
use open_reachout.Canonical.{Python}
use open_reachout.Gatekeeper.{DraftTouch, Checks, Refusal, internal, refused, claim, GateStore}
use open_reachout.Gatekeeper.Compensation.{Consumption, claim-refused}
use open_reachout.PgStore.{
  set_counter, adjust_down, consume, release, ensure_counters, take_mailbox, pick, pg_store,
}
use open_reachout.PgStore.Budget.{is_suppressed-same}
use open_reachout.PgStore.Refunds.{
  charged, plus_one, minus_one, minus-plus, consume-by_result, release-counters,
}

-- The monthly counters of two databases agree, and so does their month.
pub record SameMonths (a b : Db) : Type 0 where
  pub month : b.month ≡ a.month
  pub tenants : (id p : String) → b.counters tenant_month id p ≡ a.counters tenant_month id p
  pub cohorts : (id p : String) → b.counters cohort_month id p ≡ a.counters cohort_month id p

-- In b the two counters of one touch are one up on a, and the others agree.
record OneUp (tenant cohort : String) (a b : Db) : Type 0 where
  month : b.month ≡ a.month
  tenants :
      (id p : String)
      → b.counters tenant_month id p ≡ (
          if charged tenant cohort a.month tenant_month id p
          then plus_one (a.counters tenant_month id p)
          else a.counters tenant_month id p)
  cohorts :
      (id p : String)
      → b.counters cohort_month id p ≡ (
          if charged tenant cohort a.month cohort_month id p
          then plus_one (a.counters cohort_month id p)
          else a.counters cohort_month id p)

-- what an operation leaves alone
record Months (f : Db → Db) : Type 0 where
  same : (db : Db) → SameMonths db (f db)

SameMonths-trans : {a b c : Db} → SameMonths a b → SameMonths b c → SameMonths a c
SameMonths-trans h k = record {
  month = k.month ∙ h.month;
  tenants = λ id p. k.tenants id p ∙ h.tenants id p;
  cohorts = λ id p. k.cohorts id p ∙ h.cohorts id p;
}

OneUp-then :
    {tenant cohort : String} {a b c : Db}
    → OneUp tenant cohort a b
    → SameMonths b c
    → OneUp tenant cohort a c
OneUp-then h k = record {
  month = k.month ∙ h.month;
  tenants = λ id p. k.tenants id p ∙ h.tenants id p;
  cohorts = λ id p. k.cohorts id p ∙ h.cohorts id p;
}

SameMonths-refl : (a : Db) → SameMonths a a
SameMonths-refl a = record { month = refl; tenants = λ id p. refl; cohorts = λ id p. refl }

set_day :
    (id p : String) (c : Option Counter) (db : Db)
    → SameMonths db (set_counter mailbox_day id p c db)
set_day id p c db = record { month = refl; tenants = λ id' p'. refl; cohorts = λ id' p'. refl }

ensure-SameMonths :
    (tenant : String) (ms : List Mailbox) (db : Db) → SameMonths db (ensure_counters tenant ms db)
unfolding ensure_counters
ensure-SameMonths tenant [] db = SameMonths-refl db
ensure-SameMonths tenant (m ∷ ms) db = elim (Bool-cases (m.tenant == tenant)) [
  | inl t ↦
      rw t (SameMonths-trans (set_day m.mailbox db.today _ db) (ensure-SameMonths tenant ms _))
  | inr f ↦ rw f (ensure-SameMonths tenant ms db)
]

take-SameMonths : (o : Option Mailbox) (db : Db) → SameMonths db (take_mailbox o db).1
take-SameMonths none db = SameMonths-refl db
take-SameMonths (some m) db = set_day m.mailbox db.today _ db

pub pick-SameMonths : (tenant : String) (db : Db) → SameMonths db (pick tenant db).1
unfolding pick
pick-SameMonths tenant db =
    SameMonths-trans (ensure-SameMonths tenant db.mailboxes db)
      (take-SameMonths _ (ensure_counters tenant db.mailboxes db))

month-consume : (tenant cohort : String) (db : Db) → (consume tenant cohort db).1.month ≡ db.month
unfolding consume adjust_down
month-consume tenant cohort db = ground arith

month-release : (tenant cohort : String) (db : Db) → (release tenant cohort db).month ≡ db.month
unfolding release adjust_down
month-release tenant cohort db = refl

when_consumed :
    (tenant cohort : String) (db : Db) (st : ScopeType) (id p : String) (b : Bool)
    → (consume tenant cohort db).0 ≡ b
    → (consume tenant cohort db).1.counters st id p ≡ (
        if b && charged tenant cohort db.month st id p
        then plus_one (db.counters st id p)
        else db.counters st id p)
when_consumed tenant cohort db st id p b e = consume-by_result tenant cohort db st id p ∙ rw e

module _ (tenant cohort : String) (a : Db) where
  consumed-OneUp :
      (db : Db)
      → (consume tenant cohort db).0 ≡ true
      → SameMonths a db
      → OneUp tenant cohort a (consume tenant cohort db).1
  consumed-OneUp db e h = record {
    month = month-consume tenant cohort db ∙ h.month;
    tenants = λ id p.
        when_consumed tenant cohort db tenant_month id p true e ∙ rw (h.month, h.tenants id p);
    cohorts = λ id p.
        when_consumed tenant cohort db cohort_month id p true e ∙ rw (h.month, h.cohorts id p);
  }

  unconsumed-SameMonths :
      (db : Db)
      → (consume tenant cohort db).0 ≡ false
      → SameMonths a db
      → SameMonths a (consume tenant cohort db).1
  unconsumed-SameMonths db e h = record {
    month = month-consume tenant cohort db ∙ h.month;
    tenants = λ id p. when_consumed tenant cohort db tenant_month id p false e ∙ h.tenants id p;
    cohorts = λ id p. when_consumed tenant cohort db cohort_month id p false e ∙ h.cohorts id p;
  }

  down_again :
      (b : Bool) (o : Option Counter)
      → (if b then minus_one (if b then plus_one o else o) else (if b then plus_one o else o)) ≡ o
  down_again true o = minus-plus o
  down_again false o = refl

  released-SameMonths :
      (db : Db) → OneUp tenant cohort a db → SameMonths a (release tenant cohort db)
  released-SameMonths db h = record {
    month = month-release tenant cohort db ∙ h.month;
    tenants = λ id p.
        release-counters tenant cohort db tenant_month id p
        ∙ rw (h.month, h.tenants id p)
            (down_again (charged tenant cohort a.month tenant_month id p)
              (a.counters tenant_month id p));
    cohorts = λ id p.
        release-counters tenant cohort db cohort_month id p
        ∙ rw (h.month, h.cohorts id p)
            (down_again (charged tenant cohort a.month cohort_month id p)
              (a.counters cohort_month id p));
  }

module _ {C : Type 0} (py : Python) (min_gap annual_cap : ℕ) (checks : Checks C) (t : DraftTouch C)
    (a : Db) where
  store : GateStore Db C
  store = pg_store py min_gap annual_cap

  pair_parts :
      (x : Bool × Db) (b : Bool) (db' : Db)
      → ◌≡◌ {A = Result Bool × Db} (ok x.0, x.1) (ok b, db')
      → (x.0 ≡ b) × (x.1 ≡ db')
  pair_parts x b db' e = (ground arith, ap (λ (q : Result Bool × Db). q.1) e)

  pg-Consumption : Consumption store t (SameMonths a) (OneUp t.tenant t.cohort_id a)
  unfolding store pg_store
  pg-Consumption = record {
    halted_scopes = λ s h. h;
    is_suppressed = λ s h. rw (is_suppressed-same py t.email_canonical t.tenant s) h;
    frequency_ok = λ s h. h;
    sequence_continuation_ok = λ s h. h;
    consumed = λ s s' h e.
        let (yes', there) = pair_parts (consume t.tenant t.cohort_id s) true s' e in
        subst (OneUp t.tenant t.cohort_id a) there (consumed-OneUp t.tenant t.cohort_id a s yes' h);
    unconsumed = λ s s' h e.
        let (no', there) = pair_parts (consume t.tenant t.cohort_id s) false s' e in
        subst (SameMonths a) there (unconsumed-SameMonths t.tenant t.cohort_id a s no' h);
    released = λ s h. released-SameMonths t.tenant t.cohort_id a s h;
    pick_mailbox = λ s h. OneUp-then h (pick-SameMonths t.tenant s);
    pick_mailbox_free = λ s h. SameMonths-trans h (pick-SameMonths t.tenant s);
    confidence_sendable = λ s h. h;
    confidence_sendable_free = λ s h. h;
  }

  -- When `claim` refuses a touch, for any reason but INTERNAL, every monthly counter of the database,
  -- of tenants and of cohorts, is what it was before: what gate 5 consumed has been released.
  pub claim-refunds :
      (b : Db) (r : Refusal)
      → claim (pg_store py min_gap annual_cap) checks t a ≡ (ok (refused r), b)
      → r.reason ≢ internal
      → SameMonths a b
  unfolding store
  claim-refunds b r e n =
      claim-refused store checks t (SameMonths a) (OneUp t.tenant t.cohort_id a) pg-Consumption a b
        r e n (SameMonths-refl a)
