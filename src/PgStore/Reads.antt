-- ===== src/PgStore/Reads.antt =====
-- What the methods of the store leave alone, and what a halted or suppressed answer means.
use open_reachout.Base.{
  ◌≡◌, refl, ◌∙◌, ap, String, Bool, true, false, Option, none, some, List, [], ◌∷◌, arith, ok,
  Result, ==_iff, if◌then◌else◌, ◌==◌, string_eq,
}
use open_reachout.Db.{Db, Mailbox, mailbox_day}
use open_reachout.Canonical.{Python, tombstone_hash}
use open_reachout.Control
use open_reachout.Control.{global_scope}
use open_reachout.Suppression.{is_suppressed, is_suppressed_hash, any_row, binds}
use open_reachout.PgStore.{
  set_counter, fresh_counter, adjust_down, consume, ensure_counters, take_mailbox, pick,
}

-- Only the counters differ.
record Counted (db db' : Db) : Type 0 where
  frame : db' ≡ record db { counters = db'.counters }

Counted-trans : {a b c : Db} → Counted a b → Counted b c → Counted a c
Counted-trans {c} h k = record {
  frame = k.frame ∙ ap (λ (x : Db). record x { counters = c.counters }) h.frame;
}

Counted-refl : (a : Db) → Counted a a
Counted-refl a = record { frame = refl }

Counted-if :
    {a : Db} (b : Bool) (x y : Db) → Counted a x → Counted a y → Counted a (if b then x else y)
Counted-if true x y hx hy = hx
Counted-if false x y hx hy = hy

ensure-Counted :
    (tenant : String) (ms : List Mailbox) (db : Db) → Counted db (ensure_counters tenant ms db)
unfolding ensure_counters
ensure-Counted tenant [] db = Counted-refl db
ensure-Counted tenant (m ∷ ms) db =
    Counted-trans
      (Counted-if (m.tenant == tenant)
        (set_counter mailbox_day m.mailbox db.today
          (fresh_counter m.daily_cap (db.counters mailbox_day m.mailbox db.today)) db)
        db (record { frame = refl }) (Counted-refl db))
      (ensure-Counted tenant ms _)

take-Counted : (o : Option Mailbox) (db : Db) → Counted db (take_mailbox o db).1
take-Counted none db = Counted-refl db
take-Counted (some m) db = record { frame = refl }

-- Picking a mailbox writes to the counters only.
pub pick-frame :
    (tenant : String) (db : Db)
    → (pick tenant db).1 ≡ record db { counters = (pick tenant db).1.counters }
unfolding pick
pick-frame tenant db =
    (Counted-trans (ensure-Counted tenant db.mailboxes db)
      (take-Counted _ (ensure_counters tenant db.mailboxes db))).frame

-- Consuming budget writes to the counters and to the audit log.
pub consume-frame :
    (tenant cohort : String) (db : Db)
    → (consume tenant cohort db).1 ≡ record db {
      counters = (consume tenant cohort db).1.counters;
      audit = (consume tenant cohort db).1.audit;
    }
unfolding consume adjust_down
consume-frame tenant cohort db = ground arith

-- No scope is halted exactly when neither the global flag nor the tenant's is set.
pub halted_scopes-nil :
    (tenant : String) (db : Db)
    → Control.halted_scopes tenant db ≡ []
    → (db.control_flags global_scope ≡ none) × (db.control_flags tenant ≡ none)
unfolding Control.halted_scopes
halted_scopes-nil tenant db h = ground (arith, ==_iff tenant global_scope)

suppressed_hash_false :
    (py : Python) (email tenant : String) (o : Option String) (db s : Db)
    → ◌≡◌ {A = Result Bool × Db} (is_suppressed_hash py email tenant o db) (ok false, s)
    → (h : String) × (o ≡ some h)
      × (any_row (binds db.now email tenant) db.suppressions ≡ false)
      × (db.tombstones h ≡ false)
suppressed_hash_false py email tenant none db s e = cc
suppressed_hash_false py email tenant (some h) db s e = (h, refl, ground arith, ground arith)

-- "Not suppressed" means that no row for the address, global or of the tenant, still binds, and that
-- the address hashes to no tombstone.
pub is_suppressed_false :
    (py : Python) (email tenant : String) (db s : Db)
    → is_suppressed py email tenant db ≡ (ok false, s)
    → (h : String) × (tombstone_hash py email ≡ some h)
      × (any_row (binds db.now email tenant) db.suppressions ≡ false)
      × (db.tombstones h ≡ false)
unfolding is_suppressed
is_suppressed_false py email tenant db s e =
    suppressed_hash_false py email tenant (tombstone_hash py email) db s e
