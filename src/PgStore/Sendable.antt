-- ===== src/PgStore/Sendable.antt =====
-- What makes a touch sendable in a database, and what consuming the budget and picking a mailbox leave
-- alone of what that asks for.
use open_reachout.Base.{
  ℕ, ◌≡◌, refl, ◌∙◌, ap, String, Bool, true, false, ◌&&◌, Option, none, some, List, [], Table, ok,
}
use open_reachout.Db.{
  Db, Prospect, Suppression, Touch, ClaimedTouch, drafted, tenant_month, cohort_month,
}
use open_reachout.Canonical.{Python, tombstone_hash}
use open_reachout.Control.{global_scope}
use open_reachout.Suppression.{any_row, binds}
use open_reachout.Gatekeeper.{
  DraftTouch, Checks, GateProfile, cold, reply, followup, is_volume, Results,
}
use open_reachout.PgStore.{
  may_contact, may_continue, has_room, consume, pick, sendable, blocked, address_of, write_claim,
}
use open_reachout.PgStore.Reads.{pick-frame, consume-frame}

-- The entity's frequency, as each profile asks for it.
abbrev pub MayContact : {C : Type 0} → ℕ → ℕ → DraftTouch C → GateProfile → Db → Type 0
MayContact min_gap annual_cap t cold db =
    may_contact db.now min_gap annual_cap (db.entities.rows t.entity_id) ≡ true
MayContact min_gap annual_cap t followup db =
    may_continue db annual_cap t.prospect_id (db.entities.rows t.entity_id) ≡ true
MayContact min_gap annual_cap t reply db = Unit

abbrev pub HasBudget : {C : Type 0} → DraftTouch C → Bool → Db → Type 0
HasBudget t true db =
    (has_room (db.counters tenant_month t.tenant db.month)
      && has_room (db.counters cohort_month t.cohort_id db.month))
    ≡ true
HasBudget t false db = Unit

-- The database after gate 5.
abbrev pub charge : {C : Type 0} → DraftTouch C → Bool → Db → Db
charge t true db = (consume t.tenant t.cohort_id db).1
charge t false db = db

-- The touch t may be sent from the database db, and db' is what the claim leaves.
pub record IsSendable {C : Type 0} (py : Python) (min_gap annual_cap : ℕ) (checks : Checks C)
    (t : DraftTouch C) (db : Db) (c : ClaimedTouch) (db' : Db) : Type 0 where
  pub not_halted : db.control_flags global_scope ≡ none
  pub tenant_not_halted : db.control_flags t.tenant ≡ none
  pub hash_bound : checks.content_hash t.draft ≡ t.stored_content_hash
  pub no_findings : checks.validate t.draft t.validator_ctx ≡ ok []
  pub grounded : t.groundedness_passed_hash ≡ some t.stored_content_hash
  pub not_suppressed : any_row (binds db.now t.email_canonical t.tenant) db.suppressions ≡ false
  pub hash : String
  pub hashed : tombstone_hash py t.email_canonical ≡ some hash
  pub not_forgotten : db.tombstones hash ≡ false
  pub may_contact_entity : MayContact min_gap annual_cap t t.profile db
  pub has_budget : HasBudget t (is_volume t.profile) db
  pub verified : sendable t.email_canonical t.tenant db ≡ true
  pub touch : Touch
  pub at : db.touches.rows t.touch_id ≡ some touch
  pub was_drafted : touch.status ≡ drafted
  pub not_blocked : blocked db (address_of (db.prospects.rows touch.prospect_id)) ≡ false
  pub results : Results
  pub picked : (pick t.tenant (charge t (is_volume t.profile) db)).0 ≡ some c.mailbox
  pub names_touch : c.touch_id ≡ t.touch_id
  pub names_hash : c.content_sha256 ≡ t.stored_content_hash
  pub names_recipient : c.recipient ≡ t.email_canonical
  pub written :
      db' ≡ write_claim t c.mailbox results (pick t.tenant (charge t (is_volume t.profile) db)).1

-- The tables that gates 7 and 8 read are those of the first state.
pub record SameTables (a b : Db) : Type 0 where
  pub now : b.now ≡ a.now
  pub touches : b.touches ≡ a.touches
  pub prospects : b.prospects ≡ a.prospects
  pub suppressions : b.suppressions ≡ a.suppressions

pub SameTables-trans : {a b c : Db} → SameTables a b → SameTables b c → SameTables a c
SameTables-trans h k = record {
  now = k.now ∙ h.now;
  touches = k.touches ∙ h.touches;
  prospects = k.prospects ∙ h.prospects;
  suppressions = k.suppressions ∙ h.suppressions;
}

pub charge-SameTables :
    {C : Type 0} (t : DraftTouch C) (v : Bool) (db : Db) → SameTables db (charge t v db)
charge-SameTables t true db =
    let e = consume-frame t.tenant t.cohort_id db in
    record {
      now = ap (λ (x : Db). x.now) e;
      touches = ap (λ (x : Db). x.touches) e;
      prospects = ap (λ (x : Db). x.prospects) e;
      suppressions = ap (λ (x : Db). x.suppressions) e;
    }
charge-SameTables t false db = record {
  now = refl;
  touches = refl;
  prospects = refl;
  suppressions = refl;
}

pub pick-SameTables : (tenant : String) (db : Db) → SameTables db (pick tenant db).1
pick-SameTables tenant db =
    let e = pick-frame tenant db in
    record {
      now = ap (λ (x : Db). x.now) e;
      touches = ap (λ (x : Db). x.touches) e;
      prospects = ap (λ (x : Db). x.prospects) e;
      suppressions = ap (λ (x : Db). x.suppressions) e;
    }

pub sendable-same :
    (email tenant : String) (a b : Db)
    → SameTables a b
    → sendable email tenant b ≡ sendable email tenant a
unfolding sendable
sendable-same email tenant a b h =
    ap (λ (p : Table Prospect). sendable email tenant (record a { prospects = p })) h.prospects

pub blocked-same : (o : Option String) (a b : Db) → SameTables a b → blocked b o ≡ blocked a o
blocked-same o a b h =
    ap (λ (rows : List Suppression). blocked (record b { suppressions = rows }) o) h.suppressions
    ∙ ap (λ (n : ℕ). blocked (record a { now = n }) o) h.now
