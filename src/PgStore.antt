-- ===== src/PgStore.antt =====
-- The storage of the gates over one open transaction (PgGateStore of
-- src/open_reachout/core/store_pg.py, with the triggers of src/open_reachout/db/schema.sql).
pub mod Reads
pub mod Budget
pub mod Mailboxes
pub mod Refunds
pub mod Refusals
pub mod Sendable
pub mod Claims
use open_reachout.Base.{
  ℕ, suc, ◌+◌, ◌-◌, ◌*◌, ◌/◌, ◌≡◌, String, Bool, true, false, not, ◌&&◌, ◌||◌, Option, none, some,
  List, [], ◌∷◌, ◌++◌, Exec, pure, raise, modify, gets, ◌>>=◌, ◌>>◌, runtime_error, ℕ_eq, string_eq,
  ◌==◌, if◌then◌else◌, ltb, leb, set, first, update, row_is, apply_row,
}
use open_reachout.Db.{
  Db, Touch, Prospect, Entity, Counter, Mailbox, ScopeType, scope_eq, tenant_month, cohort_month,
  mailbox_day, Audit, TouchStatus, drafted, claimed, Suppression,
}
use open_reachout.Control
use open_reachout.Suppression.{is_suppressed, any_row, still_binds}
use open_reachout.Canonical.{Python}
use open_reachout.Gatekeeper.{DraftTouch, GateStore, Results, is_volume}

-- -- gates 4 and 4f: the entity's frequency

-- `(now - last).days < min_gap`, for a `last` in the future too, where the days are negative
abbrev pub too_recent : ℕ → ℕ → Option ℕ → Bool
too_recent now min_gap none = false
too_recent now min_gap (some last) = ltb now last || ltb ((now - last) / 86400) min_gap

abbrev pub has_sequence : Option ℕ → Bool
has_sequence none = false
has_sequence (some _) = true

abbrev pub may_contact : ℕ → ℕ → ℕ → Option Entity → Bool
may_contact now min_gap annual_cap none = false
may_contact now min_gap annual_cap (some e) =
    not (has_sequence e.active_sequence_touch_id)
    && (not (leb annual_cap e.touches_12mo)
        && not (too_recent now min_gap e.last_campaign_contact_at))

-- LEFT JOIN touches tc ON tc.id = e.active_sequence_touch_id
abbrev pub touch_prospect : Option Touch → Option ℕ
touch_prospect none = none
touch_prospect (some t) = some t.prospect_id

abbrev pub active_prospect : Db → Option ℕ → Option ℕ
active_prospect db none = none
active_prospect db (some i) = touch_prospect (db.touches.rows i)

abbrev pub is_this : ℕ → Option ℕ → Bool
is_this p none = false
is_this p (some q) = q == p

abbrev pub may_continue : Db → ℕ → ℕ → Option Entity → Bool
may_continue db annual_cap prospect_id none = false
may_continue db annual_cap prospect_id (some e) =
    is_this prospect_id (active_prospect db e.active_sequence_touch_id)
    && ltb e.touches_12mo annual_cap

-- -- gate 5: the counters

abbrev pub has_room : Option Counter → Bool
has_room none = false
has_room (some c) = ltb c.used c.cap

abbrev pub set_counter : ScopeType → String → String → Option Counter → Db → Db
set_counter st id period c db = record db {
  counters = λ st' id' p'.
      if (st == st') && ((id == id') && (period == p')) then c else db.counters st' id' p';
}

-- UPDATE counters SET used = used + 1
abbrev pub bump : ScopeType → String → String → Db → Db
bump st id period db =
    set_counter st id period
      (apply_row (λ (c : Counter). record c { used = c.used + 1 }) (db.counters st id period)) db

-- _adjust with delta -1: GREATEST(used - 1, 0), and an audit row
unfoldable pub adjust_down : ScopeType → String → String → Db → Db
adjust_down st id why db =
    let db' =
      set_counter st id db.month
        (apply_row (λ (c : Counter). record c { used = c.used - 1 }) (db.counters st id db.month))
        db in
    record db' { audit = db'.audit ++ Audit.counter_adjusted st id why ∷ [] }

-- the two rounds of the loop in `try_consume_budget`
unfoldable pub consume : String → String → Db → Bool × Db
unfolding adjust_down
consume tenant cohort db =
    if has_room (db.counters tenant_month tenant db.month)
    then (let db1 = bump tenant_month tenant db.month db in
        if has_room (db1.counters cohort_month cohort db1.month)
        then (true, bump cohort_month cohort db1.month db1)
        else (false, adjust_down tenant_month tenant "cohort cap refusal" db1))
    else (false, db)

unfoldable pub release : String → String → Db → Db
unfolding adjust_down
release tenant cohort db =
    adjust_down cohort_month cohort "downstream refusal"
      (adjust_down tenant_month tenant "downstream refusal" db)

-- -- gate 6: the mailboxes

abbrev pub fresh_counter : ℕ → Option Counter → Option Counter
fresh_counter daily_cap none = some (record { used = 0; cap = daily_cap })
fresh_counter daily_cap (some c) = some c

-- INSERT INTO counters ... SELECT ... ON CONFLICT DO NOTHING
unfoldable pub ensure_counters : String → List Mailbox → Db → Db
ensure_counters tenant [] db = db
ensure_counters tenant (m ∷ ms) db = ensure_counters tenant ms (
    if m.tenant == tenant
    then set_counter mailbox_day m.mailbox db.today
        (fresh_counter m.daily_cap (db.counters mailbox_day m.mailbox db.today)) db
    else db)

abbrev pub can_send : String → Option Counter → Mailbox → Bool
can_send tenant c m = (m.tenant == tenant) && (m.warmup_complete && has_room c)

abbrev pub used_of : Option Counter → ℕ
used_of none = 0
used_of (some c) = c.used

abbrev pub less_used : (String → Option Counter) → Mailbox → Option Mailbox → Option Mailbox
less_used counter m none = some m
less_used counter m (some best) =
    if leb (used_of (counter m.mailbox)) (used_of (counter best.mailbox)) then some m else some best

-- ORDER BY c.used ASC LIMIT 1; of equals, the first in the table
unfoldable pub least_used : String → (String → Option Counter) → List Mailbox → Option Mailbox
least_used tenant counter [] = none
least_used tenant counter (m ∷ ms) =
    let best = least_used tenant counter ms in
    if can_send tenant (counter m.mailbox) m then less_used counter m best else best

abbrev pub take_mailbox : Option Mailbox → Db → Option String × Db
take_mailbox none db = (none, db)
take_mailbox (some m) db = (some m.mailbox, bump mailbox_day m.mailbox db.today db)

unfoldable pub pick : String → Db → Option String × Db
unfolding ensure_counters least_used
pick tenant db =
    let db' = ensure_counters tenant db.mailboxes db in
    take_mailbox (least_used tenant (λ m. db'.counters mailbox_day m db'.today) db'.mailboxes) db'

-- -- gate 7: is there a prospect of the tenant with this address, verified?

abbrev pub opt_is : String → Option String → Bool
opt_is s none = false
opt_is s (some r) = r == s

abbrev pub is_verified : String → String → Prospect → Bool
is_verified email tenant p =
    opt_is email p.email_canonical && ((p.tenant == tenant) && p.email_verified)

unfoldable pub sendable : String → String → Db → Bool
sendable email tenant db =
    elim (first (λ i. row_is (is_verified email tenant) (db.prospects.rows i)) db.prospects.next) [
      | none ↦ false
      | some _ ↦ true
    ]

-- -- gate 8: persist

abbrev pub is_drafted : TouchStatus → Bool
is_drafted drafted = true
is_drafted _ = false

abbrev pub address_of : Option Prospect → Option String
address_of none = none
address_of (some p) = p.email_canonical

-- the trigger reject_suppressed_touch: a row for the address in any scope that has not expired
abbrev pub any_scope : ℕ → String → Suppression → Bool
any_scope now email r = (r.email_canonical == email) && still_binds now r.expires_at

abbrev pub blocked : Db → Option String → Bool
blocked db none = false
blocked db (some email) = any_row (any_scope db.now email) db.suppressions

abbrev pub mark_claimed : ℕ → String → Touch → Touch
mark_claimed now m t = record t { status = claimed; claimed_at = some now; mailbox = some m }

abbrev pub mark_contacted : ℕ → ℕ → Entity → Entity
mark_contacted now touch_id e = record e {
  active_sequence_touch_id = some touch_id;
  last_campaign_contact_at = some now;
  touches_12mo = e.touches_12mo + 1;
}

abbrev pub write_claim : {C : Type 0} → DraftTouch C → String → Results → Db → Db
write_claim t m results db = record db {
  touches = update t.touch_id (mark_claimed db.now m) db.touches;
  entities =
      if is_volume t.profile
      then update t.entity_id (mark_contacted db.now t.touch_id) db.entities
      else db.entities;
  gate_results = set t.touch_id results db.gate_results;
  audit = db.audit ++ Audit.touch_event t.touch_id "claimed" "system:gatekeeper" ∷ [];
}

abbrev pub claim_row :
    {C : Type 0} → DraftTouch C → String → Results → Option Touch → Exec Db (Unit {0})
claim_row t m results none db = raise (runtime_error "not in 'drafted' state") db
claim_row t m results (some row) db =
    if is_drafted row.status
    then (if blocked db (address_of (db.prospects.rows row.prospect_id))
        then raise (runtime_error "suppressed address (invariant I-3)") db
        else pure tt (write_claim t m results db))
    else raise (runtime_error "not in 'drafted' state") db

unfoldable pub persist_claim : {C : Type 0} → DraftTouch C → String → Results → Exec Db (Unit {0})
persist_claim t m results db = claim_row t m results (db.touches.rows t.touch_id) db

-- The protocol's methods, over the database: the two parameters of the constructor come first.
unfoldable pub pg_store : {C : Type 0} → Python → ℕ → ℕ → GateStore Db C
unfolding persist_claim consume release pick sendable
pg_store py min_gap_days annual_cap = record {
  halted_scopes = λ tenant. gets (Control.halted_scopes tenant);
  is_suppressed = is_suppressed py;
  frequency_ok = λ entity_id tenant.
      gets (λ db. may_contact db.now min_gap_days annual_cap (db.entities.rows entity_id));
  sequence_continuation_ok = λ entity_id prospect_id.
      gets (λ db. may_continue db annual_cap prospect_id (db.entities.rows entity_id));
  try_consume_budget =
      λ tenant t db. let (fine, db') = consume tenant t.cohort_id db in pure fine db';
  release_budget = λ tenant t. modify (release tenant t.cohort_id);
  pick_mailbox = λ tenant db. let (m, db') = pick tenant db in pure m db';
  confidence_sendable = λ email tenant. gets (sendable email tenant);
  persist_claim = persist_claim;
}
