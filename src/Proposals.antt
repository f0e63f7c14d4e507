-- ===== src/Proposals.antt =====
-- Proposals and their approval (src/open_reachout/core/proposals.py). `list_open` returns the rows in
-- the order of their creation, which is that of their ids; an empty dedupe key is no key.
pub mod Memory
pub mod Authority
pub mod Caps
use open_reachout.Base.{
  ℕ, zero, suc, ◌+◌, ◌*◌, String, Bool, true, false, not, ◌&&◌, ◌||◌, Option, none, some, List, [],
  ◌∷◌, ◌++◌, Exec, pure, raise, modify, ◌>>=◌, ◌>>◌, after, permission_error, key_error, ℕ_eq,
  string_eq, ◌==◌, if◌then◌else◌, ltb, contains, row_is, apply_row, insert, update, first, is_empty,
  starts_with,
}
use open_reachout.Base.Int.{ℤ, neg, shift}
use open_reachout.Db.{
  Db, Counter, Proposal, ProposalPayload, ProposalStatus, waiting, approved, declined, cohort_month,
  Audit,
}
use open_reachout.Control.{human_actor_prefix}
use open_reachout.PgStore.{set_counter}

abbrev pub decline_memory_days : ℕ
decline_memory_days = 90

abbrev pub auto_applicable : List String
auto_applicable = "budget_shift" ∷ "rebalance" ∷ []

abbrev pub is_waiting : Proposal → Bool
is_waiting p = elim p.status [ waiting ↦ true | _ ↦ false ]

-- resolved_at > now() - 90 days, where a NULL compares to nothing
abbrev pub resolved_lately : ℕ → Option ℕ → Bool
resolved_lately now none = false
resolved_lately now (some at) = ltb now (at + decline_memory_days * 86400)

abbrev pub declined_lately : ℕ → Proposal → Bool
declined_lately now p = elim p.status [ declined ↦ resolved_lately now p.resolved_at | _ ↦ false ]

abbrev pub has_key : String → Option String → Bool
has_key k none = false
has_key k (some j) = j == k

-- An open duplicate, or a decline within the memory window
abbrev pub blocks : ℕ → String → String → Proposal → Bool
blocks now tenant k p =
    (p.tenant == tenant) && (has_key k p.dedupe_key && (is_waiting p || declined_lately now p))

abbrev pub is_some : Option ℕ → Bool
is_some none = false
is_some (some _) = true

unfoldable pub suppressed : String → Option String → Db → Bool
suppressed tenant none db = false
suppressed tenant (some k) db =
    not (is_empty k)
    && is_some
        (first (λ i. row_is (blocks db.now tenant k) (db.proposals.rows i)) db.proposals.next)

abbrev pub new_proposal : Db → String → String → String → ProposalPayload → Option String → Proposal
new_proposal db tenant kind summary payload key = record {
  tenant = tenant;
  kind = kind;
  summary = summary;
  payload = payload;
  status = waiting;
  dedupe_key = key;
  created_at = db.now;
  resolved_at = none;
  resolved_by = none;
}

unfoldable pub propose :
    String → String → String → ProposalPayload → Option String → Exec Db (Option ℕ)
propose tenant kind summary payload key db =
    if suppressed tenant key db
    then pure none db
    else pure (some db.proposals.next) (record db {
      proposals = insert (new_proposal db tenant kind summary payload key) db.proposals;
    })

abbrev pub resolved : ℕ → String → ProposalStatus → Proposal → Proposal
resolved now actor status p = record p {
  status = status;
  resolved_at = some now;
  resolved_by = some actor;
}

abbrev pub settle : ℕ → String → ProposalStatus → String → Db → Db
settle i actor status event db = record db {
  proposals = update i (resolved db.now actor status) db.proposals;
  audit = db.audit ++ Audit.proposal_event i event actor ∷ [];
}

unfoldable pub decline : ℕ → String → Exec Db Bool
decline i actor db =
    if starts_with human_actor_prefix actor
    then (if row_is is_waiting (db.proposals.rows i)
        then pure true (settle i actor declined "declined" db)
        else pure false db)
    else raise permission_error db

-- UPDATE counters SET cap = ... for the cohort and the month
abbrev pub set_cap : String → (ℕ → ℕ) → Db → Db
set_cap cohort f db =
    set_counter cohort_month cohort db.month
      (apply_row (λ (c : Counter). record c { cap = f c.cap })
        (db.counters cohort_month cohort db.month))
      db

-- payload[key]
abbrev pub field : {A : Type 0} → Option A → Exec Db A
field none = raise key_error
field (some x) = pure x

abbrev pub shift_caps : ProposalPayload → Exec Db (Unit {0})
shift_caps payload = do
  delta ← field payload.amount
  from_cohort ← field payload.from_cohort
  to_cohort ← field payload.to_cohort
  modify (set_cap from_cohort (λ cap. shift cap (neg delta)))
  modify (set_cap to_cohort (λ cap. shift cap delta))

abbrev pub pause_cohort : ProposalPayload → Exec Db (Unit {0})
pause_cohort payload = do cohort ← field payload.cohort; modify (set_cap cohort (λ cap. 0))

abbrev pub pauses : ProposalPayload → Bool
pauses payload = has_key "pause" payload.action

unfoldable pub apply_delta : String → ProposalPayload → Exec Db (Unit {0})
apply_delta kind payload =
    if kind == "rebalance"
    then (if pauses payload then pause_cohort payload else shift_caps payload)
    else (if kind == "budget_shift" then shift_caps payload else pure tt)

unfoldable pub approve_open : ℕ → String → Bool → Proposal → Exec Db Bool
unfolding apply_delta
approve_open i actor auto p =
    if auto && not (contains auto_applicable p.kind)
    then raise permission_error
    else (do apply_delta p.kind p.payload; modify (settle i actor approved "approved"); pure true)

abbrev pub approve_row : ℕ → String → Bool → Option Proposal → Exec Db Bool
approve_row i actor auto none = pure false
approve_row i actor auto (some p) = if is_waiting p then approve_open i actor auto p else pure false

unfoldable pub approve : ℕ → String → Bool → Exec Db Bool
unfolding apply_delta approve_open
approve i actor auto db =
    if not auto && not (starts_with human_actor_prefix actor)
    then raise permission_error db
    else approve_row i actor auto (db.proposals.rows i) db

-- list_open of a tenant, in order
abbrev pub reviewable : String → Proposal → Bool
reviewable tenant p = is_waiting p && ((p.tenant == tenant) && contains auto_applicable p.kind)

unfoldable pub open_below : String → Db → ℕ → List ℕ
open_below tenant db zero = []
open_below tenant db (suc n) =
    open_below tenant db n
    ++ (if row_is (reviewable tenant) (db.proposals.rows n) then n ∷ [] else [])

unfoldable pub approve_each : List ℕ → Exec Db (List ℕ)
unfolding approve
approve_each [] = pure []
approve_each (i ∷ ids) = do
  done ← approve i "system:autonomy" true
  rest ← approve_each ids
  pure (if done then i ∷ rest else rest)

unfoldable pub auto_review : String → String → Exec Db (List ℕ)
unfolding approve_each open_below
auto_review tenant cohort_launch db =
    if cohort_launch == "auto_within_budget"
    then approve_each (open_below tenant db db.proposals.next) db
    else pure [] db
