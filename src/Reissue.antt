-- ===== src/Reissue.antt =====
-- Dispatch retries: `reissue` of src/open_reachout/core/gatekeeper.py over `load_claimed` of
-- src/open_reachout/core/store_pg.py, which rebuilds the proof of a claim and checks the absolute gates
-- again.
pub mod Reissued
use open_reachout.Base.{
  ℕ, ◌≡◌, refl, sym, ap, String, Bool, true, false, Option, none, some, List, [], ◌∷◌, Exec, Result,
  ok, err, pure, after, ◌>>=◌, ◌>>◌, if◌then◌else◌, Bool-cases, inl, inr, after_returns, arith,
}
use open_reachout.Db.{Db, Touch, TouchStatus, claimed, Prospect, ClaimedTouch}
use open_reachout.Control
use open_reachout.Control.{global_scope}
use open_reachout.Canonical.{Python, tombstone_hash}
use open_reachout.Suppression.{is_suppressed, any_row, binds}
use open_reachout.Gatekeeper.{Verdict, issued, refused, Refusal, validation, internal, gate, repr}
use open_reachout.PgStore.Reads.{halted_scopes-nil, is_suppressed_false}
use open_reachout.PgStore.Budget.{is_suppressed-same}
use open_reachout.Deliver.{is_claimed}

-- ClaimedSnapshot
pub record ClaimedSnapshot : Type 0 where
  pub touch_id : ℕ
  pub tenant : String
  pub mailbox : String
  pub content_sha256 : String
  pub recipient : String

-- DispatchStore
pub record DispatchStore (S : Type 0) : Type 0 where
  pub load_claimed : ℕ → Exec S (Option ClaimedSnapshot)

abbrev pub proof_of : ClaimedSnapshot → ClaimedTouch
proof_of s = record {
  touch_id = s.touch_id;
  tenant = s.tenant;
  mailbox = s.mailbox;
  content_sha256 = s.content_sha256;
  recipient = s.recipient;
}

abbrev pub reissue_loaded : {S : Type 0} → Result (Option ClaimedSnapshot) × S → Result Verdict × S
reissue_loaded (err e, s) =
    (ok (refused (record { reason = internal; detail = repr e; terminal = false })), s)
reissue_loaded (ok none, s) = (
  ok (
      refused
        (record { reason = validation; detail = gate "not claimed/sendable"; terminal = true })),
  s,
)
reissue_loaded (ok (some snapshot), s) = (ok (issued (proof_of snapshot)), s)

unfoldable pub reissue : {S : Type 0} → DispatchStore S → ℕ → Exec S Verdict
reissue store touch_id s = reissue_loaded (store.load_claimed touch_id s)

module _ (py : Python) where
  abbrev pub unless_hit : ClaimedSnapshot → Bool → Exec Db (Option ClaimedSnapshot)
  unless_hit s true = pure none
  unless_hit s false = pure (some s)

  abbrev pub load_address :
      ℕ → String → String → String → Option String → Exec Db (Option ClaimedSnapshot)
  load_address touch_id tenant mailbox hash none = pure none
  load_address touch_id tenant mailbox hash (some email) = do
    hit ← is_suppressed py email tenant
    unless_hit
        (record {
          touch_id = touch_id;
          tenant = tenant;
          mailbox = mailbox;
          content_sha256 = hash;
          recipient = email;
        })
        hit

  abbrev pub load_open :
      ℕ → String → String → Prospect → List String → Exec Db (Option ClaimedSnapshot)
  load_open touch_id mailbox hash p (s ∷ ss) = pure none
  load_open touch_id mailbox hash p [] =
      load_address touch_id p.tenant mailbox hash p.email_canonical

  -- JOIN prospects and tenants
  abbrev pub load_joined : ℕ → String → String → Option Prospect → Exec Db (Option ClaimedSnapshot)
  load_joined touch_id mailbox hash none db = pure none db
  load_joined touch_id mailbox hash (some p) db =
      load_open touch_id mailbox hash p (Control.halted_scopes p.tenant db) db

  -- status = 'claimed' AND mailbox IS NOT NULL
  abbrev pub load_mailbox : ℕ → Touch → Bool → Option String → Exec Db (Option ClaimedSnapshot)
  load_mailbox touch_id t true (some mailbox) db =
      load_joined touch_id mailbox t.content_hash (db.prospects.rows t.prospect_id) db
  load_mailbox touch_id t _ _ db = pure none db

  abbrev pub load_touch : ℕ → Option Touch → Exec Db (Option ClaimedSnapshot)
  load_touch touch_id none = pure none
  load_touch touch_id (some t) = load_mailbox touch_id t (is_claimed t.status) t.mailbox

  unfoldable pub load_claimed : ℕ → Exec Db (Option ClaimedSnapshot)
  load_claimed touch_id db = load_touch touch_id (db.touches.rows touch_id) db

  abbrev pub pg_dispatch : DispatchStore Db
  pg_dispatch = record { load_claimed = load_claimed }
