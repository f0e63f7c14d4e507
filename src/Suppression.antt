-- ===== src/Suppression.antt =====
-- The suppression service (src/open_reachout/core/suppression.py).
pub mod Rows
use open_reachout.Base.{
  ℕ, ◌≡◌, String, Bool, true, false, not, ◌&&◌, ◌||◌, Option, none, some, List, [], ◌∷◌, Exec, pure,
  raise, modify, ◌>>=◌, ◌>>◌, value_error, Eq, string_eq, ◌==◌, if◌then◌else◌, ltb,
}
use open_reachout.Db.{Db, Suppression, Key, Payload, QueueName}
use open_reachout.Queue.{enqueue}
use open_reachout.Control.{global_scope}
use open_reachout.Canonical.{Python, canonicalize, tombstone_hash}

abbrev pub same_row : String → String → Suppression → Bool
same_row email scope r = (r.email_canonical == email) && (r.scope == scope)

-- INSERT ... ON CONFLICT (email_canonical, scope) DO UPDATE
unfoldable pub upsert : Suppression → List Suppression → List Suppression
upsert r [] = r ∷ []
upsert r (s ∷ rows) =
    let rest = upsert r rows in if same_row r.email_canonical r.scope s then r ∷ rows else s ∷ rest

abbrev pub put_suppression : Suppression → Db → Db
put_suppression r db = record db { suppressions = upsert r db.suppressions }

abbrev pub still_binds : ℕ → Option ℕ → Bool
still_binds now none = true
still_binds now (some x) = ltb now x

-- email_canonical = :e AND scope IN ('global', :t) AND (expires_at IS NULL OR expires_at > now())
abbrev pub binds : ℕ → String → String → Suppression → Bool
binds now email tenant r =
    (r.email_canonical == email)
    && ((r.scope == global_scope || r.scope == tenant) && still_binds now r.expires_at)

unfoldable pub any_row : (Suppression → Bool) → List Suppression → Bool
any_row p [] = false
any_row p (r ∷ rows) = p r || any_row p rows

module _ (py : Python) where
  abbrev pub suppress_canonical : String → String → Option ℕ → Bool → Option String → Exec Db String
  suppress_canonical scope reason expires_at propagate none = raise value_error
  suppress_canonical scope reason expires_at propagate (some canonical) = do
    modify (
        put_suppression (record {
          email_canonical = canonical;
          scope = scope;
          reason = reason;
          expires_at = expires_at;
        }))
    if propagate
        then (do
          _ ←
              enqueue QueueName.control (Payload.pause_lead canonical scope)
                (some (Key.pause canonical scope reason)) 0
          pure canonical)
        else pure canonical

  unfoldable pub suppress : String → String → String → Option ℕ → Bool → Exec Db String
  suppress email scope reason expires_at propagate =
      suppress_canonical scope reason expires_at propagate (canonicalize py email)

  -- is_suppressed hashes the address for the tombstones, which raises on a malformed one.
  abbrev pub is_suppressed_hash : String → String → Option String → Exec Db Bool
  is_suppressed_hash email tenant none = raise value_error
  is_suppressed_hash email tenant (some h) =
      λ db. pure (any_row (binds db.now email tenant) db.suppressions || db.tombstones h) db

  unfoldable pub is_suppressed : String → String → Exec Db Bool
  is_suppressed email tenant = is_suppressed_hash email tenant (tombstone_hash py email)

  abbrev pub screen_canonical : String → Option String → Exec Db Bool
  screen_canonical tenant none = pure false
  screen_canonical tenant (some canonical) = do hit ← is_suppressed canonical tenant; pure (not hit)

  unfoldable pub screen_at_ingest : String → String → Exec Db Bool
  unfolding is_suppressed
  screen_at_ingest email_raw tenant = screen_canonical tenant (canonicalize py email_raw)
