-- ===== src/Attribution.antt =====
-- Link tokens and conversions (src/open_reachout/core/attribution.py). uuid.UUID and hmac are
-- parameters; the key of a deployment is read from its environment.
pub mod RoundTrip
use Prim.Native.Char.{code}
use open_reachout.Base.{
  ℕ, String, Bool, true, false, Option, none, some, List, [], ◌∷◌, ◌++◌, Result, ok, err, Exec,
  pure, raise, modify, ◌>>=◌, ◌>>◌, transition_error, type_error, ltb, Error, ℕ_eq, string_eq, ◌==◌,
  if◌then◌else◌, is_char, append, any_char, before, behind, take, is_empty,
}
use open_reachout.States.{ProspectState, converted, state_eq}
use open_reachout.Db.{Db, Touch, Prospect, Audit, Key, Payload, QueueName}
use open_reachout.Canonical.{Python, is_dot}
use open_reachout.Lifecycle.{transition}
use open_reachout.Queue.{enqueue}
use open_reachout.Learning.{record_success}
use open_reachout.Pattern.{sub}
use open_reachout.Validators.Patterns.{url}

abbrev pub mac_len : ℕ
mac_len = 12

-- uuid.UUID(s).hex (None for a ValueError), str(uuid.UUID(hex)), and the hex digest of an HMAC with
-- SHA-256
pub record Tokens : Type 0 where
  pub uuid_hex : String → Option String
  pub uuid_str : String → String
  pub hmac : String → String → String

module _ (lib : Tokens) where
  abbrev pub mac_of : String → String → String
  mac_of key canonical = take mac_len (lib.hmac key canonical)

  abbrev pub token_of : String → Option String → Option String
  token_of key none = none
  token_of key (some canonical) = some (append canonical (String.◌∷◌ "." (mac_of key canonical)))

  unfoldable pub token_for : String → String → Option String
  token_for touch_id key = token_of key (lib.uuid_hex touch_id)

  -- hmac.compare_digest raises on texts that are not ASCII; the expected one is.
  abbrev pub verified : String → String → Option String → Result (Option String)
  verified mac key none = ok none
  verified mac key (some canonical) =
      if any_char (λ c. ltb 127 (code c)) mac
      then err type_error
      else (if mac_of key canonical == mac then ok (some (lib.uuid_str canonical)) else ok none)

  unfoldable pub verify : String → String → Result (Option String)
  verify token key =
      if any_char is_dot token
      then verified (behind is_dot token) key (lib.uuid_hex (before is_dot token))
      else ok none

  abbrev pub tagged : String → String → String
  tagged token link =
      append link (append (if any_char (is_char b'?') link then "&" else "?") (append "t=" token))

  abbrev pub tag_links : Python → String → Option String → Option String
  tag_links py body none = none
  tag_links py body (some token) = some (sub (url py) (tagged token) body)

  unfoldable pub tokenize_links : Python → String → String → String → Option String
  unfolding token_for sub
  tokenize_links py body touch_id key = tag_links py body (token_for touch_id key)

abbrev pub credit : String → Option String → Db → Db
credit tenant none db = db
credit tenant (some variant) db = if is_empty variant then db else record_success tenant variant db

abbrev pub note_conversion : ℕ → Db → Db
note_conversion touch_id db = record db { audit = db.audit ++ Audit.touch_converted touch_id ∷ [] }

-- What follows the transition
abbrev pub converted_by : ℕ → Touch → Prospect → Exec Db Bool
converted_by touch_id t p = do
  modify (credit p.tenant t.variant_id)
  _ ←
      enqueue QueueName.referral (Payload.prospect t.prospect_id)
        (some (Key.referral t.prospect_id)) 0
  modify (note_conversion touch_id)
  pure true

-- `except TransitionError: return False`
abbrev pub unless_refused : Exec Db Bool → Result (Unit {0}) × Db → Result Bool × Db
unless_refused k (ok u, db) = k db
unless_refused k (err transition_error, db) = pure false db
unless_refused k (err e, db) = raise e db

abbrev pub convert : ℕ → Touch → Prospect → Exec Db Bool
convert touch_id t p db =
    if p.state == converted
    then pure false db
    else unless_refused (converted_by touch_id t p)
        (transition t.prospect_id converted "system:attribution" db)

abbrev pub convert_for : ℕ → Touch → Option Prospect → Exec Db Bool
convert_for touch_id t none = pure false
convert_for touch_id t (some p) = convert touch_id t p

abbrev pub convert_touch : ℕ → Option Touch → Exec Db Bool
convert_touch touch_id none = pure false
convert_touch touch_id (some t) = λ db. convert_for touch_id t (db.prospects.rows t.prospect_id) db

unfoldable pub record_conversion : ℕ → Exec Db Bool
unfolding transition enqueue record_success
record_conversion touch_id db = convert_touch touch_id (db.touches.rows touch_id) db
