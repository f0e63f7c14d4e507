-- ===== src/Entities.antt =====
-- Entity resolution at ingest (src/open_reachout/core/entity.py). Of a candidate there are the fields
-- that resolution reads; the values of its source_ref are texts. A tenant is its slug.
pub mod Keys
pub mod Again
use Prim.Native.Char.{Char}
use open_reachout.Base.{
  ℕ, ◌+◌, ◌-◌, String, Bool, true, false, not, ◌&&◌, ◌||◌, Option, none, some, List, [], ◌∷◌, ◌++◌,
  ℕ_eq, string_eq, ◌==◌, if◌then◌else◌, ltb, insert, contains, is_char, append, before, is_empty,
  starts_with, find_text, drop, size, remove_chars,
}
use open_reachout.Db.{Db, Entity, EntityKey}
use open_reachout.Canonical.{Python, canonicalize}

-- Candidate
pub record Candidate : Type 0 where
  pub display_name : String
  pub website : Option String
  pub email_raw : Option String
  pub phone : Option String
  pub source_ref : List (String × String)

-- A key type and a key value
abbrev pub KeyPair : Type 0
KeyPair = String × String

-- s[-n:]
abbrev pub last_chars : ℕ → String → String
last_chars n s = drop (size s - n) s

-- s.split(sep, 1)[-1]
unfoldable pub behind_text : String → String → String
behind_text sep s = elim (find_text sep s) [ none ↦ s | some n ↦ drop (n + size sep) s ]

unfoldable pub phone_digits : Python → Option String → String
phone_digits py none = ""
phone_digits py (some phone) = last_chars 10 (remove_chars (λ c. not (py.isdigit c)) phone)

abbrev pub is_slash : Char → Bool
is_slash = is_char b'/'

abbrev pub without_www : String → String
without_www host = if starts_with "www." host then drop 4 host else host

-- A website that is missing or empty has no domain.
unfoldable pub domain : Python → Option String → String
unfolding behind_text
domain py none = ""
domain py (some website) =
    if is_empty website
    then ""
    else without_www (py.lower (before is_slash (behind_text "//" website)))

-- source_ref.get(name)
unfoldable pub ref_of : String → List (String × String) → Option String
ref_of name [] = none
ref_of name ((k, v) ∷ rest) = if k == name then some v else ref_of name rest

-- A value counts if it is there and not empty.
abbrev pub key_if : String → Option String → List KeyPair
key_if name none = []
key_if name (some v) = if is_empty v then [] else (name, v) ∷ []

-- An empty address is none; a malformed one gives no key.
abbrev pub email_key : Python → Option String → List KeyPair
email_key py none = []
email_key py (some email) =
    if is_empty email
    then []
    else elim (canonicalize py email) [ none ↦ [] | some c ↦ ("email_canonical", c) ∷ [] ]

abbrev pub place_key : String → String → List KeyPair
place_key host digits =
    if is_empty host || is_empty digits
    then []
    else ("domain_phone", append host (append "|" digits)) ∷ []

unfoldable pub deterministic_keys : Python → Candidate → List KeyPair
unfolding phone_digits domain ref_of
deterministic_keys py c =
    email_key py c.email_raw
    ++ (key_if "npi" (ref_of "npi" c.source_ref)
        ++ (key_if "place_id" (ref_of "place_id" c.source_ref)
            ++ place_key (domain py c.website) (phone_digits py c.phone)))

-- Resolution
pub record Resolution : Type 0 where
  pub entity_id : ℕ
  pub created : Bool
  pub merge_conflict : Bool

abbrev pub is_key : KeyPair → EntityKey → Bool
is_key k r = (r.key_type == k.0) && (r.key_value == k.1)

abbrev pub in_tenant : String → Option Entity → Bool
in_tenant tenant none = false
in_tenant tenant (some e) = e.tenant == tenant

-- The entity of the tenant that holds a key
unfoldable pub holder : String → (ℕ → Option Entity) → KeyPair → List EntityKey → Option ℕ
holder tenant rows k [] = none
holder tenant rows k (r ∷ rs) =
    if is_key k r && in_tenant tenant (rows r.entity_id)
    then some r.entity_id
    else holder tenant rows k rs

-- Each holder once, in the order of the keys
abbrev pub add_match : Option ℕ → List ℕ → List ℕ
add_match none ids = ids
add_match (some i) ids = if contains ids i then ids else ids ++ i ∷ []

unfoldable pub matches :
    String → (ℕ → Option Entity) → List EntityKey → List KeyPair → List ℕ → List ℕ
unfolding holder
matches tenant rows held [] found = found
matches tenant rows held (k ∷ ks) found =
    matches tenant rows held ks (add_match (holder tenant rows k held) found)

-- ON CONFLICT (key_type, key_value) DO NOTHING
unfoldable pub is_held : KeyPair → List EntityKey → Bool
is_held k [] = false
is_held k (r ∷ rs) = is_key k r || is_held k rs

abbrev pub hold : ℕ → KeyPair → List EntityKey → List EntityKey
hold i k held =
    if is_held k held
    then held
    else held ++ record { entity_id = i; key_type = k.0; key_value = k.1 } ∷ []

unfoldable pub hold_all : ℕ → List KeyPair → List EntityKey → List EntityKey
unfolding is_held
hold_all i [] held = held
hold_all i (k ∷ ks) held = hold_all i ks (hold i k held)

abbrev pub new_entity : String → String → Entity
new_entity tenant display_name = record {
  last_campaign_contact_at = none;
  active_sequence_touch_id = none;
  touches_12mo = 0;
  active = true;
  referral_asked = false;
  tenant = tenant;
  display_name = some display_name;
}

abbrev pub attach : ℕ → List KeyPair → Db → Db
attach i keys db = record db { entity_keys = hold_all i keys db.entity_keys }

abbrev pub is_several : List ℕ → Bool
is_several (a ∷ b ∷ rest) = true
is_several (a ∷ []) = false
is_several [] = false

abbrev pub resolve_matched : String → String → List KeyPair → List ℕ → Db → Resolution × Db
resolve_matched tenant display_name keys [] db = (
  record { entity_id = db.entities.next; created = true; merge_conflict = false },
  attach db.entities.next keys
      (record db { entities = insert (new_entity tenant display_name) db.entities }),
)
resolve_matched tenant display_name keys (i ∷ rest) db = (
  record { entity_id = i; created = false; merge_conflict = is_several (i ∷ rest) },
  attach i keys db,
)

-- By the candidate's keys
unfoldable pub resolve_keys : String → String → List KeyPair → Db → Resolution × Db
unfolding matches hold_all
resolve_keys tenant display_name keys db =
    resolve_matched tenant display_name keys
      (matches tenant db.entities.rows db.entity_keys keys []) db

unfoldable pub resolve_entity : Python → String → Candidate → Db → Resolution × Db
unfolding resolve_keys deterministic_keys
resolve_entity py tenant candidate db =
    resolve_keys tenant candidate.display_name (deterministic_keys py candidate) db
