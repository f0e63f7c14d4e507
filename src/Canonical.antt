-- ===== src/Canonical.antt =====
-- Email canonicalization (src/open_reachout/core/canonical.py). The Unicode tables of Python's str
-- methods and its idna codec are parameters; a message digest is one too.
use Prim.Native.Char.{Char}
use open_reachout.Base.{
  String, Bool, false, not, ◌&&◌, ◌||◌, Option, none, some, ℕ_eq, string_eq, ◌==◌, if◌then◌else◌,
  is_char, append, any_char, remove_chars, before, behind, is_empty, strip_left, strip_right,
}

-- What the code takes from Python: str.lower, white space, the `idna` codec (None for a
-- UnicodeError), the hex digest of SHA-256, and of `re` what \w and \d match and which characters
-- match a character of a pattern under IGNORECASE. `isdigit` is str.isdigit of a character.
pub record Python : Type 0 where
  pub lower : String → String
  pub is_space : Char → Bool
  pub idna : String → Option String
  pub sha256 : String → String
  pub is_word : Char → Bool
  pub is_digit : Char → Bool
  pub same_letter : Char → Char → Bool
  pub isdigit : Char → Bool

abbrev pub is_at : Char → Bool
is_at = is_char b'@'

abbrev pub is_plus : Char → Bool
is_plus = is_char b'+'

abbrev pub is_dot : Char → Bool
is_dot = is_char b'.'

-- `[^@\s]+\.[^@\s]+` on a text with neither: some dot has a character before it and one behind it.
unfoldable pub has_inner_dot : String → Bool
has_inner_dot String.[] = false
has_inner_dot (String.◌∷◌ c s) =
    any_char is_dot s && not (is_empty (behind is_dot s)) || has_inner_dot s

module _ (py : Python) where
  -- _SHAPE: one @, no white space, a local part, and a domain with an inner dot. Behind the first @
  -- there is no second one, so the split is the one of `rpartition`.
  unfoldable pub has_shape : String → Bool
  unfolding has_inner_dot
  has_shape s =
      let local = before is_at s in
      let domain = behind is_at s in
      any_char is_at s
      && not (any_char is_at domain)
      && not (any_char py.is_space s)
      && not (is_empty local)
      && has_inner_dot domain

  abbrev pub is_gmail : String → Bool
  is_gmail domain = domain == "gmail.com" || domain == "googlemail.com"

  abbrev pub join : String → String → Option String
  join local domain = if is_empty local then none else some (append local (String.◌∷◌ "@" domain))

  abbrev pub with_domain : String → Option String → Option String
  with_domain local none = none
  with_domain local (some domain) =
      if is_gmail domain then join (remove_chars is_dot local) "gmail.com" else join local domain

  -- `none` is InvalidEmailError.
  unfoldable pub canonicalize : String → Option String
  unfolding has_shape
  canonicalize email =
      let candidate = py.lower (strip_right py.is_space (strip_left py.is_space email)) in
      let local = before is_plus (before is_at candidate) in
      if has_shape candidate && not (is_empty local)
      then with_domain local (py.idna (behind is_at candidate))
      else none

  abbrev pub hash_of : Option String → Option String
  hash_of none = none
  hash_of (some c) = some (py.sha256 c)

  unfoldable pub tombstone_hash : String → Option String
  unfolding canonicalize
  tombstone_hash email = hash_of (canonicalize email)
