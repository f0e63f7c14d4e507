-- ===== src/Variables.antt =====
-- Prompt slots and their trust classes (src/open_reachout/core/variables.py).
pub mod Isolation
use Prim.Native.Char.{Char, code}
use open_reachout.Base.{
  ℕ, zero, suc, ◌-◌, String, Bool, true, false, not, ◌&&◌, ◌||◌, Option, none, some, List, [], ◌∷◌,
  ℕ_eq, string_eq, ◌==◌, if◌then◌else◌, leb, append, is_char, size, drop, before, strip_left,
  starts_with, contains,
}
use open_reachout.Canonical.{Python, is_dot}

pub data TrustClass : Type 0 where
  trusted prospect untrusted : TrustClass

abbrev pub Registry : Type 0
Registry = List (String × TrustClass)

abbrev pub default_registry : Registry
default_registry =
    ("persona.value_prop", trusted)
    ∷ ("persona.voice_rules", trusted)
    ∷ ("tenant.name", trusted)
    ∷ ("tenant.links.*", trusted)
    ∷ ("variant.*", trusted)
    ∷ ("prospect.first_name", prospect)
    ∷ ("prospect.org_name", prospect)
    ∷ ("prospect.city", prospect)
    ∷ ("asset.*", trusted)
    ∷ ("sender.*", trusted)
    ∷ ("evidence.*", untrusted)
    ∷ ("signal.*", untrusted)
    ∷ ("thread.*", untrusted)
    ∷ []

-- [a-zA-Z_]
abbrev pub begins_name : Char → Bool
begins_name c =
    (leb b'a' (code c) && leb (code c) b'z')
    || (leb b'A' (code c) && leb (code c) b'Z')
    || is_char b'_' c

-- [a-zA-Z0-9_.]
abbrev pub in_name : Char → Bool
in_name c = begins_name c || (leb b'0' (code c) && leb (code c) b'9') || is_dot c

abbrev pub headed : String → Bool
headed String.[] = false
headed (String.◌∷◌ c s) = begins_name c

-- What a prompt consists of
pub data Piece : Type 0 where
  letter : Char → Piece
  slot : String → Piece

-- The text behind a name: spaces and the braces that close it. The result has the text behind them.
abbrev pub closed_by : String → String → Option (String × String)
closed_by name s = if starts_with "}}" s then some (name, drop 2 s) else none

abbrev pub piece_of : Char → Option (String × String) → Piece
piece_of c none = letter c
piece_of c (some (name, _)) = slot name

-- How many more characters than the first one a match takes.
abbrev pub length_behind : String → Option (String × String) → ℕ
length_behind s none = 0
length_behind s (some (_, rest)) = size s - size rest

-- dict lookup
unfoldable pub trust_in : String → Registry → Option TrustClass
trust_in name [] = none
trust_in name ((key, t) ∷ reg) = if key == name then some t else trust_in name reg

-- ".".join(parts[:i]) for i from 1 below the number of the parts
abbrev pub put_all : Char → List String → List String
put_all c [] = []
put_all c (s ∷ ss) = String.◌∷◌ c s ∷ put_all c ss

unfoldable pub prefixes : String → List String
prefixes String.[] = []
prefixes (String.◌∷◌ c s) =
    let rest = put_all c (prefixes s) in if is_dot c then String.[] ∷ rest else rest

abbrev pub or_find : Option TrustClass → String → Registry → Option TrustClass
or_find (some t) name reg = some t
or_find none name reg = trust_in name reg

-- The longest prefix is tried first.
unfoldable pub find_wildcard : List String → Registry → Option TrustClass
unfolding trust_in
find_wildcard [] reg = none
find_wildcard (s ∷ ss) reg = or_find (find_wildcard ss reg) (append s ".*") reg

abbrev pub chosen : Option Registry → Registry
chosen none = default_registry
chosen (some reg) = reg

abbrev pub exact_or_wildcard : Option TrustClass → String → Registry → Option TrustClass
exact_or_wildcard (some t) name reg = some t
exact_or_wildcard none name reg = find_wildcard (prefixes name) reg

unfoldable pub lookup : String → Option Registry → Option TrustClass
unfolding trust_in find_wildcard prefixes
lookup name registry = exact_or_wildcard (trust_in name (chosen registry)) name (chosen registry)

unfoldable pub marker_for : String → String
marker_for name = append "[UNTRUSTED-REF:" (append name "]")

pub record ResolvedValue : Type 0 where
  pub slot : String
  pub value : String
  pub trust : TrustClass
  pub fact_id : Option String
  pub source_url : Option String

pub record ResolvedPrompt : Type 0 where
  pub text : String
  pub untrusted : List ResolvedValue
  pub resolved : List ResolvedValue

-- What `resolve` returns or raises
pub data ResolveResult : Type 0 where
  unknown_slot_error : List String → ResolveResult
  key_error : String → ResolveResult
  value_error : String → ResolveResult
  assertion_error : ResolveResult
  success : ResolvedPrompt → ResolveResult

abbrev pub same_trust : TrustClass → TrustClass → Bool
same_trust trusted trusted = true
same_trust prospect prospect = true
same_trust untrusted untrusted = true
same_trust _ _ = false

-- The text that stands for a slot, and the value that travels on its own.
abbrev pub put_value : TrustClass → String → ResolvedValue → ResolvedPrompt → ResolvedPrompt
put_value untrusted name rv r = record {
  text = append (marker_for name) r.text;
  untrusted = rv ∷ r.untrusted;
  resolved = rv ∷ r.resolved;
}
put_value _ name rv r = record r { text = append rv.value r.text; resolved = rv ∷ r.resolved }

abbrev pub put_behind : TrustClass → String → ResolvedValue → ResolveResult → ResolveResult
put_behind t name rv (success r) = success (put_value t name rv r)
put_behind t name rv failure = failure

abbrev pub put_letter : Char → ResolveResult → ResolveResult
put_letter c (success r) = success (record r { text = String.◌∷◌ c r.text })
put_letter c failure = failure

abbrev pub substitute :
    String → Option TrustClass → Option ResolvedValue → ResolveResult → ResolveResult
substitute name none rv rest = assertion_error
substitute name (some t) none rest = key_error name
substitute name (some t) (some rv) rest =
    if same_trust rv.trust t then put_behind t name rv rest else value_error name

-- SLOT_RE.sub(substitute, prompt): the matches from the left, so the first failure is the result.
unfoldable pub interpolate :
    (String → Option ResolvedValue) → Option Registry → List Piece → ResolveResult
unfolding lookup marker_for
interpolate values registry [] = success (record { text = ""; untrusted = []; resolved = [] })
interpolate values registry (letter c ∷ ps) = put_letter c (interpolate values registry ps)
interpolate values registry (slot name ∷ ps) =
    substitute name (lookup name registry) (values name) (interpolate values registry ps)

-- The slots of a prompt that are not among those seen.
unfoldable pub distinct : List String → List Piece → List String
distinct seen [] = []
distinct seen (letter c ∷ ps) = distinct seen ps
distinct seen (slot name ∷ ps) =
    let again = contains seen name in
    let rest = distinct (if again then seen else name ∷ seen) ps in
    if again then rest else name ∷ rest

abbrev pub is_known : Option TrustClass → Bool
is_known none = false
is_known (some _) = true

unfoldable pub unknown : Option Registry → List String → List String
unfolding lookup
unknown registry [] = []
unknown registry (name ∷ names) =
    let rest = unknown registry names in
    if is_known (lookup name registry) then rest else name ∷ rest

abbrev pub unless_unknown : List String → ResolveResult → ResolveResult
unless_unknown [] r = r
unless_unknown (name ∷ names) r = unknown_slot_error (name ∷ names)

module _ (py : Python) where
  -- SLOT_RE behind its opening braces
  abbrev pub named_slot : String → Option (String × String)
  named_slot s =
      if headed s
      then closed_by (before (λ c. not (in_name c)) s)
          (strip_left py.is_space (strip_left in_name s))
      else none

  -- A match of SLOT_RE at the start of a text: the name and the text behind the match.
  abbrev pub slot_at : String → Option (String × String)
  slot_at s = if starts_with "{{" s then named_slot (strip_left py.is_space (drop 2 s)) else none

  -- SLOT_RE.finditer, where `skip` more characters belong to a match.
  unfoldable pub pieces_from : ℕ → String → List Piece
  pieces_from skip String.[] = []
  pieces_from (suc skip) (String.◌∷◌ c s) = pieces_from skip s
  pieces_from zero (String.◌∷◌ c s) =
      let found = slot_at (String.◌∷◌ c s) in
      piece_of c found ∷ pieces_from (length_behind s found) s

  unfoldable pub extract_slots : String → List String
  unfolding pieces_from distinct
  extract_slots prompt = distinct [] (pieces_from 0 prompt)

  unfoldable pub validate_prompt : String → Option Registry → List String
  unfolding unknown extract_slots
  validate_prompt prompt registry = unknown registry (extract_slots prompt)

  unfoldable pub resolve :
      String → (String → Option ResolvedValue) → Option Registry → ResolveResult
  unfolding validate_prompt interpolate
  resolve prompt values registry =
      unless_unknown (validate_prompt prompt registry)
        (interpolate values registry (pieces_from 0 prompt))
