-- ===== src/Envelope.antt =====
-- The envelope of untrusted text and the tripwire for injections
-- (src/open_reachout/security/envelope.py).
pub mod Closed
use Prim.Native.Char.{Char, code}
use open_reachout.Base.{
  ℕ, zero, suc, String, Bool, true, false, ◌&&◌, ◌||◌, Option, none, some, List, [], ◌∷◌, ◌++◌,
  Result, ok, err, value_error, ℕ_eq, string_eq, ◌==◌, if◌then◌else◌, append, starts_with, contains,
}
use open_reachout.Canonical.{Python}
use open_reachout.Pattern.{Regex, search, star}
use open_reachout.Pattern.Notation.{any_of, opt, ◌▸◌, txt, space, edge}

abbrev pub open_tag : String
open_tag = "<untrusted"

abbrev pub close_tag : String
close_tag = "</untrusted>"

-- with U+2044 in place of the slash
abbrev pub escaped_tag : String
escaped_tag = "<⁄untrusted>"

-- The characters of a pattern match the first ones of a text, up to case.
abbrev pub same_start : (Char → Char → Bool) → String → String → Bool
same_start same String.[] s = true
same_start same (String.◌∷◌ d tag) String.[] = false
same_start same (String.◌∷◌ d tag) (String.◌∷◌ c s) = same d c && same_start same tag s

-- A text in double quotes
abbrev pub quoted : String → String
quoted s = append "\"" (append s "\"")

-- Envelope
pub record Envelope : Type 0 where
  pub text : String
  pub sha256 : String
  pub source : String

-- The patterns of the tripwire, with their sources.
abbrev pub NamedPattern : Type 0
NamedPattern = String × Regex

abbrev pub allowed_source : String → Bool
allowed_source source =
    contains ("web" ∷ "reply" ∷ "import" ∷ "research_note" ∷ []) source
    || starts_with "variable:" source

-- the opening tag with its attributes, up to the line break behind it
abbrev pub opening : String → String → String → String
opening source digest idem = append open_tag (
    append " source=" (
      append (quoted source) (
        append " sha256=" (append (quoted digest) (append " idem=" (append (quoted idem) ">\n"))))))

abbrev pub matching : List NamedPattern → String → List String
matching [] content = []
matching ((name, r) ∷ rs) content =
    (if search r content then name ∷ [] else []) ++ matching rs content

module _ (py : Python) where
  -- Whether the close tag occurs in a text, in any case.
  unfoldable pub has_tag : String → Bool
  has_tag String.[] = false
  has_tag (String.◌∷◌ c s) = same_start py.same_letter close_tag (String.◌∷◌ c s) || has_tag s

  -- _ESCAPE_RE.sub(_ESCAPED, content), where `skip` more characters belong to a tag that is replaced.
  unfoldable pub escape_from : ℕ → String → String
  escape_from skip String.[] = String.[]
  escape_from (suc skip) (String.◌∷◌ c s) = escape_from skip s
  escape_from zero (String.◌∷◌ c s) =
      let hit = same_start py.same_letter close_tag (String.◌∷◌ c s) in
      let rest = escape_from (if hit then 11 else 0) s in
      if hit then append escaped_tag rest else String.◌∷◌ c rest

  unfoldable pub escape : String → String
  unfolding escape_from
  escape content = escape_from 0 content

  unfoldable pub wrap : String → String → String → Result Envelope
  unfolding escape
  wrap content source idem =
      if allowed_source source
      then (let escaped = escape content in
          let digest = py.sha256 escaped in
          ok (record {
            text = append (opening source digest idem) (append escaped (append "\n" close_tag));
            sha256 = digest;
            source = source;
          }))
      else err value_error

  -- INJECTION_PATTERNS
  abbrev pub injection_patterns : List NamedPattern
  injection_patterns =
      (
        "ignore (all |any |your |the |previous |prior )*(instructions|prompts|rules)",
        txt py "ignore "
            ▸ star (
                any_of (txt py "all ") (
                  txt py "any "
                  ∷ txt py "your "
                  ∷ txt py "the "
                  ∷ txt py "previous "
                  ∷ txt py "prior "
                  ∷ []))
            ▸ any_of (txt py "instructions") (txt py "prompts" ∷ txt py "rules" ∷ []),
      )
      ∷ (
        "disregard (the|all|your) (above|previous|prior)",
        txt py "disregard "
            ▸ any_of (txt py "the") (txt py "all" ∷ txt py "your" ∷ [])
            ▸ txt py " "
            ▸ any_of (txt py "above") (txt py "previous" ∷ txt py "prior" ∷ []),
      )
      ∷ ("system prompt", txt py "system prompt")
      ∷ ("you are now", txt py "you are now")
      ∷ ("new instructions?:", txt py "new instruction" ▸ opt (txt py "s") ▸ txt py ":")
      ∷ (
        "reveal (your|the) (prompt|instructions|configuration|api key)",
        txt py "reveal "
            ▸ any_of (txt py "your") (txt py "the" ∷ [])
            ▸ txt py " "
            ▸ any_of (txt py "prompt")
                (txt py "instructions" ∷ txt py "configuration" ∷ txt py "api key" ∷ []),
      )
      ∷ ("\\bDAN\\b", edge py ▸ txt py "DAN" ▸ edge py)
      ∷ (
        "act as (an?|the) (unrestricted|jailbroken)",
        txt py "act as "
            ▸ any_of (txt py "a" ▸ opt (txt py "n")) (txt py "the" ∷ [])
            ▸ txt py " "
            ▸ any_of (txt py "unrestricted") (txt py "jailbroken" ∷ []),
      )
      ∷ []

  unfoldable pub injection_suspects : String → List String
  unfolding search
  injection_suspects content = matching injection_patterns content
