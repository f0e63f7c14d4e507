-- ===== src/Pattern/Notation.antt =====
-- The notation of Python's patterns under re.IGNORECASE. Which characters count as the same letter,
-- as part of a word, as a digit or as white space is Python's to say.
use Prim.Native.Char.{Char}
use open_reachout.Base.{
  ℕ, zero, suc, String, Bool, true, false, not, ◌||◌, Option, none, some, List, [], ◌∷◌, is_char,
  any_char,
}
use open_reachout.Canonical.{Python}
use open_reachout.Pattern.{Pos, mark, Regex, nothing, one, look, cat, alt, star}

-- (?:r|s|...)
abbrev pub any_of : Regex → List Regex → Regex
any_of r [] = r
any_of r (s ∷ rs) = alt r (any_of s rs)

abbrev pub opt : Regex → Regex
opt r = alt r nothing

abbrev pub plus : Regex → Regex
plus r = cat r (star r)

-- r{0,n}
abbrev pub up_to : ℕ → Regex → Regex
up_to zero r = nothing
up_to (suc n) r = opt (cat r (up_to n r))

-- r{n}
abbrev pub exactly : ℕ → Regex → Regex
exactly zero r = nothing
exactly (suc n) r = cat r (exactly n r)

infixr 6 ◌▸◌
abbrev pub ◌▸◌ : Regex → Regex → Regex
r ▸ s = cat r s

abbrev pub at_start : Pos → Bool
at_start (mark none s) = true
at_start (mark (some c) s) = false

-- ^ under re.MULTILINE
abbrev pub at_line_start : Pos → Bool
at_line_start (mark none s) = true
at_line_start (mark (some c) s) = is_char 10 c

-- $
abbrev pub at_end : Pos → Bool
at_end (mark v String.[]) = true
at_end (mark v (String.◌∷◌ c String.[])) = is_char 10 c
at_end (mark v (String.◌∷◌ c (String.◌∷◌ d s))) = false

abbrev pub text_start : Regex
text_start = look at_start

abbrev pub line_start : Regex
line_start = look at_line_start

abbrev pub text_end : Regex
text_end = look at_end

-- .
abbrev pub dot : Regex
dot = one (λ c. not (is_char 10 c))

module _ (py : Python) where
  abbrev pub txt : String → Regex
  txt String.[] = nothing
  txt (String.◌∷◌ d String.[]) = one (py.same_letter d)
  txt (String.◌∷◌ d (String.◌∷◌ e s)) = cat (one (py.same_letter d)) (txt (String.◌∷◌ e s))

  -- [...] and [^\s...]
  abbrev pub one_of : String → Regex
  one_of cs = one (λ c. any_char (λ d. py.same_letter d c) cs)

  abbrev pub no_space_nor : String → Regex
  no_space_nor cs = one (λ c. not (py.is_space c || any_char (λ d. py.same_letter d c) cs))

  abbrev pub space : Regex
  space = one py.is_space

  abbrev pub digit : Regex
  digit = one py.is_digit

  abbrev pub word : Regex
  word = one py.is_word

  abbrev pub word_before : Option Char → Bool
  word_before none = false
  word_before (some c) = py.is_word c

  abbrev pub word_ahead : String → Bool
  word_ahead String.[] = false
  word_ahead (String.◌∷◌ c s) = py.is_word c

  abbrev pub differ : Bool → Bool → Bool
  differ true b = not b
  differ false b = b

  abbrev pub at_boundary : Pos → Bool
  at_boundary (mark v s) = differ (word_before v) (word_ahead s)

  -- \b
  abbrev pub edge : Regex
  edge = look at_boundary
