-- ===== src/Base/Text.antt =====
-- Python's str methods that the program uses, on the native texts, by recursion on the characters.
use Prim.Native.Nat.{ℕ, zero, suc}
use mathlib.Core.Option.{Option, none, some}
use Prim.Native.Char.{Char, code}
use Prim.Native.String.{String}
use mathlib.Core.Bool.{Bool, true, false, ◌&&◌, ◌||◌}
use open_reachout.Base.Tests.{ℕ_eq, ◌==◌, if◌then◌else◌}

abbrev pub is_char : ℕ → Char → Bool
is_char n c = code c == n

-- s + t
unfoldable pub append : String → String → String
append String.[] t = t
append (String.◌∷◌ c s) t = String.◌∷◌ c (append s t)

-- any(p(c) for c in s)
unfoldable pub any_char : (Char → Bool) → String → Bool
any_char p String.[] = false
any_char p (String.◌∷◌ c s) = p c || any_char p s

-- s without the characters that pass
unfoldable pub remove_chars : (Char → Bool) → String → String
remove_chars p String.[] = String.[]
remove_chars p (String.◌∷◌ c s) =
    let rest = remove_chars p s in if p c then rest else String.◌∷◌ c rest

-- The part before the first character that passes; all of s if none does.
unfoldable pub before : (Char → Bool) → String → String
before p String.[] = String.[]
before p (String.◌∷◌ c s) = let rest = before p s in if p c then String.[] else String.◌∷◌ c rest

-- The part behind the first character that passes; empty if none does.
unfoldable pub behind : (Char → Bool) → String → String
behind p String.[] = String.[]
behind p (String.◌∷◌ c s) = let rest = behind p s in if p c then s else rest

abbrev pub is_empty : String → Bool
is_empty String.[] = true
is_empty (String.◌∷◌ _ _) = false

-- s.lstrip(), for the characters that pass
unfoldable pub strip_left : (Char → Bool) → String → String
strip_left p String.[] = String.[]
strip_left p (String.◌∷◌ c s) = let rest = strip_left p s in if p c then rest else String.◌∷◌ c s

-- s.rstrip()
unfoldable pub strip_right : (Char → Bool) → String → String
strip_right p String.[] = String.[]
strip_right p (String.◌∷◌ c s) =
    let rest = strip_right p s in if p c && is_empty rest then String.[] else String.◌∷◌ c rest

-- t.startswith(s)
unfoldable pub starts_with : String → String → Bool
starts_with String.[] t = true
starts_with (String.◌∷◌ c s) String.[] = false
starts_with (String.◌∷◌ c s) (String.◌∷◌ d t) = is_char (code c) d && starts_with s t

-- s in t
unfoldable pub is_in : String → String → Bool
unfolding starts_with
is_in s String.[] = starts_with s String.[]
is_in s (String.◌∷◌ d t) = starts_with s (String.◌∷◌ d t) || is_in s t

abbrev pub next_index : Option ℕ → Option ℕ
next_index none = none
next_index (some n) = some (suc n)

-- t.find(s); `none` stands for -1
unfoldable pub find_text : String → String → Option ℕ
unfolding starts_with
find_text s String.[] = if starts_with s String.[] then some 0 else none
find_text s (String.◌∷◌ d t) =
    if starts_with s (String.◌∷◌ d t) then some 0 else next_index (find_text s t)

-- s[:n]
abbrev pub take : ℕ → String → String
take zero s = String.[]
take (suc n) String.[] = String.[]
take (suc n) (String.◌∷◌ c s) = String.◌∷◌ c (take n s)

-- len(s)
abbrev pub size : String → ℕ
size String.[] = 0
size (String.◌∷◌ c s) = suc (size s)

-- s[n:]
abbrev pub drop : ℕ → String → String
drop zero s = s
drop (suc n) String.[] = String.[]
drop (suc n) (String.◌∷◌ c s) = drop n s
