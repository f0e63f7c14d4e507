-- ===== src/Pattern.antt =====
-- Regular expressions, as the program uses Python's `re`: the patterns of
-- src/open_reachout/core/replies.py, src/open_reachout/core/compliance and
-- src/open_reachout/security are values of `Regex`. The matcher lists where a match may end, in the
-- order in which `re` backtracks, so the first one is the match that `re` reports.
pub mod Spans
pub mod Search
pub mod Notation
use Prim.Native.Char.{Char}
use open_reachout.Base.{
  ℕ, zero, suc, ◌-◌, ◌≡◌, String, Bool, true, false, Option, none, some, List, [], ◌∷◌, ◌++◌,
  if◌then◌else◌, ltb, take, size, append,
}

-- A place in a text: the character before it, and the text behind it.
pub data Pos : Type 0 where
  mark : Option Char → String → Pos

abbrev pub rest : Pos → String
rest (mark v s) = s

-- How many characters lie behind a place.
abbrev pub left : Pos → ℕ
left p = size (rest p)

pub data Regex : Type 0 where
  nothing : Regex
  one : (Char → Bool) → Regex
  look : (Pos → Bool) → Regex
  cat : Regex → Regex → Regex
  alt : Regex → Regex → Regex
  star : Regex → Regex

abbrev pub collect : {A B : Type 0} → (A → List B) → List A → List B
collect f [] = []
collect f (x ∷ xs) = f x ++ collect f xs

abbrev pub step_over : (Char → Bool) → Pos → List Pos
step_over t (mark v String.[]) = []
step_over t (mark v (String.◌∷◌ c s)) = if t c then mark (some c) s ∷ [] else []

-- r*, greedy: as many rounds as there are, and then one less, and so on. A round that consumes
-- nothing ends the loop, so there are no more rounds than characters.
unfoldable pub rounds : ℕ → (Pos → List Pos) → Pos → List Pos
rounds zero body p = p ∷ []
rounds (suc n) body p =
    collect (λ q. elim (ltb (left q) (left p)) [ true ↦ rounds n body q | false ↦ [] ]) (body p)
    ++ p ∷ []

unfoldable pub ends : Regex → Pos → List Pos
unfolding rounds
ends nothing p = p ∷ []
ends (one t) p = step_over t p
ends (look t) p = if t p then p ∷ [] else []
ends (cat r s) p = collect (ends s) (ends r p)
ends (alt r s) p = ends r p ++ ends s p
ends (star r) p = rounds (left p) (ends r) p

abbrev pub head : {A : Type 0} → List A → Option A
head [] = none
head (x ∷ xs) = some x

-- Where a match starts and ends.
pub record Match : Type 0 where
  pub start : Pos
  pub stop : Pos

abbrev pub match_from : Pos → Option Pos → Option Match → Option Match
match_from p none later = later
match_from p (some q) later = some (record { start = p; stop = q })

-- re.match at a place
abbrev pub match_at : Regex → Pos → Option Pos
match_at r p = head (ends r p)

-- re.search from the place with `v` before the text
unfoldable pub search_from : Regex → Option Char → String → Option Match
unfolding ends
search_from r v String.[] = match_from (mark v String.[]) (match_at r (mark v String.[])) none
search_from r v (String.◌∷◌ c s) =
    match_from (mark v (String.◌∷◌ c s)) (match_at r (mark v (String.◌∷◌ c s)))
      (search_from r (some c) s)

unfoldable pub find : Regex → String → Option Match
unfolding search_from
find r s = search_from r none s

abbrev pub is_found : {A : Type 0} → Option A → Bool
is_found none = false
is_found (some _) = true

unfoldable pub search : Regex → String → Bool
unfolding find
search r s = is_found (find r s)

-- re.match
unfoldable pub begins : Regex → String → Bool
unfolding ends
begins r s = is_found (match_at r (mark none s))

-- match.group(0)
abbrev pub group : Match → String
group m = take (left m.start - left m.stop) (rest m.start)

-- What is left to search behind a match; an empty match moves on by one character.
abbrev pub move_on : Pos → Pos
move_on (mark v String.[]) = mark v String.[]
move_on (mark v (String.◌∷◌ c s)) = mark (some c) s

abbrev pub resume_at : Match → Pos
resume_at m = if ltb (left m.stop) (left m.start) then m.stop else move_on m.stop

abbrev pub search_at : Regex → Pos → Option Match
search_at r (mark v s) = search_from r v s

-- re.findall for a pattern without groups; a text has no more matches than characters, and one.
unfoldable pub find_all_from : ℕ → Regex → Pos → List String
unfolding search_from
find_all_from zero r p = []
find_all_from (suc n) r p = elim (search_at r p) [
  | none ↦ []
  | some m ↦ group m ∷ find_all_from n r (resume_at m)
]

unfoldable pub find_all : Regex → String → List String
unfolding find_all_from
find_all r s = find_all_from (suc (size s)) r (mark none s)

-- re.sub with a function of the match; behind an empty match the next character is kept.
abbrev pub next_char : Pos → String
next_char (mark v String.[]) = String.[]
next_char (mark v (String.◌∷◌ c s)) = String.◌∷◌ c String.[]

abbrev pub passed_over : Match → String
passed_over m = if ltb (left m.stop) (left m.start) then String.[] else next_char m.stop

unfoldable pub sub_from : ℕ → Regex → (String → String) → Pos → String
unfolding search_from
sub_from zero r f p = rest p
sub_from (suc n) r f p = elim (search_at r p) [
  | none ↦ rest p
  | some m ↦
      append (take (left p - left m.start) (rest p))
        (append (f (group m)) (append (passed_over m) (sub_from n r f (resume_at m))))
]

unfoldable pub sub : Regex → (String → String) → String → String
unfolding sub_from
sub r f s = sub_from (suc (size s)) r f (mark none s)
