-- ===== src/Pattern/Search.antt =====
-- Searching: what `re.search` finds, said by what the pattern spans.
use Prim.Native.Char.{Char}
use mathlib.Core.Path.{subst}
use open_reachout.Base.{
  ◌≡◌, ◌↔◌, ◌⊎◌, inl, inr, refl, sym, String, true, Option, none, some, List, [], ◌∷◌,
}
use open_reachout.Pattern.{
  Pos, mark, Regex, ends, head, Match, match_from, match_at, search_from, find, search, is_found,
  begins,
}
use open_reachout.Pattern.Spans.{Spans, Among, ends_iff}

-- A place of the text `s` with `v` before it.
abbrev pub Within : Option Char → String → Pos → Type 0
Within v String.[] p = p ≡ mark v String.[]
Within v (String.◌∷◌ c s) p = (p ≡ mark v (String.◌∷◌ c s)) ⊎ Within (some c) s p

-- The pattern spans some part of the text.
abbrev pub Occurs : Regex → Option Char → String → Type 0
Occurs r v s = (p : Pos) × (q : Pos) × Within v s p × Spans r p q

first_span :
    (r : Regex) (p q : Pos) (xs : List Pos) → ends r p ≡ xs → head xs ≡ some q → Spans r p q
first_span r p q [] e h = cc
first_span r p q (x ∷ xs) e h = (ends_iff r p q).0 (subst (Among q) (sym e) (inl (cc h)))

no_span : (r : Regex) (p q : Pos) (xs : List Pos) → ends r p ≡ xs → head xs ≡ none → ¬ Spans r p q
no_span r p q [] e h a = subst (Among q) e ((ends_iff r p q).1 a)
no_span r p q (x ∷ xs) e h a = cc

-- What the search reports about a text, when it reports `o`.
abbrev Reports : Regex → Option Char → String → Option Match → Type 0
Reports r v s none = ¬ Occurs r v s
Reports r v s (some m) = Within v s m.start × Spans r m.start m.stop

here_or_on :
    (r : Regex) (v : Option Char) (c : Char) (s : String) (o : Option Pos) (later : Option Match)
    → match_at r (mark v (String.◌∷◌ c s)) ≡ o
    → Reports r (some c) s later
    → Reports r v (String.◌∷◌ c s) (match_from (mark v (String.◌∷◌ c s)) o later)
here_or_on r v c s (some q) later e h =
    (inl refl, first_span r (mark v (String.◌∷◌ c s)) q _ refl e)
here_or_on r v c s none (some m) e h = (inr h.0, h.1)
here_or_on r v c s none none e h = λ k. elim k.2 [
  | inl same ↦
      no_span r (mark v (String.◌∷◌ c s)) k.1 _ refl e (subst (λ w. Spans r w k.1) same k.3)
  | inr w ↦ h (k.0, k.1, w, k.3)
]

at_end :
    (r : Regex) (v : Option Char) (o : Option Pos)
    → match_at r (mark v String.[]) ≡ o
    → Reports r v String.[] (match_from (mark v String.[]) o none)
at_end r v (some q) e = (refl, first_span r (mark v String.[]) q _ refl e)
at_end r v none e =
    λ k. no_span r (mark v String.[]) k.1 _ refl e (subst (λ w. Spans r w k.1) k.2 k.3)

pub search_from-Reports :
    (r : Regex) (v : Option Char) (s : String) → Reports r v s (search_from r v s)
unfolding search_from
search_from-Reports r v String.[] = at_end r v _ refl
search_from-Reports r v (String.◌∷◌ c s) =
    here_or_on r v c s _ (search_from r (some c) s) refl (search_from-Reports r (some c) s)

reported :
    (r : Regex) (v : Option Char) (s : String) (o : Option Match)
    → Reports r v s o
    → (is_found o ≡ true) ↔ Occurs r v s
reported r v s (some m) h = (λ e. (m.start, m.stop, h.0, h.1), λ k. refl)
reported r v s none h = (λ e. cc, λ k. absurd (h k))

-- A search succeeds exactly if the pattern spans some part of the text.
pub search_iff : (r : Regex) (s : String) → (search r s ≡ true) ↔ Occurs r none s
unfolding search find
search_iff r s = reported r none s (search_from r none s) (search_from-Reports r none s)

-- `re.match` succeeds exactly if the pattern spans a first part of the text.
pub begins_iff :
    (r : Regex) (s : String) → (begins r s ≡ true) ↔ ((q : Pos) × Spans r (mark none s) q)
unfolding begins
begins_iff r s = started r s _ refl
  where
    started :
        (r : Regex) (s : String) (o : Option Pos)
        → match_at r (mark none s) ≡ o
        → (is_found o ≡ true) ↔ ((q : Pos) × Spans r (mark none s) q)
    started r s (some q) e = (λ h. (q, first_span r (mark none s) q _ refl e), λ h. refl)
    started r s none e = (λ h. cc, λ h. absurd (no_span r (mark none s) h.0 _ refl e h.1))
