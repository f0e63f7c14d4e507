-- ===== src/Base/Parts.antt =====
-- Parts of texts: what the test `s in t` decides.
use text.Mathlib.TextEquality.{Char-path}
use Prim.Native.String.{String}
use mathlib.Core.Path.{◌≡◌, refl, ap}
use mathlib.Core.Logic.{◌↔◌, inl, inr}
use mathlib.Core.Bool.{true}
use native.Mathlib.Omega.{arith}
use open_reachout.Base.Tests.{ℕ_eq, Bool-cases}
use open_reachout.Base.Text.{append, starts_with, is_in}

-- The part `s` stands in the text.
abbrev pub Contains : String → String → Type 0
Contains t s = (before : String) × (behind : String) × (t ≡ append before (append s behind))

starts_with_out : (s t : String) → starts_with s t ≡ true → (w : String) × (t ≡ append s w)
unfolding starts_with append
starts_with_out String.[] t h = (t, refl)
starts_with_out (String.◌∷◌ c s) String.[] h = cc
starts_with_out (String.◌∷◌ c s) (String.◌∷◌ d t) h =
    let (w, e) = starts_with_out s t (ground (arith, h)) in
    let same : c ≡ d = Char-path c d (ground (arith, h)) in (w, cc)

starts_with_in : (s w : String) → starts_with s (append s w) ≡ true
unfolding starts_with append
starts_with_in String.[] w = refl
starts_with_in (String.◌∷◌ c s) w = ground (arith, starts_with_in s w)

is_in_out : (s t : String) → is_in s t ≡ true → Contains t s
unfolding is_in append
is_in_out s String.[] h = let (w, e) = starts_with_out s String.[] h in (String.[], w, e)
is_in_out s (String.◌∷◌ d t) h = elim (Bool-cases (starts_with s (String.◌∷◌ d t))) [
  | inl y ↦ let (w, e) = starts_with_out s (String.◌∷◌ d t) y in (String.[], w, e)
  | inr n ↦
      let (before, behind, e) = is_in_out s t (rw n at h) in
      (String.◌∷◌ d before, behind, ap (String.◌∷◌ d) e)
]

is_in_start : (s t : String) → starts_with s t ≡ true → is_in s t ≡ true
unfolding is_in
is_in_start s String.[] h = h
is_in_start s (String.◌∷◌ d t) h = rw h

is_in_in : (s before behind : String) → is_in s (append before (append s behind)) ≡ true
unfolding is_in append
is_in_in s String.[] behind = is_in_start s (append s behind) (starts_with_in s behind)
is_in_in s (String.◌∷◌ c before) behind = ground (arith, is_in_in s before behind)

pub is_in_iff : (s t : String) → (is_in s t ≡ true) ↔ Contains t s
is_in_iff s t = (is_in_out s t, λ k. rw k.2 (is_in_in s k.0 k.1))
