-- ===== src/Replies/OptOut.antt =====
-- A reply that opts out in a plain word is never shown to the model.
use Prim.Native.Char.{Char}
use open_reachout.Base.{
  ℕ, ◌≡◌, refl, inl, inr, String, true, false, Option, none, some, List, ok, append,
}
use open_reachout.Canonical.{Python}
use open_reachout.Pattern.{mark, search}
use open_reachout.Pattern.Notation.{txt, word_before}
use open_reachout.Pattern.Spans.{Spans}
use open_reachout.Pattern.Search.{Within, search_iff}
use open_reachout.Replies.{Action, Router, route, opted_out, unsubscribe_re}

-- The character before the end of a text, which `v` stands before
abbrev pub last_of : Option Char → String → Option Char
last_of v String.[] = v
last_of v (String.◌∷◌ c s) = last_of (some c) s

-- A place behind a first part of a text
Within-behind : (v : Option Char) (a s : String) → Within v (append a s) (mark (last_of v a) s)
unfolding append
Within-behind v String.[] String.[] = refl
Within-behind v String.[] (String.◌∷◌ c s) = inl refl
Within-behind v (String.◌∷◌ c a) s = inr (Within-behind (some c) a s)

module _ (py : Python) (same : (d : Char) → py.same_letter d d ≡ true) where
  txt-Spans :
      (v : Option Char) (d : Char) (s b : String)
      → Spans
          (txt py (String.◌∷◌ d s))
          (mark v (append (String.◌∷◌ d s) b))
          (mark (last_of v (String.◌∷◌ d s)) b)
  unfolding append
  txt-Spans v d String.[] b = (same d, refl)
  txt-Spans v d (String.◌∷◌ e s) b =
      (mark (some d) (append (String.◌∷◌ e s) b), (same d, refl), txt-Spans (some d) e s b)

  opts_out-found :
      (before behind : String)
      → py.is_word "u" ≡ true
      → word_before py (last_of none before) ≡ false
      → search (unsubscribe_re py) (append before (append "unsubscribe" behind)) ≡ true
  unfolding unsubscribe_re append
  opts_out-found before behind letter apart =
      let start = mark (last_of none before) (append "unsubscribe" behind) in
      (search_iff (unsubscribe_re py) (append before (append "unsubscribe" behind))).1 (
        start,
        mark (last_of none "unsubscribe") behind,
        Within-behind none before (append "unsubscribe" behind),
        (
          start,
          (rw (apart, letter), refl),
          inl (txt-Spans (last_of none before) "u" "nsubscribe" behind),
        ),
      )

-- A reply in which the word "unsubscribe" stands behind no letter is routed to suppression, whatever
-- else it says, whatever the model would answer, and also if the model cannot answer: where a
-- character matches itself and u is a letter.
pub route-unsubscribe :
    {F : Type 0} (router : Router F) (before behind : String) (exchanges : ℕ)
    (allowed : List Action)
    → ((d : Char) → router.python.same_letter d d ≡ true)
    → router.python.is_word "u" ≡ true
    → word_before router.python (last_of none before) ≡ false
    → route router (append before (append "unsubscribe" behind)) exchanges allowed
      ≡ ok (opted_out router)
unfolding route
route-unsubscribe router before behind exchanges allowed same letter apart =
    rw (opts_out-found router.python same before behind letter apart) refl
