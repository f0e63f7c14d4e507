-- ===== src/Pattern/Spans.antt =====
-- What a pattern spans, without an order of search, and that the matcher finds exactly that.
use Prim.Native.Char.{Char}
use mathlib.Core.Path.{subst}
use open_reachout.Base.{
  ℕ, zero, suc, ◌≤◌, ◌<◌, ◌≡◌, ◌↔◌, ◌⊎◌, inl, inr, refl, sym, ◌∙◌, String, Bool, true, false, List,
  [], ◌∷◌, ◌++◌, some, arith, Bool-cases, if◌then◌else◌, ltb, size,
}
use open_reachout.Pattern.{
  Pos, mark, left, Regex, nothing, one, look, cat, alt, star, collect, step_over, rounds, ends,
}

abbrev pub Reads : (Char → Bool) → Pos → Pos → Type 0
Reads t (mark v String.[]) q = ⊥
Reads t (mark v (String.◌∷◌ c s)) q = (t c ≡ true) × (q ≡ mark (some c) s)

-- Any number of rounds.
pub data Star (R : Pos → Pos → Type 0) : Pos → Pos → Type 0 where
  stop : {p : Pos} → Star R p p
  more : {p m q : Pos} → R p m → Star R m q → Star R p q

-- The pattern matches the text from the first place to the second.
abbrev pub Spans : Regex → Pos → Pos → Type 0
Spans nothing p q = q ≡ p
Spans (one t) p q = Reads t p q
Spans (look t) p q = (t p ≡ true) × (q ≡ p)
Spans (cat r s) p q = (m : Pos) × Spans r p m × Spans s m q
Spans (alt r s) p q = Spans r p q ⊎ Spans s p q
Spans (star r) p q = Star (Spans r) p q

abbrev pub Among : {A : Type 0} → A → List A → Type 0
Among x [] = ⊥
Among x (y ∷ ys) = (x ≡ y) ⊎ Among x ys

module _ {A : Type 0} where
  pub Among-left : (x : A) (xs ys : List A) → Among x xs → Among x (xs ++ ys)
  Among-left x (y ∷ xs) ys (inl e) = inl e
  Among-left x (y ∷ xs) ys (inr h) = inr (Among-left x xs ys h)
  Among-left x [] ys h = elim h [ ]

  pub Among-right : (x : A) (xs ys : List A) → Among x ys → Among x (xs ++ ys)
  Among-right x [] ys h = h
  Among-right x (y ∷ xs) ys h = inr (Among-right x xs ys h)

  pub Among-append : (x : A) (xs ys : List A) → Among x (xs ++ ys) → Among x xs ⊎ Among x ys
  Among-append x [] ys h = inr h
  Among-append x (y ∷ xs) ys (inl e) = inl (inl e)
  Among-append x (y ∷ xs) ys (inr h) = elim (Among-append x xs ys h) [
    | inl l ↦ inl (inr l)
    | inr r ↦ inr r
  ]

module _ {A B : Type 0} (f : A → List B) where
  pub Among-collect_in :
      (x : A) (y : B) (xs : List A) → Among x xs → Among y (f x) → Among y (collect f xs)
  Among-collect_in x y (z ∷ xs) (inl e) h =
      Among-left y (f z) (collect f xs) (subst (λ w. Among y (f w)) e h)
  Among-collect_in x y (z ∷ xs) (inr m) h =
      Among-right y (f z) (collect f xs) (Among-collect_in x y xs m h)
  Among-collect_in x y [] m h = elim m [ ]

  pub Among-collect_out :
      (y : B) (xs : List A) → Among y (collect f xs) → (x : A) × Among x xs × Among y (f x)
  Among-collect_out y [] h = elim h [ ]
  Among-collect_out y (z ∷ xs) h = elim (Among-append y (f z) (collect f xs) h) [
    | inl l ↦ (z, inl refl, l)
    | inr r ↦ let (x, m, k) = Among-collect_out y xs r in (x, inr m, k)
  ]

-- A match stays where it is or moves forward.
abbrev pub Forward : Pos → Pos → Type 0
Forward p q = (q ≡ p) ⊎ (left q < left p)

Forward-trans : (p m q : Pos) → Forward p m → Forward m q → Forward p q
Forward-trans p m q (inl a) (inl b) = inl (b ∙ a)
Forward-trans p m q (inl a) (inr b) = inr (subst (λ w. left q < left w) a b)
Forward-trans p m q (inr a) (inl b) = inr (subst (λ w. left w < left p) (sym b) a)
Forward-trans p m q (inr a) (inr b) = inr (omega arith)

Reads-Forward : (t : Char → Bool) (p q : Pos) → Reads t p q → Forward p q
Reads-Forward t (mark v String.[]) q h = elim h [ ]
Reads-Forward t (mark v (String.◌∷◌ c s)) q h =
    inr (subst (λ w. left w < suc (size s)) (sym h.1) (omega arith))

Star-Forward :
    (R : Pos → Pos → Type 0)
    → ((p q : Pos) → R p q → Forward p q)
    → {p q : Pos} → Star R p q
    → Forward p q
Star-Forward R h stop = inl refl
Star-Forward R h (more a b) = Forward-trans _ _ _ (h _ _ a) (Star-Forward R h b)

pub Spans-Forward : (r : Regex) (p q : Pos) → Spans r p q → Forward p q
Spans-Forward nothing p q h = inl h
Spans-Forward (one t) p q h = Reads-Forward t p q h
Spans-Forward (look t) p q h = inl h.1
Spans-Forward (cat r s) p q (m, a, b) =
    Forward-trans p m q (Spans-Forward r p m a) (Spans-Forward s m q b)
Spans-Forward (alt r s) p q (inl a) = Spans-Forward r p q a
Spans-Forward (alt r s) p q (inr b) = Spans-Forward s p q b
Spans-Forward (star r) p q h = Star-Forward (Spans r) (Spans-Forward r) h

one_in : (t : Char → Bool) (p q : Pos) → Reads t p q → Among q (step_over t p)
one_in t (mark v String.[]) q h = h
one_in t (mark v (String.◌∷◌ c s)) q h = rw h.0 (inl h.1)

one_out : (t : Char → Bool) (p q : Pos) → Among q (step_over t p) → Reads t p q
one_out t (mark v String.[]) q h = h
one_out t (mark v (String.◌∷◌ c s)) q h = elim (Bool-cases (t c)) [
  | inl e ↦ elim (rw e at h) [ inl same ↦ (e, same) | inr n ↦ elim n [ ] ]
  | inr e ↦ elim (rw e at h) [ ]
]

look_out : (b : Bool) (p q : Pos) → Among q (if b then p ∷ [] else []) → (b ≡ true) × (q ≡ p)
look_out true p q (inl e) = (refl, e)
look_out true p q (inr n) = elim n [ ]
look_out false p q h = elim h [ ]

kept_out :
    (b : Bool) (q : Pos) (xs : List Pos) → Among q (elim b [ true ↦ xs | false ↦ [] ]) → Among q xs
kept_out true q xs h = h
kept_out false q xs h = elim h [ ]

kept_in :
    (b : Bool) (q : Pos) (xs : List Pos)
    → b ≡ true
    → Among q xs
    → Among q (elim b [ true ↦ xs | false ↦ [] ])
kept_in true q xs e h = h
kept_in false q xs e h = cc

module _ (R : Pos → Pos → Type 0) (body : Pos → List Pos)
    (sound : (p q : Pos) → Among q (body p) → R p q)
    (complete : (p q : Pos) → R p q → Among q (body p))
    (forward : (p q : Pos) → R p q → Forward p q) where
  round : ℕ → Pos → Pos → List Pos
  round n p q = elim (ltb (left q) (left p)) [ true ↦ rounds n body q | false ↦ [] ]

  round_out :
      (n : ℕ) (p m q : Pos)
      → (Among q (rounds n body m) → Star R m q)
      → Among q (round n p m)
      → Star R m q
  unfolding round
  round_out n p m q ih h = ih (kept_out (ltb (left m) (left p)) q (rounds n body m) h)

  rounds_out : (n : ℕ) (p q : Pos) → Among q (rounds n body p) → Star R p q
  unfolding rounds round
  rounds_out zero p q (inl e) = subst (λ w. Star R p w) (sym e) stop
  rounds_out zero p q (inr h) = elim h [ ]
  rounds_out (suc n) p q h = elim (Among-append q (collect (round n p) (body p)) (p ∷ []) h) [
    | inl l ↦
        let (m, a, b) = Among-collect_out (round n p) q (body p) l in
        more (sound p m a) (round_out n p m q (rounds_out n m q) b)
    | inr (inl e) ↦ subst (λ w. Star R p w) (sym e) stop
    | inr (inr k) ↦ elim k [ ]
  ]

  stays : (n : ℕ) (p : Pos) → Among p (rounds n body p)
  unfolding rounds round
  stays zero p = inl refl
  stays (suc n) p = Among-right p (collect (round n p) (body p)) (p ∷ []) (inl refl)

  round_in :
      (n : ℕ) (p m q : Pos) → left m < left p → Among q (rounds n body m) → Among q (round n p m)
  unfolding round
  round_in n p m q lt h = kept_in (ltb (left m) (left p)) q (rounds n body m) (ground arith) h

  further :
      (n : ℕ) (p m q : Pos)
      → left p ≤ n
      → R p m
      → left m < left p
      → ((k : ℕ) → left m ≤ k → Among q (rounds k body m))
      → Among q (rounds n body p)
  unfolding rounds round
  further zero p m q le a lt ih = absurd (omega arith)
  further (suc n) p m q le a lt ih = Among-left q (collect (round n p) (body p)) (p ∷ []) (
      Among-collect_in (round n p) m q (body p) (complete p m a)
        (round_in n p m q lt (ih n (omega arith))))

  rounds_in : {p q : Pos} (n : ℕ) → left p ≤ n → Star R p q → Among q (rounds n body p)
  rounds_in n le stop = stays n _
  rounds_in n le (more {p} {m} {q} a b) = elim (forward p m a) [
    | inl e ↦
        subst (λ w. Among q (rounds n body w)) e
          (rounds_in n (subst (λ w. left w ≤ n) (sym e) le) b)
    | inr lt ↦ further n p m q le a lt (λ k le'. rounds_in k le' b)
  ]

-- The matcher lists a place as the end of a match exactly if the pattern spans the text up to there:
-- backtracking loses no match and makes none up, also where a starred part can match the empty text.
pub ends_iff : (r : Regex) (p q : Pos) → Among q (ends r p) ↔ Spans r p q
unfolding ends
ends_iff nothing p q = (λ h. elim h [ inl e ↦ e | inr n ↦ elim n [ ] ], λ e. inl e)
ends_iff (one t) p q = (one_out t p q, one_in t p q)
ends_iff (look t) p q = (look_out (t p) p q, λ h. rw h.0 (inl h.1))
ends_iff (cat r s) p q = (
  λ h.
      let (m, a, b) = Among-collect_out (ends s) q (ends r p) h in
      (m, (ends_iff r p m).0 a, (ends_iff s m q).0 b),
  λ h.
      Among-collect_in (ends s) h.0 q (ends r p) ((ends_iff r p h.0).1 h.1)
        ((ends_iff s h.0 q).1 h.2),
)
ends_iff (alt r s) p q = (
  λ h. elim (Among-append q (ends r p) (ends s p) h) [
    | inl a ↦ inl ((ends_iff r p q).0 a)
    | inr b ↦ inr ((ends_iff s p q).0 b)
  ],
  λ h. elim h [
    | inl a ↦ Among-left q (ends r p) (ends s p) ((ends_iff r p q).1 a)
    | inr b ↦ Among-right q (ends r p) (ends s p) ((ends_iff s p q).1 b)
  ],
)
ends_iff (star r) p q = (
  rounds_out (Spans r) (ends r) (λ a b. (ends_iff r a b).0) (λ a b. (ends_iff r a b).1)
      (Spans-Forward r) (left p) p q,
  rounds_in (Spans r) (ends r) (λ a b. (ends_iff r a b).0) (λ a b. (ends_iff r a b).1)
      (Spans-Forward r) (left p) (omega arith),
)
