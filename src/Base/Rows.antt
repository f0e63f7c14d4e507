-- ===== src/Base/Rows.antt =====
-- SQL tables whose primary key the database hands out: ids below `next` may hold a row.
-- Rows keyed by text are plain functions from keys, written with `set`.
use Prim.Native.Nat.{ℕ, zero, suc, ◌+◌, ◌<◌}
use mathlib.Core.Path.{◌≡◌, refl, ap, subst, ◌∙◌}
use mathlib.Core.Logic.{inl, inr}
use mathlib.Core.Bool.{Bool, true, false, ◌||◌}
use mathlib.Core.List.{List, [], ◌∷◌}
use mathlib.Core.Option.{Option, none, some}
use native.Mathlib.Omega.{arith}
use open_reachout.Base.Tests.{Eq, ℕ_eq, ◌==◌, if◌then◌else◌, ==_iff, Bool-cases, Option-cases}

pub record Table (R : Type 0) : Type 0 where
  pub rows : ℕ → Option R
  pub next : ℕ

abbrev pub empty_table : {R : Type 0} → Table R
empty_table = record { rows = λ _. none; next = 0 }

abbrev pub apply_row : {A B : Type 0} → (A → B) → Option A → Option B
apply_row f none = none
apply_row f (some r) = some (f r)

abbrev pub row_is : {R : Type 0} → (R → Bool) → Option R → Bool
row_is p none = false
row_is p (some r) = p r

-- A write at one key of a map.
abbrev pub set : {K V : Type 0} ⦃e : Eq K⦄ → K → V → (K → V) → K → V
set k v m j = if k == j then v else m j

-- INSERT ... RETURNING id: the new row's id is the old `next`.
abbrev pub insert : {R : Type 0} → R → Table R → Table R
insert r t = record { rows = set t.next (some r) t.rows; next = suc t.next }

-- UPDATE ... WHERE id = k
abbrev pub update : {R : Type 0} → ℕ → (R → R) → Table R → Table R
update k f t = record {
  rows = λ j. if k == j then apply_row f (t.rows j) else t.rows j;
  next = t.next;
}

-- UPDATE ... WHERE p
abbrev pub update_where : {R : Type 0} → (R → Bool) → (R → R) → Table R → Table R
update_where p f t = record {
  rows = λ j. apply_row (λ r. if p r then f r else r) (t.rows j);
  next = t.next;
}

-- `x in xs`
abbrev pub contains : {A : Type 0} ⦃e : Eq A⦄ → List A → A → Bool
contains [] x = false
contains (y ∷ ys) x = (y == x) || contains ys x

-- The least number below n that passes: ORDER BY id LIMIT 1.
unfoldable pub first : (ℕ → Bool) → ℕ → Option ℕ
first p zero = none
first p (suc n) = elim (first p n) [ some i ↦ some i | none ↦ if p n then some n else none ]

-- How many numbers below n pass: count(*), or an UPDATE's rowcount.
unfoldable pub count : (ℕ → Bool) → ℕ → ℕ
count p zero = 0
count p (suc n) = count p n + (if p n then 1 else 0)

pub count-same : (p q : ℕ → Bool) (n : ℕ) → ((i : ℕ) → i < n → p i ≡ q i) → count p n ≡ count q n
unfolding count
count-same p q zero h = refl
count-same p q (suc n) h =
    let below = count-same p q n (λ i lt. h i (omega (arith, lt))) in
    rw below (rw (h n (omega arith)) refl)

pub record IsFirst (p : ℕ → Bool) (n i : ℕ) : Type 0 where
  pub passes : p i ≡ true
  pub below : i < n
  pub least : (j : ℕ) → j < i → p j ≡ false

pub first-none : (p : ℕ → Bool) (n : ℕ) → first p n ≡ none → (j : ℕ) → j < n → p j ≡ false
unfolding first
first-none p zero h j lt = absurd (omega arith)
first-none p (suc n) h j lt = elim (Option-cases (first p n)) [
  | inr e ↦ absurd (ground (arith, e.1))
  | inl e ↦ elim (Bool-cases (p n)) [
    | inl q ↦ absurd (ground (arith, e, q))
    | inr q ↦ ground (arith, first-none p n e j)
  ]
]

pub first-some : (p : ℕ → Bool) (n i : ℕ) → first p n ≡ some i → IsFirst p n i
unfolding first
first-some p zero i h = absurd (ground arith)
first-some p (suc n) i h = elim (Option-cases (first p n)) [
  | inr e ↦
      let r = first-some p n e.0 e.1 in
      let same : e.0 ≡ i = ground (arith, e.1) in
      record {
        passes = rw same at r.passes;
        below = omega (arith, r.below);
        least = λ j lt. r.least j (omega arith);
      }
  | inl e ↦ elim (Bool-cases (p n)) [
    | inl q ↦
        let same : n ≡ i = ground (arith, e, q) in
        record {
          passes = rw same at q;
          below = omega arith;
          least = λ j lt. first-none p n e j (omega arith);
        }
    | inr q ↦ absurd (ground (arith, e, q))
  ]
]

abbrev pub OnRow : {R : Type 0} → (R → Type 0) → Option R → Type 0
OnRow P none = Unit
OnRow P (some r) = P r

-- A property of every row of a table.
pub record AllRows {R : Type 0} (P : R → Type 0) (t : Table R) : Type 0 where
  pub row : (i : ℕ) → OnRow P (t.rows i)

pub AllRows-get :
    {R : Type 0} {P : R → Type 0} {t : Table R} (i : ℕ) (r : R)
    → AllRows P t
    → t.rows i ≡ some r
    → P r
AllRows-get {P} i r h e = subst (OnRow P) e (h.row i)

OnRow-if :
    {R : Type 0} (P : R → Type 0) (b : Bool) (x y : Option R)
    → (b ≡ true → OnRow P x)
    → OnRow P y
    → OnRow P (if b then x else y)
OnRow-if P true x y hx hy = hx refl
OnRow-if P false x y hx hy = hy

OnRow-apply :
    {R : Type 0} (P : R → Type 0) (f : R → R) (o : Option R)
    → ((r : R) → o ≡ some r → P r → P (f r))
    → OnRow P o
    → OnRow P (apply_row f o)
OnRow-apply P f none keep h = tt
OnRow-apply P f (some r) keep h = keep r refl h

module _ {R : Type 0} {P : R → Type 0} where
  pub AllRows-insert : (r : R) (t : Table R) → P r → AllRows P t → AllRows P (insert r t)
  AllRows-insert r t new h = record {
    row = λ i. OnRow-if P (t.next == i) (some r) (t.rows i) (λ _. new) (h.row i);
  }

  pub AllRows-update :
      (k : ℕ) (f : R → R) (t : Table R)
      → ((r : R) → t.rows k ≡ some r → P r → P (f r))
      → AllRows P t
      → AllRows P (update k f t)
  AllRows-update k f t keep h = record {
    row = λ i.
        OnRow-if P (k == i) (apply_row f (t.rows i)) (t.rows i)
          (λ e.
            OnRow-apply P f (t.rows i) (λ r at. keep r (ap t.rows ((==_iff k i).0 e) ∙ at))
              (h.row i))
          (h.row i);
  }

  pub AllRows-update_where :
      (p : R → Bool) (f : R → R) (t : Table R)
      → ((r : R) → p r ≡ true → P r → P (f r))
      → AllRows P t
      → AllRows P (update_where p f t)
  AllRows-update_where p f t keep h = record {
    row = λ i.
        OnRow-apply P (λ r. if p r then f r else r) (t.rows i)
          (λ r at pr. choose r (p r) (λ e. keep r e pr) pr) (h.row i);
  }
    where
      choose : (r : R) (b : Bool) → (b ≡ true → P (f r)) → P r → P (if b then f r else r)
      choose r true yes' no' = yes' refl
      choose r false yes' no' = no'
