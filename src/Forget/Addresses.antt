-- ===== src/Forget/Addresses.antt =====
-- The addresses that a deletion collects, and the suppressions that it drops
-- (src/open_reachout/core/forget.py).
use mathlib.Core.Path.{subst}
use open_reachout.Base.{
  ℕ, zero, suc, ◌<◌, ◌≡◌, ◌⊎◌, inl, inr, refl, sym, ap, ◌∙◌, String, Bool, true, false, Option,
  none, some, List, [], ◌∷◌, arith, string_eq, ℕ_eq, ◌==◌, ==_iff, ==_refl, Bool-cases, contains,
}
use open_reachout.Db.{Db, Suppression, Prospect}
use open_reachout.Suppression.{any_row}
use open_reachout.Forget.{
  drop_suppressions, without, insert_sorted, add_address, precedes, emails_of, add_email,
}

abbrev pub at_address : String → Suppression → Bool
at_address a s = s.email_canonical == a

without-clean :
    (a b : String) (rows : List Suppression)
    → any_row (at_address a) rows ≡ false
    → any_row (at_address a) (without (at_address b) rows) ≡ false
unfolding without any_row
without-clean a b [] h = refl
without-clean a b (s ∷ rows) h = elim (Bool-cases (at_address b s)) [
  | inl t ↦ rw t (without-clean a b rows (ground (arith, h)))
  | inr f ↦ rw f (ground (arith, h, without-clean a b rows))
]

without_self :
    (a : String) (rows : List Suppression)
    → any_row (at_address a) (without (at_address a) rows) ≡ false
unfolding without any_row
without_self a [] = refl
without_self a (s ∷ rows) = elim (Bool-cases (at_address a s)) [
  | inl t ↦ rw t (without_self a rows)
  | inr f ↦ rw f (ground (arith, f, without_self a rows))
]

drop-clean :
    (a : String) (as' : List String) (db : Db)
    → any_row (at_address a) db.suppressions ≡ false
    → any_row (at_address a) (drop_suppressions as' db).suppressions ≡ false
unfolding drop_suppressions
drop-clean a [] db h = h
drop-clean a (b ∷ rest) db h = drop-clean a rest _ (without-clean a b db.suppressions h)

pub drop-all :
    (a : String) (as' : List String) (db : Db)
    → contains as' a ≡ true
    → any_row (at_address a) (drop_suppressions as' db).suppressions ≡ false
unfolding drop_suppressions
drop-all a [] db c = cc
drop-all a (b ∷ rest) db c = elim (Bool-cases (b == a)) [
  | inr f ↦ drop-all a rest _ (rw f at c)
  | inl t ↦ drop-clean a rest _ (
      subst (λ x. any_row (at_address a) (without (at_address x) db.suppressions) ≡ false)
        (sym ((==_iff b a).0 t)) (without_self a db.suppressions))
]

pub drop-frame :
    (as' : List String) (db : Db)
    → drop_suppressions as' db
      ≡ record db { suppressions = (drop_suppressions as' db).suppressions }
unfolding drop_suppressions
drop-frame [] db = refl
drop-frame (a ∷ rest) db = drop-frame rest _

-- Addresses that are put into the set are in it.
insert-contains :
    (a b : String) (as' : List String)
    → (b ≡ a) ⊎ (contains as' b ≡ true)
    → contains (insert_sorted a as') b ≡ true
unfolding insert_sorted
insert-contains a b [] (inl e) = rw e (ground (arith, ==_refl a))
insert-contains a b [] (inr c) = cc
insert-contains a b (x ∷ xs) h = elim (Bool-cases (precedes a x)) [
  | inl t ↦ rw t (front h)
  | inr f ↦ rw f (behind h (insert-contains a b xs))
]
  where
    front : (b ≡ a) ⊎ (contains (x ∷ xs) b ≡ true) → contains (a ∷ x ∷ xs) b ≡ true
    front (inl e) = rw e (ground (arith, ==_refl a))
    front (inr c) = ground (arith, c)

    behind :
        (b ≡ a) ⊎ (contains (x ∷ xs) b ≡ true)
        → ((b ≡ a) ⊎ (contains xs b ≡ true) → contains (insert_sorted a xs) b ≡ true)
        → contains (x ∷ insert_sorted a xs) b ≡ true
    behind (inl e) ih = ground (arith, ih (inl e))
    behind (inr c) ih = elim (Bool-cases (x == b)) [
      | inl t ↦ rw t
      | inr f ↦ rw (f, ih (inr (rw f at c)))
    ]

pub add-contains :
    (a b : String) (as' : List String)
    → (b ≡ a) ⊎ (contains as' b ≡ true)
    → contains (add_address a as') b ≡ true
unfolding add_address
add-contains a b as' h = elim (Bool-cases (contains as' a)) [
  | inr f ↦ rw f (insert-contains a b as' h)
  | inl t ↦ rw t (old t h)
]
  where
    old : contains as' a ≡ true → (b ≡ a) ⊎ (contains as' b ≡ true) → contains as' b ≡ true
    old t (inl e) = rw e t
    old t (inr c) = c

kept_by :
    (ids : List ℕ) (o : Option Prospect) (a : String) (xs : List String)
    → contains xs a ≡ true
    → contains (add_email ids o xs) a ≡ true
kept_by ids none a xs k = k
kept_by ids (some p) a xs k = elim (Bool-cases (contains ids p.entity_id)) [
  | inr f ↦ rw f k
  | inl t ↦ rw t (email p.email_canonical)
]
  where
    email :
        (o : Option String) → contains (elim o [ none ↦ xs | some e ↦ add_address e xs ]) a ≡ true
    email none = k
    email (some e) = add-contains e a xs (inr k)

-- Every address of the first set is in the collected one, and so is that of every prospect of the
-- entities.
pub emails_of-found :
    (ids : List ℕ) (rows : ℕ → Option Prospect) (n : ℕ) (found : List String) (a : String)
    → contains found a ≡ true
    → contains (emails_of ids rows n found) a ≡ true
unfolding emails_of
emails_of-found ids rows zero found a h = h
emails_of-found ids rows (suc n) found a h =
    kept_by ids (rows n) a (emails_of ids rows n found) (emails_of-found ids rows n found a h)

own_email :
    (ids : List ℕ) (o : Option Prospect) (p : Prospect) (e : String) (xs : List String)
    → o ≡ some p
    → contains ids p.entity_id ≡ true
    → p.email_canonical ≡ some e
    → contains (add_email ids o xs) e ≡ true
own_email ids none p e xs at own has = cc
own_email ids (some q) p e xs at own has =
    let same : q ≡ p = some_same at in
    let mine : contains ids q.entity_id ≡ true = rw same own in
    let its : q.email_canonical ≡ some e = rw same has in
    rw (mine, its) (add-contains e e xs (inl refl))
  where
    some_same : {x y : Prospect} → some x ≡ some y → x ≡ y
    some_same h = cc h

pub emails_of-own :
    (ids : List ℕ) (rows : ℕ → Option Prospect) (n j : ℕ) (found : List String) (p : Prospect)
    (e : String)
    → j < n
    → rows j ≡ some p
    → contains ids p.entity_id ≡ true
    → p.email_canonical ≡ some e
    → contains (emails_of ids rows n found) e ≡ true
unfolding emails_of
emails_of-own ids rows zero j found p e lt at own has = absurd (omega arith)
emails_of-own ids rows (suc n) j found p e lt at own has = elim (Bool-cases (j == n)) [
  | inl t ↦
      own_email ids (rows n) p e (emails_of ids rows n found)
        (ap rows (sym ((==_iff j n).0 t)) ∙ at) own has
  | inr f ↦
      kept_by ids (rows n) e (emails_of ids rows n found)
        (emails_of-own ids rows n j found p e (ground (arith, f)) at own has)
]
