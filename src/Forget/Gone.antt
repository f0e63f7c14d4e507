-- ===== src/Forget/Gone.antt =====
-- A person who is deleted is gone, and cannot be contacted any more (invariants I-3 and I-6).
use mathlib.Core.Path.{subst}
use open_reachout.Base.{
  ℕ, ◌<◌, ◌≡◌, ◌⊎◌, inl, inr, refl, sym, ap, ◌∙◌, String, true, ◌&&◌, Option, none, some, List, [],
  ◌∷◌, ok, arith, string_eq, ℕ_eq, ==_iff, Bool-cases, contains,
}
use open_reachout.Db.{Db, Prospect, ClaimedTouch}
use open_reachout.Canonical.{Python, canonicalize}
use open_reachout.Gatekeeper.{DraftTouch, Checks, issued, claim}
use open_reachout.PgStore.{pg_store}
use open_reachout.PgStore.Claims.{claim-IsSendable}
use open_reachout.Forget.{
  Ref, ForgetReceipt, address, entity, forget, erase, forget_all, forget_address, emails_of, is_nil,
  entities_of,
}
use open_reachout.Forget.Addresses.{emails_of-found, emails_of-own}
use open_reachout.Forget.Erased.{Erased, erase-Erased}

-- The deletion concerns this address: it was asked for, or a prospect of the entities has it.
abbrev pub Concerns : Python → Ref → String → Db → ForgetReceipt → Type 0
Concerns py ref a db r =
    ((email : String) × (ref ≡ address email) × (canonicalize py email ≡ some a))
    ⊎ ((j : ℕ) × (p : Prospect) × (j < db.prospects.next)
        × (db.prospects.rows j ≡ some p)
        × (contains r.entity_ids p.entity_id ≡ true)
        × (p.email_canonical ≡ some a))

-- The addresses that a deletion collects hold every one that it concerns.
abbrev pub Gone : Python → Ref → Db → Db → ForgetReceipt → Type 0
Gone py ref db db' r =
    (addresses : List String) × Erased py r.entity_ids addresses db db'
    × ((a : String) → Concerns py ref a db r → contains addresses a ≡ true)

module _ (py : Python) (db db' : Db) (r : ForgetReceipt) where
  Gone-by :
      (ref : Ref) (ids : List ℕ) (found : List String)
      → ((email a : String)
          → ref ≡ address email
          → canonicalize py email ≡ some a
          → contains found a ≡ true)
      → erase py ids (emails_of ids db.prospects.rows db.prospects.next found) db ≡ (ok r, db')
      → Gone py ref db db' r
  Gone-by ref ids found named e =
      let as' = emails_of ids db.prospects.rows db.prospects.next found in
      let (left, same) = erase-Erased py ids as' db db' r e in
      (
        as',
        subst (λ i. Erased py i as' db db') (sym same) left,
        λ a c. elim c [
          | inl k ↦
              emails_of-found ids db.prospects.rows db.prospects.next found a (named k.0 a k.1 k.2)
          | inr k ↦
              emails_of-own ids db.prospects.rows db.prospects.next k.0 found k.1 a k.2 k.3
                (subst (λ i. contains i k.1.entity_id ≡ true) same k.4) k.5
        ],
      )

  all-Gone :
      (ref : Ref) (ids : List ℕ) (found : List String)
      → ((email a : String)
          → ref ≡ address email
          → canonicalize py email ≡ some a
          → contains found a ≡ true)
      → forget_all py ids found db ≡ (ok r, db')
      → Gone py ref db db' r
  all-Gone ref ids found named e = elim (Bool-cases (is_nil ids && is_nil found)) [
    | inl t ↦ cc (rw t at e)
    | inr f ↦ Gone-by ref ids found named (rw f at e)
  ]

  address-Gone :
      (email : String) (o : Option String)
      → canonicalize py email ≡ o
      → forget_address py o db ≡ (ok r, db')
      → Gone py (address email) db db' r
  address-Gone email none is e = cc
  address-Gone email (some c) is e = all-Gone (address email) (entities_of c db) (c ∷ []) its e
    where
      its :
          (other a : String)
          → address email ≡ address other
          → canonicalize py other ≡ some a
          → contains (c ∷ []) a ≡ true
      its other a same has =
          let same_email : email ≡ other = cc same in
          let found : some c ≡ some a = sym is ∙ ap (canonicalize py) same_email ∙ has in
          let here : c ≡ a = cc found in ground (arith, (==_iff c a).1 here)

pub forget-Gone :
    (py : Python) (ref : Ref) (db db' : Db) (r : ForgetReceipt)
    → forget py ref db ≡ (ok r, db')
    → Gone py ref db db' r
unfolding forget
forget-Gone py (address email) db db' r e =
    address-Gone py db db' r email (canonicalize py email) refl e
forget-Gone py (entity id) db db' r e =
    all-Gone py db db' r (entity id) (id ∷ []) [] (λ email a same has. cc same) e

-- After a deletion that returned, no touch to an address that it concerned can be claimed, for any
-- tenant, profile and content.
pub forget-claim :
    {C : Type 0} (py : Python) (min_gap annual_cap : ℕ) (checks : Checks C) (t : DraftTouch C)
    (ref : Ref) (db db' db'' : Db) (r : ForgetReceipt) (c : ClaimedTouch)
    → forget py ref db ≡ (ok r, db')
    → Concerns py ref t.email_canonical db r
    → ¬ (claim (pg_store py min_gap annual_cap) checks t db' ≡ (ok (issued c), db''))
forget-claim py min_gap annual_cap checks t ref db db' db'' r c e concerned claimed =
    let (as', left, all) = forget-Gone py ref db db' r e in
    let (h, is, there) = left.buried t.email_canonical (all t.email_canonical concerned) in
    let k = claim-IsSendable py min_gap annual_cap checks t db' db'' c claimed in
    let same : some h ≡ some k.hash = sym is ∙ k.hashed in
    let same_hash : h ≡ k.hash = cc same in cc (there, k.not_forgotten, ap db'.tombstones same_hash)
