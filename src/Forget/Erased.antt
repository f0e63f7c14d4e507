-- ===== src/Forget/Erased.antt =====
-- What is left of a person after a deletion (invariants I-3 and I-6).
use open_reachout.Base.{
  ℕ, ◌≡◌, inl, inr, refl, sym, ap, ◌∙◌, String, Bool, true, false, ◌||◌, Option, none, some, List,
  [], ◌∷◌, ok, arith, string_eq, ℕ_eq, Bool-cases, contains, if◌then◌else◌, Table, row_is,
  apply_row,
}
use open_reachout.States.{forgotten}
use open_reachout.Db.{Db, Prospect, Touch, EntityKey}
use open_reachout.Canonical.{Python}
use open_reachout.Suppression.{any_row}
use open_reachout.Forget.{
  ForgetReceipt, erase, erase_entities, drop_suppressions, without, owned, forget_prospect,
  scrub_touch,
}
use open_reachout.Forget.Steps.{Buried}
use open_reachout.Forget.Addresses.{at_address, drop-all, drop-frame}
use open_reachout.Forget.Ran.{erased, finished, erase-Ran}

-- Some key belongs to one of the entities.
abbrev pub any_key : List ℕ → List EntityKey → Bool
any_key ids [] = false
any_key ids (k ∷ ks) = contains ids k.entity_id || any_key ids ks

-- What a deletion leaves of these entities and addresses.
pub record Erased (py : Python) (ids : List ℕ) (addresses : List String) (db db' : Db)
    : Type 0 where
  pub buried : (a : String) → contains addresses a ≡ true → Buried py a db'
  pub no_suppression :
      (a : String) → contains addresses a ≡ true → any_row (at_address a) db'.suppressions ≡ false
  pub cleared :
      (j : ℕ) (p : Prospect)
      → db'.prospects.rows j ≡ some p
      → contains ids p.entity_id ≡ true
      → (p.email_canonical ≡ none) × (p.email_raw ≡ none) × (p.state ≡ forgotten)
  pub scrubbed :
      (j : ℕ) (t : Touch)
      → db'.touches.rows j ≡ some t
      → owned ids db t.prospect_id ≡ true
      → (t.subject ≡ none) × (t.body ≡ none)
  pub no_key : any_key ids db'.entity_keys ≡ false

module _ (ids : List ℕ) where
  clear_row :
      (o : Option Prospect) (p : Prospect)
      → apply_row (λ q. if contains ids q.entity_id then forget_prospect q else q) o ≡ some p
      → contains ids p.entity_id ≡ true
      → (p.email_canonical ≡ none) × (p.email_raw ≡ none) × (p.state ≡ forgotten)
  clear_row none p e own = cc
  clear_row (some q) p e own = elim (Bool-cases (contains ids q.entity_id)) [
    | inl t ↦ cleared_by (some_same (rw t at e))
    | inr f ↦
        let same : q ≡ p = some_same (rw f at e) in
        cc (f, own, ap (λ (x : Prospect). contains ids x.entity_id) same)
  ]
    where
      some_same : {x y : Prospect} → some x ≡ some y → x ≡ y
      some_same h = cc h

      cleared_by :
          forget_prospect q ≡ p
          → (p.email_canonical ≡ none) × (p.email_raw ≡ none) × (p.state ≡ forgotten)
      cleared_by h = rw (sym h) (refl, refl, refl)

  scrub_row :
      (db : Db) (o : Option Touch) (t : Touch)
      → apply_row (λ u. if owned ids db u.prospect_id then scrub_touch u else u) o ≡ some t
      → owned ids db t.prospect_id ≡ true
      → (t.subject ≡ none) × (t.body ≡ none)
  scrub_row db none t e own = cc
  scrub_row db (some u) t e own = elim (Bool-cases (owned ids db u.prospect_id)) [
    | inl y ↦ scrubbed_by (some_same (rw y at e))
    | inr f ↦
        let same : u ≡ t = some_same (rw f at e) in
        cc (f, own, ap (λ (x : Touch). owned ids db x.prospect_id) same)
  ]
    where
      some_same : {x y : Touch} → some x ≡ some y → x ≡ y
      some_same h = cc h

      scrubbed_by : scrub_touch u ≡ t → (t.subject ≡ none) × (t.body ≡ none)
      scrubbed_by h = rw (sym h) (refl, refl)

  keys_gone :
      (ks : List EntityKey) → any_key ids (without (λ k. contains ids k.entity_id) ks) ≡ false
  unfolding without
  keys_gone [] = refl
  keys_gone (k ∷ ks) = elim (Bool-cases (contains ids k.entity_id)) [
    | inl t ↦ rw t (keys_gone ks)
    | inr f ↦ rw f (ground (arith, f, keys_gone ks))
  ]

-- The tables of the finished database are those of the erased one, and its tombstones those that the
-- first step wrote.
finished-tombstones :
    (n : ℕ) (ids : List ℕ) (as' : List String) (s : Db)
    → (finished n ids as' s).tombstones ≡ s.tombstones
unfolding erase_entities
finished-tombstones n [] as' s = ap (λ (d : Db). d.tombstones) (drop-frame as' s)
finished-tombstones n (i ∷ ids) as' s =
    ap (λ (d : Db). d.tombstones) (drop-frame as' (erase_entities (i ∷ ids) s))

finished-prospects :
    (n : ℕ) (ids : List ℕ) (as' : List String) (s : Db)
    → (finished n ids as' s).prospects ≡ (erased ids s).prospects
finished-prospects n ids as' s = ap (λ (d : Db). d.prospects) (drop-frame as' (erased ids s))

finished-touches :
    (n : ℕ) (ids : List ℕ) (as' : List String) (s : Db)
    → (finished n ids as' s).touches ≡ (erased ids s).touches
finished-touches n ids as' s = ap (λ (d : Db). d.touches) (drop-frame as' (erased ids s))

finished-keys :
    (n : ℕ) (ids : List ℕ) (as' : List String) (s : Db)
    → (finished n ids as' s).entity_keys ≡ (erased ids s).entity_keys
finished-keys n ids as' s = ap (λ (d : Db). d.entity_keys) (drop-frame as' (erased ids s))

erased-cleared :
    (ids : List ℕ) (s : Db) (j : ℕ) (p : Prospect)
    → (erased ids s).prospects.rows j ≡ some p
    → contains ids p.entity_id ≡ true
    → (p.email_canonical ≡ none) × (p.email_raw ≡ none) × (p.state ≡ forgotten)
unfolding erase_entities
erased-cleared [] s j p at own = cc
erased-cleared (i ∷ ids) s j p at own = clear_row (i ∷ ids) (s.prospects.rows j) p at own

nobody : (o : Option Prospect) → row_is (λ (p : Prospect). contains [] p.entity_id) o ≡ false
nobody none = refl
nobody (some p) = refl

erased-scrubbed :
    (ids : List ℕ) (s : Db) (j : ℕ) (t : Touch)
    → (erased ids s).touches.rows j ≡ some t
    → owned ids s t.prospect_id ≡ true
    → (t.subject ≡ none) × (t.body ≡ none)
unfolding erase_entities
erased-scrubbed [] s j t at own = cc (own, nobody (s.prospects.rows t.prospect_id))
erased-scrubbed (i ∷ ids) s j t at own = scrub_row (i ∷ ids) s (s.touches.rows j) t at own

no_ids : (ks : List EntityKey) → any_key [] ks ≡ false
no_ids [] = refl
no_ids (k ∷ ks) = no_ids ks

erased-keys : (ids : List ℕ) (s : Db) → any_key ids (erased ids s).entity_keys ≡ false
unfolding erase_entities
erased-keys [] s = no_ids s.entity_keys
erased-keys (i ∷ ids) s = keys_gone (i ∷ ids) s.entity_keys

-- A deletion that returned has erased its entities and addresses.
pub erase-Erased :
    (py : Python) (ids : List ℕ) (as' : List String) (db db' : Db) (r : ForgetReceipt)
    → erase py ids as' db ≡ (ok r, db')
    → Erased py ids as' db db' × (r.entity_ids ≡ ids)
erase-Erased py ids as' db db' r e =
    let ran = erase-Ran py ids as' db db' r e in
    let s = ran.s in
    let n = db.receipts in
    let tombstones : db'.tombstones ≡ s.tombstones =
      ap (λ (d : Db). d.tombstones) ran.written ∙ finished-tombstones n ids as' s in
    let suppressions : db'.suppressions ≡ (drop_suppressions as' (erased ids s)).suppressions =
      ap (λ (d : Db). d.suppressions) ran.written in
    let prospects : db'.prospects ≡ (erased ids s).prospects =
      ap (λ (d : Db). d.prospects) ran.written ∙ finished-prospects n ids as' s in
    let touches : db'.touches ≡ (erased ids s).touches =
      ap (λ (d : Db). d.touches) ran.written ∙ finished-touches n ids as' s in
    let keys : db'.entity_keys ≡ (erased ids s).entity_keys =
      ap (λ (d : Db). d.entity_keys) ran.written ∙ finished-keys n ids as' s in
    let before : s.prospects ≡ db.prospects = ap (λ (d : Db). d.prospects) ran.tombstoned.frame in
    (
      record {
        buried = λ a c.
            let (h, is, there) = ran.tombstoned.buried a c in
            (h, is, ap (λ (m : String → Bool). m h) tombstones ∙ there);
        no_suppression =
            λ a c. ap (any_row (at_address a)) suppressions ∙ drop-all a as' (erased ids s) c;
        cleared = λ j p at own.
            erased-cleared ids s j p (sym (ap (λ (t : Table Prospect). t.rows j) prospects) ∙ at)
              own;
        scrubbed = λ j t at own.
            erased-scrubbed ids s j t (sym (ap (λ (u : Table Touch). u.rows j) touches) ∙ at) (
              ap
                (λ (u : Table Prospect).
                  row_is (λ (p : Prospect). contains ids p.entity_id) (u.rows t.prospect_id))
                before
              ∙ own);
        no_key = ap (any_key ids) keys ∙ erased-keys ids s;
      },
      ap (λ (x : ForgetReceipt). x.entity_ids) ran.receipt,
    )
