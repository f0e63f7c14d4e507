-- ===== src/Forget.antt =====
-- One-call deletion of a person (src/open_reachout/core/forget.py). The reference is an address if it
-- has an `@`, and the id of an entity if not. A receipt's id is fresh, as uuid4 is.
pub mod Steps
pub mod Addresses
pub mod Ran
pub mod Erased
pub mod Gone
use Prim.Native.String.{compare}
use Prim.Native.Nat.{Ordering}
use open_reachout.Base.{
  ℕ, zero, suc, ◌+◌, String, Bool, true, false, not, ◌&&◌, ◌||◌, Option, none, some, List, [], ◌∷◌,
  ◌++◌, Exec, pure, raise, modify, gets, require, ◌>>=◌, ◌>>◌, lookup_error, value_error, ℕ_eq,
  string_eq, ◌==◌, if◌then◌else◌, contains, row_is, apply_row, set, Table, update_where,
}
use open_reachout.States.{forgotten}
use open_reachout.Db.{
  Db, Touch, Reply, Prospect, Entity, EntityKey, Evidence, Suppression, Audit, Key, Payload,
  QueueName,
}
use open_reachout.Queue.{enqueue}
use open_reachout.Canonical.{Python, canonicalize, tombstone_hash}

pub data Ref : Type 0 where
  address : String → Ref
  entity : ℕ → Ref

-- ForgetReceipt
pub record ForgetReceipt : Type 0 where
  pub receipt_id : ℕ
  pub entity_ids : List ℕ
  pub addresses_tombstoned : ℕ

-- SELECT DISTINCT and UNION
abbrev pub add_id : ℕ → List ℕ → List ℕ
add_id i ids = if contains ids i then ids else i ∷ ids

abbrev pub has_email : String → Prospect → Bool
has_email canonical p = elim p.email_canonical [ none ↦ false | some e ↦ e == canonical ]

abbrev pub add_owner : String → Option Prospect → List ℕ → List ℕ
add_owner canonical none ids = ids
add_owner canonical (some p) ids = if has_email canonical p then add_id p.entity_id ids else ids

unfoldable pub owners : String → (ℕ → Option Prospect) → ℕ → List ℕ
owners canonical rows zero = []
owners canonical rows (suc n) = add_owner canonical (rows n) (owners canonical rows n)

abbrev pub is_email_key : String → EntityKey → Bool
is_email_key canonical k = (k.key_type == "email_canonical") && (k.key_value == canonical)

unfoldable pub key_owners : String → List EntityKey → List ℕ → List ℕ
key_owners canonical [] ids = ids
key_owners canonical (k ∷ ks) ids =
    key_owners canonical ks (if is_email_key canonical k then add_id k.entity_id ids else ids)

unfoldable pub entities_of : String → Db → List ℕ
unfolding owners key_owners
entities_of canonical db =
    key_owners canonical db.entity_keys (owners canonical db.prospects.rows db.prospects.next)

-- A set of addresses in the order of `sorted`.
abbrev pub precedes : String → String → Bool
precedes a b = elim (compare a b) [ Ordering.lt ↦ true | _ ↦ false ]

unfoldable pub insert_sorted : String → List String → List String
insert_sorted a [] = a ∷ []
insert_sorted a (b ∷ bs) =
    let rest = insert_sorted a bs in if precedes a b then a ∷ b ∷ bs else b ∷ rest

unfoldable pub add_address : String → List String → List String
unfolding insert_sorted
add_address a as' = if contains as' a then as' else insert_sorted a as'

abbrev pub add_email : List ℕ → Option Prospect → List String → List String
add_email ids none found = found
add_email ids (some p) found =
    if contains ids p.entity_id
    then elim p.email_canonical [ none ↦ found | some e ↦ add_address e found ]
    else found

unfoldable pub emails_of : List ℕ → (ℕ → Option Prospect) → ℕ → List String → List String
unfolding add_address
emails_of ids rows zero found = found
emails_of ids rows (suc n) found = add_email ids (rows n) (emails_of ids rows n found)

-- WHERE prospect_id IN (SELECT id FROM prospects WHERE entity_id = ANY(ids))
abbrev pub owned : List ℕ → Db → ℕ → Bool
owned ids db prospect_id =
    row_is (λ (p : Prospect). contains ids p.entity_id) (db.prospects.rows prospect_id)

abbrev pub scrub_touch : Touch → Touch
scrub_touch t = record t { subject = none; body = none; scrubbed = true }

abbrev pub scrub_reply : Reply → Reply
scrub_reply r = record r { body = none; scrubbed = true }

abbrev pub forget_prospect : Prospect → Prospect
forget_prospect p = record p {
  email_raw = none;
  email_canonical = none;
  source_ref = [];
  state = forgotten;
}

abbrev pub forget_entity : Entity → Entity
forget_entity e = record e { display_name = none; active = false }

-- DELETE FROM ... WHERE
abbrev pub delete_row : {R : Type 0} → (R → Bool) → Option R → Option R
delete_row p none = none
delete_row p (some r) = if p r then none else some r

abbrev pub delete_where : {R : Type 0} → (R → Bool) → Table R → Table R
delete_where p t = record { rows = λ i. delete_row p (t.rows i); next = t.next }

unfoldable pub without : {R : Type 0} → (R → Bool) → List R → List R
without p [] = []
without p (r ∷ rs) = let rest = without p rs in if p r then rest else r ∷ rest

-- UPDATE entities ... WHERE id = ANY(ids)
abbrev pub update_ids : {R : Type 0} → List ℕ → (R → R) → Table R → Table R
update_ids ids f t = record {
  rows = λ i. if contains ids i then apply_row f (t.rows i) else t.rows i;
  next = t.next;
}

abbrev pub is_nil : {A : Type 0} → List A → Bool
is_nil [] = true
is_nil (x ∷ xs) = false

-- 2. and 3.: what is kept of the entities is scrubbed, what identifies them is deleted
unfoldable pub erase_entities : List ℕ → Db → Db
unfolding without
erase_entities ids db = record db {
  touches = update_where (λ t. owned ids db t.prospect_id) scrub_touch db.touches;
  replies = update_where (λ r. owned ids db r.prospect_id) scrub_reply db.replies;
  evidence_facts = delete_where (λ f. owned ids db f.prospect_id) db.evidence_facts;
  prospects = update_where (λ p. contains ids p.entity_id) forget_prospect db.prospects;
  entity_keys = without (λ k. contains ids k.entity_id) db.entity_keys;
  entities = update_ids ids forget_entity db.entities;
}

-- 4.: the literal address goes, the tombstone covers it
unfoldable pub drop_suppressions : List String → Db → Db
unfolding without
drop_suppressions [] db = db
drop_suppressions (a ∷ rest) db = drop_suppressions rest (record db {
  suppressions = without (λ (s : Suppression). s.email_canonical == a) db.suppressions;
})

abbrev pub note_executed : ℕ → List ℕ → ℕ → Db → Db
note_executed receipt ids n db = record db {
  audit = db.audit ++ Audit.forget_executed receipt ids n ∷ [];
}

abbrev pub count_of : List String → ℕ
count_of [] = 0
count_of (x ∷ xs) = suc (count_of xs)

module _ (py : Python) where
  -- `none` is an InvalidEmailError
  abbrev pub hashed : Option String → Exec Db String
  hashed none = raise value_error
  hashed (some h) = pure h

  abbrev pub put_tombstone : String → Db → Db
  put_tombstone h db = record db { tombstones = set h true db.tombstones }

  -- 1.
  unfoldable pub tombstone_all : List String → Exec Db (Unit {0})
  tombstone_all [] = pure tt
  tombstone_all (a ∷ rest) = do
    h ← hashed (tombstone_hash py a)
    modify (put_tombstone h)
    tombstone_all rest

  -- 5.: the provider's copy
  unfoldable pub propagate_all : ℕ → List String → Exec Db (Unit {0})
  propagate_all receipt [] = pure tt
  propagate_all receipt (a ∷ rest) = do
    h ← hashed (tombstone_hash py a)
    _ ← enqueue QueueName.control (Payload.delete_lead a receipt) (some (Key.forget h)) 0
    propagate_all receipt rest

  abbrev pub take_receipt : Exec Db ℕ
  take_receipt db = pure db.receipts (record db { receipts = suc db.receipts })

  unfoldable pub erase : List ℕ → List String → Exec Db ForgetReceipt
  unfolding tombstone_all propagate_all erase_entities drop_suppressions
  erase ids addresses = do
    receipt ← take_receipt
    tombstone_all addresses
    modify (λ db. if is_nil ids then db else erase_entities ids db)
    modify (drop_suppressions addresses)
    modify (note_executed receipt ids (count_of addresses))
    propagate_all receipt addresses
    pure (record {
      receipt_id = receipt;
      entity_ids = ids;
      addresses_tombstoned = count_of addresses;
    })

  abbrev pub forget_all : List ℕ → List String → Exec Db ForgetReceipt
  forget_all ids addresses db =
      if is_nil ids && is_nil addresses
      then raise lookup_error db
      else erase ids (emails_of ids db.prospects.rows db.prospects.next addresses) db

  abbrev pub forget_address : Option String → Exec Db ForgetReceipt
  forget_address none = raise value_error
  forget_address (some canonical) = λ db. forget_all (entities_of canonical db) (canonical ∷ []) db

  unfoldable pub forget : Ref → Exec Db ForgetReceipt
  unfolding erase emails_of entities_of
  forget (address email) = forget_address (canonicalize py email)
  forget (entity id) = forget_all (id ∷ []) []
