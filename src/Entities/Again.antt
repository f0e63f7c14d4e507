-- ===== src/Entities/Again.antt =====
-- Resolving the same candidate again finds the same entity.
use open_reachout.Base.{
  ℕ, ◌≡◌, ◌⊎◌, inl, inr, refl, sym, ap, ◌∙◌, String, true, false, Option, none, some, List, [], ◌∷◌,
  string_eq, ==_refl, ℕ_eq,
}
use open_reachout.Db.{Db, Entity, EntityKey}
use open_reachout.Canonical.{Python}
use open_reachout.Entities.{
  KeyPair, Candidate, Resolution, deterministic_keys, resolve_entity, resolve_keys, resolve_matched,
  holder, matches, is_held, hold, hold_all, in_tenant,
}
use open_reachout.Entities.Keys.{
  All, IsOwn, Settled, Settled-held, hold_self, hold_all-Settled, hold_all-All, hold_all-same,
  found_first, matches-head, matches-nil, matches-holds,
}

module _ (tenant name : String) (k : KeyPair) (ks : List KeyPair) where
  -- A resolution that finds i changes nothing.
  abbrev Finds : ℕ → Resolution × Db → Db → Type 0
  Finds i again db = (again.0.entity_id ≡ i) × (again.0.created ≡ false) × (again.1 ≡ db)

  by_matches :
      (ms rest : List ℕ) (i : ℕ) (db : Db)
      → All (Settled tenant db.entities.rows db.entity_keys) (k ∷ ks)
      → ms ≡ i ∷ rest
      → Finds i (resolve_matched tenant name (k ∷ ks) ms db) db
  by_matches [] rest i db all e = cc
  by_matches (j ∷ r) rest i db all e = (
    cc e,
    refl,
    ap (λ (h : List EntityKey). record db { entity_keys = h })
        (hold_all-same tenant db.entities.rows j (k ∷ ks) db.entity_keys all),
  )

  -- All keys are settled, and the first one's holder is i.
  found_again :
      (i : ℕ) (db : Db)
      → All (Settled tenant db.entities.rows db.entity_keys) (k ∷ ks)
      → holder tenant db.entities.rows k db.entity_keys ≡ some i
      → Finds i (resolve_keys tenant name (k ∷ ks) db) db
  unfolding resolve_keys
  found_again i db all first =
      let (rest, e) = matches-head tenant db.entities.rows db.entity_keys ks i [] in
      by_matches (matches tenant db.entities.rows db.entity_keys (k ∷ ks) []) rest i db all
        (first_found first e)
    where
      first_found :
          {rest : List ℕ}
          → holder tenant db.entities.rows k db.entity_keys ≡ some i
          → matches tenant db.entities.rows db.entity_keys ks (i ∷ []) ≡ i ∷ rest
          → matches tenant db.entities.rows db.entity_keys (k ∷ ks) [] ≡ i ∷ rest
      first_found h e = found_first tenant db.entities.rows db.entity_keys k ks i h ∙ e

  -- Attaching keys that are free or held in the tenant, the first of them free or held by i.
  attached :
      (i : ℕ) (rows : ℕ → Option Entity) (held : List EntityKey)
      → in_tenant tenant (rows i) ≡ true
      → All (IsOwn tenant rows held) (k ∷ ks)
      → (is_held k held ≡ false) ⊎ (holder tenant rows k held ≡ some i)
      → All (Settled tenant rows (hold_all i (k ∷ ks) held)) (k ∷ ks)
        × (holder tenant rows k (hold_all i (k ∷ ks) held) ≡ some i)
  unfolding hold_all
  attached i rows held mine own (inl f) = (
    hold_all-All tenant rows i mine (k ∷ ks) held own,
    hold_all-Settled tenant rows i mine k ks (hold i k held) i
        (hold_self tenant rows i mine k held f),
  )
  attached i rows held mine own (inr h) = (
    hold_all-All tenant rows i mine (k ∷ ks) held own,
    hold_all-Settled tenant rows i mine k (k ∷ ks) held i h,
  )

  free :
      (rows : ℕ → Option Entity) (held : List EntityKey) (j : KeyPair)
      → IsOwn tenant rows held j
      → holder tenant rows j held ≡ none
      → is_held j held ≡ false
  free rows held j (inl f) m = f
  free rows held j (inr s) m = cc (s.1, m)

  -- Keys without a holder in the tenant that are its own are free.
  All-free :
      (rows rows' : ℕ → Option Entity) (held : List EntityKey) (js : List KeyPair)
      → All (IsOwn tenant rows held) js
      → All (λ j. holder tenant rows j held ≡ none) js
      → All (IsOwn tenant rows' held) js
  All-free rows rows' held [] own n = tt
  All-free rows rows' held (j ∷ js) own n =
      (inl (free rows held j own.0 n.0), All-free rows rows' held js own.1 n.1)

  free_or_first :
      (rows : ℕ → Option Entity) (held : List EntityKey) (i : ℕ) (rest : List ℕ)
      → matches tenant rows held (k ∷ ks) [] ≡ i ∷ rest
      → IsOwn tenant rows held k
      → (is_held k held ≡ false) ⊎ (holder tenant rows k held ≡ some i)
  free_or_first rows held i rest e (inl f) = inl f
  free_or_first rows held i rest e (inr s) =
      let (others, e') = matches-head tenant rows held ks s.0 [] in
      let heads : s.0 ∷ others ≡ i ∷ rest =
        sym e' ∙ (sym (found_first tenant rows held k ks s.0 s.1) ∙ e) in
      let same : s.0 ≡ i = cc heads in inr (s.1 ∙ ap some same)

  after_first :
      (ms : List ℕ) (db : Db)
      → matches tenant db.entities.rows db.entity_keys (k ∷ ks) [] ≡ ms
      → All (IsOwn tenant db.entities.rows db.entity_keys) (k ∷ ks)
      → let one = resolve_matched tenant name (k ∷ ks) ms db in
        Finds one.0.entity_id (resolve_keys tenant name (k ∷ ks) one.1) one.1
  after_first [] db e own =
      let one = resolve_matched tenant name (k ∷ ks) [] db in
      let none' = matches-nil tenant db.entities.rows db.entity_keys (k ∷ ks) e in
      let rows' = one.1.entities.rows in
      let mine : in_tenant tenant (rows' db.entities.next) ≡ true =
        rw (==_refl db.entities.next) (==_refl tenant) in
      let (all, first) =
        attached db.entities.next rows' db.entity_keys mine
          (All-free db.entities.rows rows' db.entity_keys (k ∷ ks) own none')
          (inl (free db.entities.rows db.entity_keys k own.0 none'.0)) in
      found_again db.entities.next one.1 all first
  after_first (i ∷ rest) db e own =
      let one = resolve_matched tenant name (k ∷ ks) (i ∷ rest) db in
      let (j, held) = matches-holds tenant db.entities.rows db.entity_keys (k ∷ ks) i rest e in
      let mine = (Settled-held tenant db.entities.rows j db.entity_keys i held).1 in
      let (all, first) =
        attached i db.entities.rows db.entity_keys mine own
          (free_or_first db.entities.rows db.entity_keys i rest e own.0) in
      found_again i one.1 all first

-- When a candidate has a key, and each of its keys is free or held by an entity of the tenant, then
-- resolving it a second time for that tenant returns the same entity, as one that is not new, and
-- changes nothing in the database.
pub resolve_entity_again :
    (py : Python) (tenant : String) (candidate : Candidate) (k : KeyPair) (ks : List KeyPair)
    (db : Db)
    → deterministic_keys py candidate ≡ k ∷ ks
    → All (IsOwn tenant db.entities.rows db.entity_keys) (k ∷ ks)
    → let one = resolve_entity py tenant candidate db in
      let two = resolve_entity py tenant candidate one.1 in
      (two.0.entity_id ≡ one.0.entity_id) × (two.0.created ≡ false) × (two.1 ≡ one.1)
unfolding resolve_entity resolve_keys
resolve_entity_again py tenant candidate k ks db keys own = rw keys (
    after_first tenant candidate.display_name k ks
      (matches tenant db.entities.rows db.entity_keys (k ∷ ks) []) db refl own)
