-- ===== src/Entities/Keys.antt =====
-- Who holds the keys of a candidate, and what attaching them changes.
use open_reachout.Base.{
  ℕ, ◌≡◌, ◌⊎◌, inl, inr, refl, sym, ap, ◌∙◌, String, Bool, true, false, ◌&&◌, Option, none, some,
  List, [], ◌∷◌, ◌++◌, arith, Bool-cases, Option-cases, ℕ_eq, string_eq, ==_refl, contains,
  if◌then◌else◌,
}
use open_reachout.Db.{Entity, EntityKey}
use open_reachout.Entities.{KeyPair, is_key, in_tenant, holder, matches, is_held, hold, hold_all}

-- P holds for every key.
abbrev pub All : (KeyPair → Type 0) → List KeyPair → Type 0
All P [] = Unit
All P (k ∷ ks) = P k × All P ks

module _ (tenant : String) (rows : ℕ → Option Entity) where
  -- An entity of the tenant holds the key.
  abbrev pub Settled : List EntityKey → KeyPair → Type 0
  Settled held k = (i : ℕ) × (holder tenant rows k held ≡ some i)

  -- Nobody holds the key, or an entity of the tenant does.
  abbrev pub IsOwn : List EntityKey → KeyPair → Type 0
  IsOwn held k = (is_held k held ≡ false) ⊎ Settled held k

  abbrev new_key : ℕ → KeyPair → EntityKey
  new_key i k = record { entity_id = i; key_type = k.0; key_value = k.1 }

  holder-append :
      (k : KeyPair) (held : List EntityKey) (r : EntityKey) (i : ℕ)
      → holder tenant rows k held ≡ some i
      → holder tenant rows k (held ++ r ∷ []) ≡ some i
  unfolding holder
  holder-append k [] r i h = cc
  holder-append k (x ∷ xs) r i h =
      elim (Bool-cases (is_key k x && in_tenant tenant (rows x.entity_id))) [
        | inl t ↦ rw t (rw t at h)
        | inr f ↦ rw f (holder-append k xs r i (rw f at h))
      ]

  holder-new :
      (k : KeyPair) (held : List EntityKey) (r : EntityKey)
      → is_held k held ≡ false
      → holder tenant rows k (held ++ r ∷ [])
        ≡ (if is_key k r && in_tenant tenant (rows r.entity_id) then some r.entity_id else none)
  unfolding holder is_held
  holder-new k [] r h = refl
  holder-new k (x ∷ xs) r h =
      let other : is_key k x ≡ false = ground (arith, h) in
      rw other (holder-new k xs r (rw other at h))

  held-new :
      (k : KeyPair) (held : List EntityKey) (r : EntityKey)
      → is_held k held ≡ false
      → is_held k (held ++ r ∷ []) ≡ is_key k r
  unfolding is_held
  held-new k [] r h = ground arith
  held-new k (x ∷ xs) r h =
      let other : is_key k x ≡ false = ground (arith, h) in
      rw other (held-new k xs r (rw other at h))

  pub Settled-held :
      (k : KeyPair) (held : List EntityKey) (i : ℕ)
      → holder tenant rows k held ≡ some i
      → (is_held k held ≡ true) × (in_tenant tenant (rows i) ≡ true)
  unfolding holder is_held
  Settled-held k [] i h = cc
  Settled-held k (x ∷ xs) i h =
      elim (Bool-cases (is_key k x && in_tenant tenant (rows x.entity_id))) [
        | inr f ↦ let (a, b) = Settled-held k xs i (rw f at h) in (ground (arith, a), b)
        | inl t ↦
            let at : x.entity_id ≡ i = some_same (rw t at h) in
            (ground (arith, t), rw (sym at) (and_right _ _ t))
      ]
    where
      some_same : {a b : ℕ} → some a ≡ some b → a ≡ b
      some_same e = cc e

      and_right : (a b : Bool) → (a && b) ≡ true → b ≡ true
      and_right true b e = e
      and_right false b e = cc

  module _ (i : ℕ) (mine : in_tenant tenant (rows i) ≡ true) where
    hold-Settled :
        (k j : KeyPair) (held : List EntityKey) (n : ℕ)
        → holder tenant rows k held ≡ some n
        → holder tenant rows k (hold i j held) ≡ some n
    hold-Settled k j held n h = elim (Bool-cases (is_held j held)) [
      | inl t ↦ rw t h
      | inr f ↦ rw f (holder-append k held (new_key i j) n h)
    ]

    self_key : (k : KeyPair) → is_key k (new_key i k) ≡ true
    self_key (a, b) = ground (arith, ==_refl a, ==_refl b)

    -- The key that is attached goes to its holder if it has one, and else to the entity.
    pub hold_self :
        (k : KeyPair) (held : List EntityKey)
        → is_held k held ≡ false
        → holder tenant rows k (hold i k held) ≡ some i
    hold_self k held f = rw f (holder-new k held (new_key i k) f ∙ rw (self_key k, mine))

    hold-IsOwn : (k j : KeyPair) (held : List EntityKey) → IsOwn held k → IsOwn (hold i j held) k
    hold-IsOwn k j held (inr s) = inr (s.0, hold-Settled k j held s.0 s.1)
    hold-IsOwn k j held (inl f) = elim (Bool-cases (is_held j held)) [
      | inl t ↦ rw t (inl f)
      | inr g ↦ elim (Bool-cases (is_key k (new_key i j))) [
        | inr n ↦ rw g (inl (held-new k held (new_key i j) f ∙ n))
        | inl y ↦ rw g (inr (i, holder-new k held (new_key i j) f ∙ rw (y, mine)))
      ]
    ]

    pub hold_all-Settled :
        (k : KeyPair) (ks : List KeyPair) (held : List EntityKey) (n : ℕ)
        → holder tenant rows k held ≡ some n
        → holder tenant rows k (hold_all i ks held) ≡ some n
    unfolding hold_all
    hold_all-Settled k [] held n h = h
    hold_all-Settled k (j ∷ ks) held n h =
        hold_all-Settled k ks (hold i j held) n (hold-Settled k j held n h)

    first-Settled : (k : KeyPair) (held : List EntityKey) → IsOwn held k → Settled (hold i k held) k
    first-Settled k held (inl f) = (i, hold_self k held f)
    first-Settled k held (inr s) = (s.0, hold-Settled k k held s.0 s.1)

    IsOwn-after :
        (j : KeyPair) (ks : List KeyPair) (held : List EntityKey)
        → All (IsOwn held) ks
        → All (IsOwn (hold i j held)) ks
    IsOwn-after j [] held h = tt
    IsOwn-after j (k ∷ ks) held h = (hold-IsOwn k j held h.0, IsOwn-after j ks held h.1)

    -- After attaching, an entity of the tenant holds each of the keys.
    pub hold_all-All :
        (ks : List KeyPair) (held : List EntityKey)
        → All (IsOwn held) ks
        → All (Settled (hold_all i ks held)) ks
    unfolding hold_all
    hold_all-All [] held h = tt
    hold_all-All (k ∷ ks) held h =
        let s = first-Settled k held h.0 in
        (
          (s.0, hold_all-Settled k ks (hold i k held) s.0 s.1),
          hold_all-All ks (hold i k held) (IsOwn-after k ks held h.1),
        )

  -- Attaching keys that are held changes nothing.
  pub hold_all-same :
      (i : ℕ) (ks : List KeyPair) (held : List EntityKey)
      → All (Settled held) ks
      → hold_all i ks held ≡ held
  unfolding hold_all
  hold_all-same i [] held h = refl
  hold_all-same i (k ∷ ks) held h =
      let there = (Settled-held k held h.0.0 h.0.1).0 in rw there (hold_all-same i ks held h.1)

  -- What was found first stays first.
  pub matches-head :
      (held : List EntityKey) (ks : List KeyPair) (i : ℕ) (found : List ℕ)
      → (rest : List ℕ) × (matches tenant rows held ks (i ∷ found) ≡ i ∷ rest)
  unfolding matches
  matches-head held [] i found = (found, refl)
  matches-head held (k ∷ ks) i found = elim (Option-cases (holder tenant rows k held)) [
    | inl e ↦ rw e (matches-head held ks i found)
    | inr s ↦ elim (Bool-cases (contains (i ∷ found) s.0)) [
      | inl t ↦ rw (s.1, t) (matches-head held ks i found)
      | inr f ↦ rw (s.1, f) (matches-head held ks i (found ++ s.0 ∷ []))
    ]
  ]

  -- If nothing is found, no key has a holder in the tenant; else the first one found is a holder.
  pub matches-nil :
      (held : List EntityKey) (ks : List KeyPair)
      → matches tenant rows held ks [] ≡ []
      → All (λ k. holder tenant rows k held ≡ none) ks
  unfolding matches
  matches-nil held [] h = tt
  matches-nil held (k ∷ ks) h = elim (Option-cases (holder tenant rows k held)) [
    | inl e ↦ (e, matches-nil held ks (rw e at h))
    | inr s ↦ let (rest, e) = matches-head held ks s.0 [] in cc (e, rw s.1 at h)
  ]

  pub matches-holds :
      (held : List EntityKey) (ks : List KeyPair) (i : ℕ) (rest : List ℕ)
      → matches tenant rows held ks [] ≡ i ∷ rest
      → (k : KeyPair) × (holder tenant rows k held ≡ some i)
  unfolding matches
  matches-holds held [] i rest h = cc
  matches-holds held (k ∷ ks) i rest h = elim (Option-cases (holder tenant rows k held)) [
    | inl e ↦ matches-holds held ks i rest (rw e at h)
    | inr s ↦
        let (others, e) = matches-head held ks s.0 [] in
        let first : s.0 ∷ others ≡ i ∷ rest = sym e ∙ (rw s.1 at h) in
        let same : s.0 ≡ i = cc first in (k, s.1 ∙ ap some same)
  ]

  pub found_first :
      (held : List EntityKey) (k : KeyPair) (ks : List KeyPair) (i : ℕ)
      → holder tenant rows k held ≡ some i
      → matches tenant rows held (k ∷ ks) [] ≡ matches tenant rows held ks (i ∷ [])
  unfolding matches
  found_first held k ks i h = rw h
