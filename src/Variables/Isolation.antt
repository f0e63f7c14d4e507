-- ===== src/Variables/Isolation.antt =====
-- Untrusted values stay out of the prompt's text (spec 9.6).
use Prim.Native.Char.{Char}
use open_reachout.Base.{
  ◌≡◌, refl, sym, ap, ◌∙◌, String, true, Option, none, some, List, [], ◌∷◌, Bool-cases, inl, inr,
}
use open_reachout.Canonical.{Python}
use open_reachout.Variables.{
  TrustClass, trusted, prospect, untrusted, Registry, Piece, letter, slot, ResolvedValue,
  ResolveResult, unknown_slot_error, key_error, value_error, assertion_error, success, put_letter,
  put_behind, same_trust, substitute, lookup, interpolate, unless_unknown, validate_prompt,
  pieces_from, resolve,
}

-- What the prompt shows: its text, or the failure.
abbrev pub shown : ResolveResult → ResolveResult
shown (success r) = success (record r { untrusted = []; resolved = [] })
shown failure = failure

-- A stranger writes what they like into the values that are declared untrusted.
abbrev pub forge : (String → String) → ResolvedValue → TrustClass → ResolvedValue
forge f rv untrusted = record rv { value = f rv.value }
forge f rv _ = rv

abbrev pub forged : (String → String) → Option ResolvedValue → Option ResolvedValue
forged f none = none
forged f (some rv) = some (forge f rv rv.trust)

abbrev pub forge_all :
    (String → String) → (String → Option ResolvedValue) → String → Option ResolvedValue
forge_all f values name = forged f (values name)

shown-put_letter : (c : Char) (r : ResolveResult) → shown (put_letter c r) ≡ put_letter c (shown r)
shown-put_letter c (unknown_slot_error names) = refl
shown-put_letter c (key_error name) = refl
shown-put_letter c (value_error name) = refl
shown-put_letter c assertion_error = refl
shown-put_letter c (success r) = refl

-- What a prompt shows behind a slot depends on what the rest shows and, unless the slot is untrusted,
-- on the value.
shown-put_behind :
    (t : TrustClass) (name : String) (rv : ResolvedValue) (r : ResolveResult)
    → shown (put_behind t name rv r) ≡ shown (put_behind t name rv (shown r))
shown-put_behind t name rv (unknown_slot_error names) = refl
shown-put_behind t name rv (key_error k) = refl
shown-put_behind t name rv (value_error v) = refl
shown-put_behind t name rv assertion_error = refl
shown-put_behind trusted name rv (success r) = refl
shown-put_behind prospect name rv (success r) = refl
shown-put_behind untrusted name rv (success r) = refl

shown-substitute :
    (name : String) (t : Option TrustClass) (rv : Option ResolvedValue) (r : ResolveResult)
    → shown (substitute name t rv r) ≡ shown (substitute name t rv (shown r))
shown-substitute name none rv r = refl
shown-substitute name (some t) none r = refl
shown-substitute name (some t) (some rv) r = elim (Bool-cases (same_trust rv.trust t)) [
  | inl y ↦ rw y (shown-put_behind t name rv r)
  | inr n ↦ rw n refl
]

hidden :
    (name value : String) (rv : ResolvedValue) (r : ResolveResult)
    → shown (put_behind untrusted name (record rv { value = value }) r)
      ≡ shown (put_behind untrusted name rv r)
hidden name value rv (unknown_slot_error names) = refl
hidden name value rv (key_error k) = refl
hidden name value rv (value_error v) = refl
hidden name value rv assertion_error = refl
hidden name value rv (success r) = refl

module _ (f : String → String) where
  forge_same :
      (name : String) (t u : TrustClass) (rv : ResolvedValue) (r : ResolveResult)
      → same_trust u t ≡ true
      → shown (put_behind t name (forge f rv u) r) ≡ shown (put_behind t name rv r)
  forge_same name trusted trusted rv r h = refl
  forge_same name prospect prospect rv r h = refl
  forge_same name untrusted untrusted rv r h = hidden name (f rv.value) rv r
  forge_same name _ _ rv r h = cc

  forge-trust : (rv : ResolvedValue) (u : TrustClass) → (forge f rv u).trust ≡ rv.trust
  forge-trust rv trusted = refl
  forge-trust rv prospect = refl
  forge-trust rv untrusted = refl

  substitute-forged :
      (name : String) (t : Option TrustClass) (rv : Option ResolvedValue) (r : ResolveResult)
      → shown (substitute name t (forged f rv) r) ≡ shown (substitute name t rv r)
  substitute-forged name none rv r = refl
  substitute-forged name (some t) none r = refl
  substitute-forged name (some t) (some rv) r =
      rw (forge-trust rv rv.trust) (elim (Bool-cases (same_trust rv.trust t)) [
        | inl y ↦ rw y (forge_same name t rv.trust rv r y)
        | inr n ↦ rw n refl
      ])

  module _ (registry : Option Registry) (values : String → Option ResolvedValue) where
    interpolate-forge_all :
        (ps : List Piece)
        → shown (interpolate (forge_all f values) registry ps)
          ≡ shown (interpolate values registry ps)
    unfolding interpolate
    interpolate-forge_all [] = refl
    interpolate-forge_all (letter c ∷ ps) =
        shown-put_letter c (interpolate (forge_all f values) registry ps)
        ∙ ap (put_letter c) (interpolate-forge_all ps)
        ∙ sym (shown-put_letter c (interpolate values registry ps))
    interpolate-forge_all (slot name ∷ ps) =
        let t = lookup name registry in
        let v = values name in
        substitute-forged name t v (interpolate (forge_all f values) registry ps)
        ∙ shown-substitute name t v (interpolate (forge_all f values) registry ps)
        ∙ ap (λ r. shown (substitute name t v r)) (interpolate-forge_all ps)
        ∙ sym (shown-substitute name t v (interpolate values registry ps))

shown-unless_unknown :
    (names : List String) (r s : ResolveResult)
    → shown r ≡ shown s
    → shown (unless_unknown names r) ≡ shown (unless_unknown names s)
shown-unless_unknown [] r s e = e
shown-unless_unknown (name ∷ names) r s e = refl

-- Whatever is written into the values that are declared untrusted, `resolve` makes the same text of a
-- prompt, or fails in the same way: no such value gets into the text.
pub resolve-forge_all :
    (py : Python) (f : String → String) (prompt : String) (values : String → Option ResolvedValue)
    (registry : Option Registry)
    → shown (resolve py prompt (forge_all f values) registry)
      ≡ shown (resolve py prompt values registry)
unfolding resolve
resolve-forge_all py f prompt values registry =
    shown-unless_unknown (validate_prompt py prompt registry)
      (interpolate (forge_all f values) registry (pieces_from py 0 prompt))
      (interpolate values registry (pieces_from py 0 prompt))
      (interpolate-forge_all f registry values (pieces_from py 0 prompt))
