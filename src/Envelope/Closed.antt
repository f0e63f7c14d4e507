-- ===== src/Envelope/Closed.antt =====
-- Untrusted text cannot end its own envelope (invariant I-5).
use Prim.Native.Char.{Char}
use open_reachout.Base.{
  ℕ, zero, suc, ◌≡◌, refl, ap, ◌∙◌, String, true, false, ok, err, value_error, arith, Bool-cases,
  inl, inr, append, any_char,
}
use open_reachout.Canonical.{Python}
use open_reachout.Envelope.{
  close_tag, escaped_tag, same_start, has_tag, escape_from, escape, Envelope, opening, wrap,
  allowed_source,
}

-- The two signs of the close tag have no case: nothing of the tag but `<` matches `<`, `<` matches
-- nothing else of the escaped tag, and the slash does not match the fraction slash.
pub record KeepsSigns (py : Python) : Type 0 where
  pub only_opens : any_char (λ d. py.same_letter d "<") "/untrusted>" ≡ false
  pub opens_once : any_char (λ c. py.same_letter "<" c) "⁄untrusted>" ≡ false
  pub slash : py.same_letter "/" "⁄" ≡ false

module _ (py : Python) where
  -- What follows the `<` of a tag and stands in an escaped text stands in the text.
  kept_start :
      (tag s : String)
      → any_char (λ d. py.same_letter d "<") tag ≡ false
      → same_start py.same_letter tag (escape_from py 0 s) ≡ true
      → same_start py.same_letter tag s ≡ true
  unfolding escape_from any_char append
  kept_start String.[] s free h = refl
  kept_start (String.◌∷◌ d tag) String.[] free h = h
  kept_start (String.◌∷◌ d tag) (String.◌∷◌ c s) free h =
      elim (Bool-cases (same_start py.same_letter close_tag (String.◌∷◌ c s))) [
        | inl t ↦ absurd (ground (arith, free, rw t at h))
        | inr f ↦
            let k = rw f at h in ground (arith, k, free, kept_start tag s (ground (arith, free)))
      ]

  module _ (k : KeepsSigns py) where
    -- A tag that starts at a kept character would have started there in the text.
    no_new_tag :
        (c : Char) (s : String)
        → same_start py.same_letter close_tag (String.◌∷◌ c s) ≡ false
        → same_start py.same_letter close_tag (String.◌∷◌ c (escape_from py 0 s)) ≡ false
    no_new_tag c s f =
        elim (Bool-cases
          (same_start py.same_letter close_tag (String.◌∷◌ c (escape_from py 0 s)))) [
            | inr e ↦ e
            | inl e ↦ absurd (ground (arith, e, f, kept_start "/untrusted>" s k.only_opens))
          ]

    -- No tag starts inside an escaped tag.
    inert :
        (x w : String)
        → any_char (λ c. py.same_letter "<" c) x ≡ false
        → has_tag py (append x w) ≡ has_tag py w
    unfolding append any_char has_tag
    inert String.[] w free = refl
    inert (String.◌∷◌ c x) w free = ground (arith, free, inert x w)

    escaped_inert : (w : String) → has_tag py (append escaped_tag w) ≡ has_tag py w
    unfolding append has_tag
    escaped_inert w = ground (arith, k.slash, inert "⁄untrusted>" w k.opens_once)

    escape_from-clean : (skip : ℕ) (s : String) → has_tag py (escape_from py skip s) ≡ false
    unfolding escape_from has_tag
    escape_from-clean skip String.[] = refl
    escape_from-clean (suc skip) (String.◌∷◌ c s) = escape_from-clean skip s
    escape_from-clean zero (String.◌∷◌ c s) =
        elim (Bool-cases (same_start py.same_letter close_tag (String.◌∷◌ c s))) [
          | inl t ↦ rw t (escaped_inert (escape_from py 11 s) ∙ escape_from-clean 11 s)
          | inr f ↦ rw f (ground (arith, no_new_tag c s f, escape_from-clean 0 s))
        ]

  -- A text without a tag is not changed.
  escape_from-same : (s : String) → has_tag py s ≡ false → escape_from py 0 s ≡ s
  unfolding escape_from has_tag
  escape_from-same String.[] h = refl
  escape_from-same (String.◌∷◌ c s) h =
      elim (Bool-cases (same_start py.same_letter close_tag (String.◌∷◌ c s))) [
        | inl t ↦ absurd (ground (arith, t, h))
        | inr f ↦ rw f (ap (String.◌∷◌ c) (escape_from-same s (ground (arith, h))))
      ]

-- When `wrap` returns, and the signs of the close tag have no case, the envelope is the opening tag
-- with the source, a digest of what it holds and the idempotency key, then a text in which no close
-- tag occurs in any case, a line break and the close tag. That text is the content itself if no close
-- tag occurs in it. `wrap` returns exactly for an allowed source.
pub wrap-IsClosed :
    (py : Python)
    → KeepsSigns py
    → (content source idem : String)
    → (allowed_source source ≡ false → wrap py content source idem ≡ err value_error)
      × (allowed_source source ≡ true
          → (e : Envelope) × (wrap py content source idem ≡ ok e)
            × (inside : String) × (has_tag py inside ≡ false)
            × (e.text
                ≡ append
                    (opening source (py.sha256 inside) idem)
                    (append inside (append "\n" close_tag)))
            × (e.sha256 ≡ py.sha256 inside)
            × (has_tag py content ≡ false → inside ≡ content))
unfolding wrap
wrap-IsClosed py k content source idem = (
  λ n. rw n,
  λ y. (
    record {
      text =
          append (opening source (py.sha256 (escape py content)) idem)
            (append (escape py content) (append "\n" close_tag));
      sha256 = py.sha256 (escape py content);
      source = source;
    },
    rw y,
    escape py content,
    clean,
    refl,
    refl,
    same,
  ),
)
  where
    clean : has_tag py (escape py content) ≡ false
    clean = escape_from-clean py k 0 content

    same : has_tag py content ≡ false → escape py content ≡ content
    same h = escape_from-same py content h
