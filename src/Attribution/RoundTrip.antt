-- ===== src/Attribution/RoundTrip.antt =====
-- Link tokens make a round trip, and a forged one is worth nothing.
use Prim.Native.Char.{code}
use open_reachout.Base.{
  ok, err, type_error, ltb, Bool, ◌≡◌, refl, ap, ◌∙◌, String, true, false, none, some, arith,
  string_eq, ◌==◌, ==_refl, if◌then◌else◌, append, any_char, before, behind,
}
use open_reachout.Canonical.{is_dot}
use open_reachout.Attribution.{Tokens, token_for, verify, mac_of}

has_dot : (a b : String) → any_char is_dot (append a (String.◌∷◌ "." b)) ≡ true
unfolding any_char append
has_dot String.[] b = refl
has_dot (String.◌∷◌ c a) b = ground (arith, has_dot a b)

before_dot :
    (a b : String) → any_char is_dot a ≡ false → before is_dot (append a (String.◌∷◌ "." b)) ≡ a
unfolding any_char append before
before_dot String.[] b h = refl
before_dot (String.◌∷◌ c a) b h =
    let plain : is_dot c ≡ false = ground (arith, h) in
    rw plain (ap (String.◌∷◌ c) (before_dot a b (ground (arith, h))))

behind_dot :
    (a b : String) → any_char is_dot a ≡ false → behind is_dot (append a (String.◌∷◌ "." b)) ≡ b
unfolding any_char append behind
behind_dot String.[] b h = refl
behind_dot (String.◌∷◌ c a) b h =
    let plain : is_dot c ≡ false = ground (arith, h) in
    rw plain (behind_dot a b (ground (arith, h)))

-- Some character is not ASCII.
abbrev pub is_wide : String → Bool
is_wide = any_char (λ c. ltb 127 (code c))

-- What uuid documents of the hex form: it has no dot, and is its own hex form.
pub record IsHex (lib : Tokens) (canonical : String) : Type 0 where
  pub no_dot : any_char is_dot canonical ≡ false
  pub same : lib.uuid_hex canonical ≡ some canonical

verify_at :
    (lib : Tokens) (canonical key mac : String)
    → IsHex lib canonical
    → verify lib (append canonical (String.◌∷◌ "." mac)) key ≡ (
        if is_wide mac
        then err type_error
        else (if mac_of lib key canonical == mac
            then ok (some (lib.uuid_str canonical))
            else ok none))
unfolding verify
verify_at lib canonical key mac k = rw (
  has_dot canonical mac,
  before_dot canonical mac k.no_dot,
  behind_dot canonical mac k.no_dot,
  k.same,
)

-- For a touch id whose hex form is a text without a dot and its own hex form, and a digest that is
-- ASCII: the token that `token_for` makes is verified, under the same key, as the touch's id in its
-- canonical spelling; and the hex form with any text behind a dot is verified exactly if that text is
-- the MAC, where a text that is not ASCII raises.
pub verify-token_for :
    (lib : Tokens) (touch_id key canonical : String)
    → lib.uuid_hex touch_id ≡ some canonical
    → IsHex lib canonical
    → is_wide (mac_of lib key canonical) ≡ false
    → (token : String) × (token_for lib touch_id key ≡ some token)
      × (verify lib token key ≡ ok (some (lib.uuid_str canonical)))
      × ((mac : String)
          → verify lib (append canonical (String.◌∷◌ "." mac)) key ≡ (
              if is_wide mac
              then err type_error
              else (if mac_of lib key canonical == mac
                  then ok (some (lib.uuid_str canonical))
                  else ok none)))
unfolding token_for
verify-token_for lib touch_id key canonical e k ascii = (
  append canonical (String.◌∷◌ "." (mac_of lib key canonical)),
  rw e,
  checked (mac_of lib key canonical) ∙ rw (ascii, ==_refl (mac_of lib key canonical)),
  checked,
)
  where
    checked :
        (mac : String)
        → verify lib (append canonical (String.◌∷◌ "." mac)) key ≡ (
            if is_wide mac
            then err type_error
            else (if mac_of lib key canonical == mac
                then ok (some (lib.uuid_str canonical))
                else ok none))
    checked mac = verify_at lib canonical key mac k
