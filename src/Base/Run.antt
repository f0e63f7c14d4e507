-- ===== src/Base/Run.antt =====
-- Code that reads and writes a database and may raise. What was written before an exception is in
-- the state that comes back beside it; `transaction` is what discards it.
use Prim.Native.String.{String}
use mathlib.Core.Path.{◌≡◌, refl}
use mathlib.Core.Bool.{Bool, true, false}

-- The exceptions that the program raises and tells apart; `data_error` is the database's, for a value
-- that it does not take.
pub data Error : Type 0 where
  transition_error : Error
  lookup_error : Error
  value_error : Error
  key_error : Error
  type_error : Error
  permission_error : Error
  resume_requires_human : Error
  runtime_error : String → Error
  permanent_job_error : String → Error
  compliance_job_error : String → Error
  data_error : Error

pub data Result (A : Type 0) : Type 0 where
  ok : A → Result A
  err : Error → Result A

abbrev pub Exec : Type 0 → Type 0 → Type 0
Exec S A = S → Result A × S

abbrev pub pure : {S A : Type 0} → A → Exec S A
pure a s = (ok a, s)

abbrev pub raise : {S A : Type 0} → Error → Exec S A
raise e s = (err e, s)

abbrev pub gets : {S A : Type 0} → (S → A) → Exec S A
gets f s = (ok (f s), s)

abbrev pub modify : {S : Type 0} → (S → S) → Exec S (Unit {0})
modify f s = (ok tt, f s)

-- How a block goes on from what its first part returned.
abbrev pub after : {S A B : Type 0} → Result A × S → (A → Exec S B) → Result B × S
after (ok a, s) f = f a s
after (err e, s) f = (err e, s)

infixl 5 ◌>>=◌ ◌>>◌
abbrev pub ◌>>=◌ : {S A B : Type 0} → Exec S A → (A → Exec S B) → Exec S B
◌>>=◌ m f s = after (m s) f

abbrev pub ◌>>◌ : {S A B : Type 0} → Exec S A → Exec S B → Exec S B
◌>>◌ m n s = after (m s) (λ _. n)

-- `raise` unless the test holds.
abbrev pub require : {S : Type 0} → Bool → Error → Exec S (Unit {0})
require true e = pure tt
require false e = raise e

-- The inversion of a block that returned.
pub after_returns :
    {S A B : Type 0} (p : Result A × S) (f : A → Exec S B) (b : B) (t : S)
    → ◌≡◌ {A = Result B × S} (after p f) (ok b, t)
    → (a : A) × (s : S) × ◌≡◌ {A = Result A × S} p (ok a, s)
      × ◌≡◌ {A = Result B × S} (f a s) (ok b, t)
after_returns (ok a, s) f b t h = (a, s, refl, h)
after_returns (err e, s) f b t h = cc
