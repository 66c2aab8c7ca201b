-- ===== src/Prelude/Errors.antt =====
-- What a JavaScript call returns or throws. `message` is `new Error(text)`; the others are errors
-- that the platform raises, whose texts the program does not read.
use mathlib.Core.Path.{◌≡◌, refl}
use widespread_logos.Prelude.Strings.{Text}

pub data Error : Type 0 where
  message : Text → Error
  type_error range_error operation_error syntax_error : Error

-- A promise that is rejected is `err`.
pub data Result {ℓ} (Value : Type ℓ) : Type ℓ where
  err : Error → Result Value
  ok : Value → Result Value

infixl 5 ◌>>=◌
-- `await`, and what is done with the value.
abbrev pub ◌>>=◌ {ℓ₀ ℓ₁} : {V : Type ℓ₀} {W : Type ℓ₁} → Result V → (V → Result W) → Result W
err thrown >>= next = err thrown
ok v >>= next = next v

-- A chain that returned: its first call returned, and so did the rest.
pub >>=-eq-ok {ℓ₀ ℓ₁} :
    {V : Type ℓ₀} {W : Type ℓ₁} (first : Result V) (next : V → Result W) {w : W}
    → (first >>= next) ≡ ok w
    → (v : V) × (first ≡ ok v) × (next v ≡ ok w)
>>=-eq-ok (err thrown) next returned = cc
>>=-eq-ok (ok v) next returned = (v, refl, returned)

pub ok-inj {ℓ} : {V : Type ℓ} {v w : V} → ok v ≡ ok w → v ≡ w
ok-inj same = cc
