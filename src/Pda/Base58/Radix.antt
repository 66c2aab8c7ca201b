-- ===== src/Pda/Base58/Radix.antt =====
-- Conversion between two bases by repeated multiplication, and back.
use widespread_logos.Prelude.{
  ℕ, ◌+◌, ◌*◌, ◌/◌, ◌<◌, ◌≤◌, ◌≡◌, ◌≢◌, refl, sym, ap, ◌∙◌, List, [], ◌∷◌, ◌++◌, All, arith,
}
use mathlib.Core.List.{reverse, reverse-cons, append_assoc, append-nil, reverse-reverse}
use native.Mathlib.Nat.{mod-lt, div-add-mod, le_refl, mul-pos}
use widespread_logos.Platform.Digits.{
  value, value-digits, IsCanonical, IsCanonical-digits, canonical_unique,
}
use widespread_logos.Pda.Base58.{mul_add}

-- The loop over the elements of the number, most significant first.
unfoldable pub convert : ℕ → ℕ → List ℕ → List ℕ → List ℕ
convert mul base ds [] = ds
convert mul base ds (x ∷ xs) = convert mul base (mul_add mul base ds x) xs

-- The number that digits stand for, most significant first, after the number `n`.
horner : ℕ → ℕ → List ℕ → ℕ
horner mul n [] = n
horner mul n (x ∷ xs) = horner mul (x + mul * n) xs

value_pos : (base x : ℕ) (ds : List ℕ) → x < base → 0 < value base ds → 0 < value base (x ∷ ds)
unfolding value
value_pos base x ds k p = let q = mul-pos {m = base} (omega arith) p in omega arith

horner-value :
    (mul : ℕ) (ds xs : List ℕ) → horner mul (value mul ds) xs ≡ value mul (reverse xs ++ ds)
unfolding horner value
horner-value mul ds [] = refl
horner-value mul ds (x ∷ xs) =
    horner-value mul (x ∷ ds) xs
    ∙ ap (value mul) (sym (append_assoc (reverse xs) (x ∷ []) ds))
    ∙ ap (λ ys. value mul (ys ++ ds)) (sym (reverse-cons x xs))

IsCanonical-reverse :
    (base : ℕ) (ds xs : List ℕ)
    → All (λ x. x < base) xs
    → IsCanonical base ds
    → 0 < value base ds
    → IsCanonical base (reverse xs ++ ds)
IsCanonical-reverse base ds [] h c p = c
IsCanonical-reverse base ds (x ∷ xs) (k, h) c p =
    let more : 0 < value base (x ∷ ds) = value_pos base x ds k p in
    rw (reverse-cons x xs, append_assoc) (IsCanonical-reverse base (x ∷ ds) xs h (k, more, c) more)

-- A number whose first digit is not zero.
pub IsCanonical-reverse_cons :
    (base x : ℕ) (xs : List ℕ)
    → All (λ y. y < base) (x ∷ xs)
    → x ≢ 0
    → IsCanonical base (reverse (x ∷ xs))
IsCanonical-reverse_cons base x xs (k, h) ne =
    let more : 0 < value base (x ∷ []) = unfold value in omega arith in
    rw reverse-cons (IsCanonical-reverse base (x ∷ []) xs h (k, more, tt) more)

module _ (mul base : ℕ) (big : 2 ≤ base) where
  value-mul_add :
      (ds : List ℕ) (carry : ℕ)
      → value base (mul_add mul base ds carry) ≡ carry + mul * value base ds
  unfolding mul_add value
  value-mul_add [] carry = value-digits base carry carry big (le_refl carry) ∙ omega arith
  value-mul_add (d ∷ ds) carry =
      rw (value-mul_add ds ((carry + d * mul) / base))
        (omega (arith, div-add-mod (carry + d * mul) base))

  positive-mul_add :
      (ds : List ℕ) (carry : ℕ)
      → 0 < mul
      → 0 < value base ds
      → 0 < value base (mul_add mul base ds carry)
  positive-mul_add ds carry m p = let q = mul-pos m p in rw (value-mul_add ds carry) (omega arith)

  IsCanonical-mul_add :
      (ds : List ℕ) (carry : ℕ)
      → 0 < mul
      → IsCanonical base ds
      → IsCanonical base (mul_add mul base ds carry)
  unfolding mul_add
  IsCanonical-mul_add [] carry m h = IsCanonical-digits base carry carry big (le_refl carry)
  IsCanonical-mul_add (d ∷ ds) carry m (_, p, h) = (
    mod-lt (carry + d * mul) (omega arith),
    positive-mul_add (d ∷ ds) carry m p,
    IsCanonical-mul_add ds ((carry + d * mul) / base) m h,
  )

  value-convert :
      (ds xs : List ℕ) → value base (convert mul base ds xs) ≡ horner mul (value base ds) xs
  unfolding convert horner
  value-convert ds [] = refl
  value-convert ds (x ∷ xs) =
      value-convert (mul_add mul base ds x) xs ∙ ap (λ n. horner mul n xs) (value-mul_add ds x)

  pub IsCanonical-convert :
      (ds xs : List ℕ) → 0 < mul → IsCanonical base ds → IsCanonical base (convert mul base ds xs)
  unfolding convert
  IsCanonical-convert ds [] m h = h
  IsCanonical-convert ds (x ∷ xs) m h =
      IsCanonical-convert (mul_add mul base ds x) xs m (IsCanonical-mul_add ds x m h)

-- The result stands for the same number.
pub value-convert_lem :
    (mul base : ℕ) (xs : List ℕ)
    → 2 ≤ base
    → value base (convert mul base [] xs) ≡ value mul (reverse xs)
unfolding value
value-convert_lem mul base xs b =
    value-convert mul base b [] xs
    ∙ horner-value mul [] xs
    ∙ ap (value mul) (append-nil (reverse xs))

-- Converted to another base and back, a numeral is itself.
pub convert-convert :
    (a b : ℕ) (xs : List ℕ)
    → 2 ≤ a
    → 2 ≤ b
    → IsCanonical a (reverse xs)
    → convert b a [] (reverse (convert a b [] xs)) ≡ reverse xs
convert-convert a b xs p q h =
    canonical_unique a _ (reverse xs) (IsCanonical-convert b a p [] _ (omega arith) tt) h (
      value-convert_lem b a _ p
      ∙ ap (value b) (reverse-reverse (convert a b [] xs))
      ∙ value-convert_lem a b xs q)
