-- ===== src/Platform/Decimal.antt =====
-- Numbers printed in decimal: their digits, and that two numbers do not print alike.
use widespread_logos.Prelude.{
  ℕ, ◌-◌, ◌<◌, ◌≡◌, refl, ap, ◌∙◌, sym, false, List, [], ◌∷◌, map, Text, All, All-reverse, ◌⊎◌,
  ◌==◌, arith, Bool-cases, inl, inr, ==_iff,
}
use mathlib.Core.List.{reverse, reverse-reverse}
use widespread_logos.Platform.{decimal, digit, to_radix}
use widespread_logos.Platform.Digits.{digits, value, value-digits, IsCanonical, IsCanonical-digits}

canonical-below : (ds : List ℕ) → IsCanonical 10 ds → All (λ d. d < 10) ds
canonical-below [] h = tt
canonical-below (d ∷ ds) (small, _, h) = (small, canonical-below ds h)

-- The number that a text of digits writes.
text_value : Text → ℕ
unfolding value
text_value s = value 10 (reverse (map (λ u. u - b'0') s))

digits-undigit : (ds : List ℕ) → All (λ d. d < 10) ds → map (λ u. u - b'0') (map digit ds) ≡ ds
unfolding digit
digits-undigit [] h = refl
digits-undigit (d ∷ ds) (small, h) = rw (digits-undigit ds h) (ground arith)

map-plain : (ds : List ℕ) → All (λ d. d < 10) ds → All (λ u. (u == b'-') ≡ false) (map digit ds)
unfolding digit
map-plain [] h = tt
map-plain (d ∷ ds) (small, h) = (ground arith, map-plain ds h)

decimal-cases :
    (n : ℕ) → (decimal n ≡ b'0' ∷ []) × (n ≡ 0) ⊎ (decimal n ≡ map digit (reverse (digits 10 n n)))
unfolding decimal to_radix
decimal-cases n = elim (Bool-cases (n == 0)) [
  | inl z ↦ inl (rw z refl, (==_iff n 0).0 z)
  | inr z ↦ inr (rw z refl)
]

digits-small : (n : ℕ) → All (λ d. d < 10) (reverse (digits 10 n n))
digits-small n =
    All-reverse (λ d. d < 10) (digits 10 n n)
      (canonical-below (digits 10 n n) (IsCanonical-digits 10 n n (omega arith) (omega arith)))

text_value-decimal : (n : ℕ) → text_value (decimal n) ≡ n
unfolding text_value value
text_value-decimal n = elim (decimal-cases n) [
  | inl (zero_text, z) ↦ rw (zero_text, z) refl
  | inr printed ↦
      rw (printed, digits-undigit (reverse (digits 10 n n)) (digits-small n), reverse-reverse)
        (value-digits 10 n n (omega arith) (omega arith))
]

-- The digits of a number are no dashes.
pub decimal-plain : (n : ℕ) → All (λ u. (u == b'-') ≡ false) (decimal n)
decimal-plain n = elim (decimal-cases n) [
  | inl (zero_text, z) ↦ rw zero_text (refl, tt)
  | inr printed ↦ rw printed (map-plain (reverse (digits 10 n n)) (digits-small n))
]

pub decimal-inj : (m n : ℕ) → decimal m ≡ decimal n → m ≡ n
decimal-inj m n same = sym (text_value-decimal m) ∙ ap text_value same ∙ text_value-decimal n
