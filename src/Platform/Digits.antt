-- ===== src/Platform/Digits.antt =====
-- Little-endian digits of a number in a base, and the number that digits stand for.
use widespread_logos.Prelude.{
  ℕ, zero, suc, ◌+◌, ◌*◌, ◌/◌, ◌%◌, ◌<◌, ◌≤◌, ◌≡◌, ◌≢◌, refl, ap, List, [], ◌∷◌, ◌==◌,
  if◌then◌else◌, arith, Bool-cases, inl, inr, ==_iff,
}
use native.Mathlib.Nat.{div-lt_self, div-add-mod, mod-lt, pos_of_ne-zero}

-- `while (n > 0) { push(n % base); n = n / base }`, with fuel.
unfoldable pub digits : ℕ → ℕ → ℕ → List ℕ
digits base zero n = []
digits base (suc f) n =
    let rest = digits base f (n / base) in if n == 0 then [] else (n % base) ∷ rest

unfoldable pub value : ℕ → List ℕ → ℕ
value base [] = 0
value base (d ∷ ds) = d + base * value base ds

-- Division by the base determines both parts.
digit_unique :
    (base d v e w : ℕ) → d < base → e < base → d + base * v ≡ e + base * w → (d ≡ e) × (v ≡ w)
digit_unique base d zero e zero p q h = (omega arith, refl)
digit_unique base d zero e (suc w) p q h = absurd (omega arith)
digit_unique base d (suc v) e zero p q h = absurd (omega arith)
digit_unique base d (suc v) e (suc w) p q h =
    let (a, b) = digit_unique base d v e w p q (omega arith) in (a, ap suc b)

-- Digits below the base, the most significant of them not zero.
abbrev pub IsCanonical : ℕ → List ℕ → Type 0
IsCanonical base [] = Unit
IsCanonical base (d ∷ ds) = (d < base) × (0 < value base (d ∷ ds)) × IsCanonical base ds

pub canonical_unique :
    (base : ℕ) (ds es : List ℕ)
    → IsCanonical base ds
    → IsCanonical base es
    → value base ds ≡ value base es
    → ds ≡ es
unfolding value
canonical_unique base [] [] h k e = refl
canonical_unique base [] (d ∷ es) h k e = absurd (omega arith)
canonical_unique base (d ∷ ds) [] h k e = absurd (omega arith)
canonical_unique base (d ∷ ds) (c ∷ es) h k e =
    let (p, q) = digit_unique base d (value base ds) c (value base es) h.0 k.0 e in
    cc (p, canonical_unique base ds es h.2 k.2 q)

-- The head is a digit, and what is left is smaller.
div_facts :
    (base f n : ℕ)
    → 2 ≤ base
    → n ≤ suc f
    → n ≢ 0
    → (n % base < base) × (n % base + base * (n / base) ≡ n) × (n / base ≤ f)
div_facts base f n b h ne =
    let smaller : n / base < n = div-lt_self (omega arith) b in
    (mod-lt n (omega arith), omega (arith, div-add-mod n base), omega arith)

-- With a base of at least two and fuel of at least the number, the digits have its value.
pub value-digits : (base f n : ℕ) → 2 ≤ base → n ≤ f → value base (digits base f n) ≡ n
unfolding value digits
value-digits base zero n b h = omega arith
value-digits base (suc f) n b h = elim (Bool-cases (n == 0)) [
  | inl z ↦ rw z (omega (arith, (==_iff n 0).0 z))
  | inr z ↦
      let (_, whole, small) = div_facts base f n b h (λ e. cc (z, (==_iff n 0).1 e)) in
      rw (z, value-digits base f (n / base) b small) whole
]

pub IsCanonical-digits : (base f n : ℕ) → 2 ≤ base → n ≤ f → IsCanonical base (digits base f n)
unfolding digits value
IsCanonical-digits base zero n b h = tt
IsCanonical-digits base (suc f) n b h = elim (Bool-cases (n == 0)) [
  | inl z ↦ rw z tt
  | inr z ↦
      let ne : n ≢ 0 = λ e. cc (z, (==_iff n 0).1 e) in
      let (digit, whole, small) = div_facts base f n b h ne in
      rw z (
        digit,
        rw (value-digits base f (n / base) b small, whole) (pos_of_ne-zero ne),
        IsCanonical-digits base f (n / base) b small,
      )
]
