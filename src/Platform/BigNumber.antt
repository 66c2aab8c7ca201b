-- ===== src/Platform/BigNumber.antt =====
-- BigInt(s) of a text, and toString and division of a BigInt.
use widespread_logos.Prelude.{
  ℕ, zero, suc, ◌+◌, ◌*◌, ◌/◌, Bool, true, ◌||◌, Option, none, some, [], ◌∷◌, Text, ltb, ◌==◌,
  if◌then◌else◌, ℤ, pos, negsuc, Result, ok, err, syntax_error,
}
use mathlib.Core.List.{reverse}
use widespread_logos.Platform.{decimal, hex_value, trim_start}

-- The white space at both ends is dropped.
unfoldable pub trim : Text → Text
trim s = reverse (trim_start (reverse (trim_start s)))

-- The number that digits of a base write; no other character may stand among them.
unfoldable pub digits_of : ℕ → ℕ → Text → Option ℕ
unfolding hex_value
digits_of base acc [] = some acc
digits_of base acc (u ∷ s) = elim (hex_value u) [
  | none ↦ none
  | some v ↦ if ltb v base then digits_of base (acc * base + v) s else none
]

-- At least one digit.
unfoldable pub number_of : ℕ → Text → Option ℕ
unfolding digits_of
number_of base [] = none
number_of base (u ∷ s) = digits_of base 0 (u ∷ s)

negative : ℕ → ℤ
negative zero = pos 0
negative (suc n) = negsuc n

read_as : (ℕ → ℤ) → Option ℕ → Result ℤ
read_as sign none = err syntax_error
read_as sign (some n) = ok (sign n)

prefixed : ℕ → Text → Result ℤ
unfolding read_as number_of
prefixed u s =
    if u == b'x' || u == b'X'
    then read_as pos (number_of 16 s)
    else if u == b'o' || u == b'O'
    then read_as pos (number_of 8 s)
    else if u == b'b' || u == b'B'
    then read_as pos (number_of 2 s)
    else read_as pos (number_of 10 (b'0' ∷ u ∷ s))

trimmed : Text → Result ℤ
unfolding prefixed read_as number_of negative
trimmed [] = ok (pos 0)
trimmed (u ∷ []) = read_as pos (number_of 10 (u ∷ []))
trimmed (u ∷ v ∷ s) =
    if u == b'0'
    then prefixed v s
    else if u == b'-'
    then read_as negative (number_of 10 (v ∷ s))
    else if u == b'+'
    then read_as pos (number_of 10 (v ∷ s))
    else read_as pos (number_of 10 (u ∷ v ∷ s))

-- `BigInt(s)`
unfoldable pub big_int : Text → Result ℤ
unfolding trim trimmed
big_int s = trimmed (trim s)

-- `n.toString()`
unfoldable pub big_text : ℤ → Text
unfolding decimal
big_text (pos n) = decimal n
big_text (negsuc n) = b'-' ∷ decimal (n + 1)

-- `n / d`, rounded toward zero, for a positive d.
unfoldable pub big_div : ℤ → ℕ → ℤ
unfolding negative
big_div (pos n) d = pos (n / d)
big_div (negsuc n) d = negative ((n + 1) / d)

-- `n < d`
unfoldable pub big_less : ℤ → ℕ → Bool
big_less (pos n) d = ltb n d
big_less (negsuc n) d = true
