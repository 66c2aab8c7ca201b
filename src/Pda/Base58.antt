-- ===== src/Pda/Base58.antt =====
-- base58Encode and base58Decode. The digit array is little-endian; its numbers stay below 2 ^ 15, so
-- `<<`, `>>`, `& 0xff` and `| 0` are the arithmetic written here.
pub mod Radix
pub mod RoundTrip
use widespread_logos.Prelude.{
  ℕ, zero, suc, ◌+◌, ◌*◌, ◌/◌, ◌%◌, Option, none, some, List, [], ◌∷◌, ◌++◌, Text, Bytes, codes,
  replicate, get_elem?, Result, ok, err, message, ◌==◌, if◌then◌else◌,
}
use mathlib.Core.Option
use mathlib.Core.List.{reverse}
use widespread_logos.Platform.Digits.{digits}

-- One round of the outer loop: the digits times `mul`, plus `carry`; the carry that is left over is
-- pushed digit by digit.
unfoldable pub mul_add : ℕ → ℕ → List ℕ → ℕ → List ℕ
unfolding digits
mul_add mul base [] carry = digits base carry carry
mul_add mul base (d ∷ ds) carry =
    let c = carry + d * mul in c % base ∷ mul_add mul base ds (c / base)

unfoldable pub alphabet : Text
alphabet = codes "123456789ABCDEFGHJKLMNPQRSTUVWXYZabcdefghijkmnopqrstuvwxyz"

-- `B58_ALPHABET[d]`, appended to a string.
unfoldable pub b58_char : ℕ → Text
unfolding alphabet
b58_char d = elim (get_elem? alphabet d) [ some c ↦ c ∷ [] | none ↦ codes "undefined" ]

position : ℕ → ℕ → Text → Option ℕ
position u i [] = none
position u i (c ∷ cs) = if c == u then some i else position u (i + 1) cs

-- `B58_INDEX.get(c)`
unfoldable pub b58_index : ℕ → Option ℕ
unfolding position alphabet
b58_index u = position u 0 alphabet

-- The leading elements equal to `x`, and what follows them.
unfoldable pub leading : ℕ → List ℕ → ℕ
leading x [] = 0
leading x (y ∷ ys) = if y == x then suc (leading x ys) else 0

unfoldable pub after_leading : ℕ → List ℕ → List ℕ
after_leading x [] = []
after_leading x (y ∷ ys) = if y == x then after_leading x ys else y ∷ ys

unfoldable pub b58_digits : List ℕ → Bytes → List ℕ
unfolding mul_add
b58_digits ds [] = ds
b58_digits ds (b ∷ bs) = b58_digits (mul_add 256 58 ds b) bs

unfoldable pub b58_text : List ℕ → Text
unfolding b58_char
b58_text [] = []
b58_text (d ∷ ds) = b58_char d ++ b58_text ds

unfoldable pub base58_encode : Bytes → Text
unfolding leading after_leading b58_digits b58_text
base58_encode bytes =
    replicate (leading 0 bytes) b'1' ++ b58_text (reverse (b58_digits [] (after_leading 0 bytes)))

invalid_char : ℕ → Text
invalid_char u = codes "invalid base58 char '" ++ (u ∷ codes "'")

unfoldable pub b58_bytes : List ℕ → Text → Result (List ℕ)
unfolding mul_add b58_index invalid_char
b58_bytes bs [] = ok bs
b58_bytes bs (u ∷ s) = elim (b58_index u) [
  | none ↦ err (message (invalid_char u))
  | some v ↦ b58_bytes (mul_add 58 256 bs v) s
]

finish_decode : ℕ → Result (List ℕ) → Result Bytes
finish_decode ones (ok bs) = ok (replicate ones 0 ++ reverse bs)
finish_decode ones (err e) = err e

unfoldable pub base58_decode : Text → Result Bytes
unfolding leading after_leading b58_bytes finish_decode
base58_decode s = finish_decode (leading b'1' s) (b58_bytes [] (after_leading b'1' s))
