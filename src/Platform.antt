-- ===== src/Platform.antt =====
-- What the program uses of the JavaScript library to print and read numbers and text:
-- String(n), n.toString(16), padStart, parseInt(s, 16) into a Uint8Array, JSON.stringify of a string.
pub mod Digits
pub mod Quote
pub mod Base64
pub mod Json
pub mod BigNumber
pub mod Decimal
use widespread_logos.Prelude.{
  ℕ, zero, suc, ◌+◌, ◌-◌, ◌*◌, ◌/◌, ◌%◌, Bool, true, false, ◌&&◌, ◌||◌, Option, none, some, List,
  [], ◌∷◌, ◌++◌, Text, Bytes, codes, ltb, leb, ◌==◌, if◌then◌else◌, length, replicate,
}
use mathlib.Core.List.{reverse, map}
use widespread_logos.Platform.Digits.{digits}

unfoldable pub digit : ℕ → ℕ
digit d = if ltb d 10 then b'0' + d else b'a' + (d - 10)

-- `n.toString(base)`, for a whole number.
unfoldable pub to_radix : ℕ → ℕ → Text
unfolding digits digit
to_radix base n = if n == 0 then b'0' ∷ [] else map digit (reverse (digits base n n))

-- `String(n)`
unfoldable pub decimal : ℕ → Text
unfolding to_radix
decimal n = to_radix 10 n

-- `s.padStart(n, '0')`
unfoldable pub pad_start : ℕ → Text → Text
pad_start n s = replicate (n - length s) b'0' ++ s

-- `x.toString(16).padStart(2, '0')`
unfoldable pub hex_byte : ℕ → Text
unfolding to_radix pad_start
hex_byte x = pad_start 2 (to_radix 16 x)

-- The value of a hexadecimal digit, in either case.
unfoldable pub hex_value : ℕ → Option ℕ
hex_value u =
    if leb b'0' u && leb u b'9'
    then some (u - b'0')
    else if leb b'a' u && leb u b'f'
    then some (u - b'a' + 10)
    else if leb b'A' u && leb u b'F'
    then some (u - b'A' + 10)
    else none

-- The white space that parseInt skips.
unfoldable pub is_space : ℕ → Bool
is_space u =
    (leb 9 u && leb u 13)
    || (u == 32)
    || (u == 0xA0)
    || (u == 0x1680)
    || (leb 0x2000 u && leb u 0x200A)
    || (u == 0x2028)
    || (u == 0x2029)
    || (u == 0x202F)
    || (u == 0x205F)
    || (u == 0x3000)
    || (u == 0xFEFF)

unfoldable pub trim_start : Text → Text
trim_start [] = []
trim_start (u ∷ s) = if is_space u then trim_start s else u ∷ s

-- The longest run of digits at the front; no digit at all is NaN, which a Uint8Array stores as 0.
digits_value : ℕ → Text → ℕ
digits_value acc [] = acc
digits_value acc (u ∷ s) = elim (hex_value u) [
  | none ↦ acc
  | some v ↦ digits_value (acc * 16 + v) s
]

strip_prefix : Text → Text
strip_prefix [] = []
strip_prefix (a ∷ []) = a ∷ []
strip_prefix (a ∷ b ∷ s) = if a == b'0' && (b == b'x' || b == b'X') then s else a ∷ b ∷ s

parse_signed : Text → ℕ
unfolding digits_value strip_prefix hex_value
parse_signed [] = 0
parse_signed (u ∷ t) =
    if u == b'-'
    then (256 - digits_value 0 (strip_prefix t) % 256) % 256
    else if u == b'+'
    then digits_value 0 (strip_prefix t) % 256
    else digits_value 0 (strip_prefix (u ∷ t)) % 256

-- `out[i] = parseInt(s, 16)`: the sign, the prefix, and the value modulo 256.
unfoldable pub parse_hex : Text → ℕ
unfolding trim_start is_space parse_signed
parse_hex s = parse_signed (trim_start s)
