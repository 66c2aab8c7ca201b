-- ===== src/Risc0/Hex.antt =====
-- The hexadecimal form of the words, read back by `parseInt` two characters at a time.
use widespread_logos.Prelude.{
  ℕ, ◌/◌, ◌%◌, ◌^◌, ◌<◌, ◌≡◌, refl, [], ◌∷◌, true, false, Text, Bytes, All, All-append, arith,
  text_eq, text_eq_iff, all_below, all_below_sound, ◌==◌, ==_iff, ℤ, pos, negsuc, low_bits, shr,
  map,
}
use widespread_logos.Platform.{hex_byte, digit, parse_hex}
use widespread_logos.Risc0.{
  R0Value, R0Values, bool, u8, u16, u32, char, u64, i64, u128, str, bytes, array, seq, option_none,
  option_some, tuple, variant, nil, cons, u128_bytes,
}
use widespread_logos.Risc0.Layout.{layout, layouts, packed, word}

abbrev two_digits : ℕ → Text
two_digits b = digit (b / 16) ∷ digit (b % 16) ∷ []

hex_byte_table : all_below 256 (λ b. text_eq (hex_byte b) (two_digits b)) ≡ true
unfolding all_below hex_byte digit
hex_byte_table = refl

parse_hex_table : all_below 256 (λ b. parse_hex (two_digits b) == b) ≡ true
unfolding all_below parse_hex digit
parse_hex_table = refl

-- A byte is written with two digits, and `parseInt` reads them back.
pub hex_byte-two_digits : (b : ℕ) → b < 256 → hex_byte b ≡ two_digits b
hex_byte-two_digits b h = (text_eq_iff _ _).0 (all_below_sound 256 _ b hex_byte_table h)

pub parse_hex-two_digits : (b : ℕ) → b < 256 → parse_hex (two_digits b) ≡ b
parse_hex-two_digits b h = (==_iff _ b).0 (all_below_sound 256 _ b parse_hex_table h)

abbrev pub IsWord : ℕ → Type 0
IsWord w = w < 2 ^ 32

low_bits-IsWord : (v : ℤ) → IsWord (low_bits v 32)
low_bits-IsWord (pos n) = omega arith
low_bits-IsWord (negsuc n) = omega arith

packed-IsWord : (b : Bytes) → All IsWord (packed b)
unfolding packed
packed-IsWord [] = tt
packed-IsWord (a ∷ []) = (omega arith, tt)
packed-IsWord (a ∷ b ∷ []) = (omega arith, tt)
packed-IsWord (a ∷ b ∷ c ∷ []) = (omega arith, tt)
packed-IsWord (a ∷ b ∷ c ∷ d ∷ bs) = (omega arith, packed-IsWord bs)

map-word-IsWord : (b : Bytes) → All IsWord (map word b)
map-word-IsWord [] = tt
map-word-IsWord (b ∷ bs) = (omega arith, map-word-IsWord bs)

mutual
  unfolding layout

  layout-IsWord : (v : R0Value) → All IsWord (layout v)
  layout-IsWord (bool true) = (omega arith, tt)
  layout-IsWord (bool false) = (omega arith, tt)
  layout-IsWord (u8 v) = (omega arith, tt)
  layout-IsWord (u16 v) = (omega arith, tt)
  layout-IsWord (u32 v) = (omega arith, tt)
  layout-IsWord (char v) = (omega arith, tt)
  layout-IsWord (u64 v) = (low_bits-IsWord v, (low_bits-IsWord (shr v 32), tt))
  layout-IsWord (i64 v) = (low_bits-IsWord v, (low_bits-IsWord (shr v 32), tt))
  layout-IsWord (u128 v) = packed-IsWord (u128_bytes 16 0 v)
  layout-IsWord (str s) = (omega arith, packed-IsWord _)
  layout-IsWord (bytes b) = (omega arith, map-word-IsWord b)
  layout-IsWord (array vs) = layouts-IsWord vs
  layout-IsWord (seq vs) = (omega arith, layouts-IsWord vs)
  layout-IsWord option_none = (omega arith, tt)
  layout-IsWord (option_some v) = (omega arith, layout-IsWord v)
  layout-IsWord (tuple vs) = layouts-IsWord vs
  layout-IsWord (variant index fields) = (omega arith, layouts-IsWord fields)

  -- Whatever the value, the encoder writes words of 32 bits.
  pub layouts-IsWord : (vs : R0Values) → All IsWord (layouts vs)
  layouts-IsWord nil = tt
  layouts-IsWord (cons v vs) =
      All-append IsWord (layout v) (layouts vs) (layout-IsWord v) (layouts-IsWord vs)
