-- ===== src/Risc0.antt =====
-- sdk/registry/src/risc0.ts: the instruction encoder. The words of a WordWriter are the list that it
-- has written; a `number` field is a whole number, a `bigint` field an integer.
pub mod Layout
pub mod Hex
use widespread_logos.Prelude.{
  ℕ, zero, suc, ◌+◌, ◌*◌, ◌/◌, ◌%◌, ◌^◌, ◌≡◌, ◌≢◌, Bool, List, [], ◌∷◌, ◌++◌, map, Text, Bytes,
  codes, ℤ, shr, low_bits, length, Result, ok, err, message, ◌==◌, if◌then◌else◌,
}
use widespread_logos.Utf8.{utf8_encode}
use widespread_logos.Platform.{hex_byte}

mutual
  pub data R0Value : Type 0 where
    bool : Bool → R0Value
    u8 : ℕ → R0Value
    u16 : ℕ → R0Value
    u32 : ℕ → R0Value
    char : ℕ → R0Value
    u64 : ℤ → R0Value
    i64 : ℤ → R0Value
    u128 : ℤ → R0Value
    str : Text → R0Value
    bytes : Bytes → R0Value
    array : R0Values → R0Value
    seq : R0Values → R0Value
    option_none : R0Value
    option_some : R0Value → R0Value
    tuple : R0Values → R0Value
    variant : ℕ → R0Values → R0Value

  pub data R0Values : Type 0 where
    nil : R0Values
    cons : R0Value → R0Values → R0Values

unfoldable pub count : R0Values → ℕ
count nil = 0
count (cons v vs) = suc (count vs)

abbrev pub of_list : List R0Value → R0Values
of_list [] = nil
of_list (v ∷ vs) = cons v (of_list vs)

-- The constructors that the SDK exports.
unfoldable pub r0_bool : Bool → R0Value
r0_bool v = R0Value.bool v

unfoldable pub r0_u32 : ℕ → R0Value
r0_u32 v = R0Value.u32 v

unfoldable pub r0_u64 : ℤ → R0Value
r0_u64 v = R0Value.u64 v

unfoldable pub r0_str : Text → R0Value
r0_str v = R0Value.str v

unfoldable pub r0_bytes : Bytes → R0Value
r0_bytes v = R0Value.bytes v

unfoldable pub r0_array : R0Values → R0Value
r0_array vs = R0Value.array vs

-- `v.length !== 32` throws.
unfoldable pub r0_u8_array32 : Bytes → Result R0Value
r0_u8_array32 v =
    if length v == 32
    then ok (array (of_list (map u8 v)))
    else err (message (codes "expected 32 bytes"))

-- `WordWriter.push`: `w >>> 0`.
unfoldable pub push : List ℕ → ℕ → List ℕ
push words w = words ++ w % 2 ^ 32 ∷ []

-- `b0 | (b1 << 8) | (b2 << 16) | (b3 << 24)`, read as a uint32; the arguments are bytes.
unfoldable pub word_le : ℕ → ℕ → ℕ → ℕ → ℕ
word_le a b c d = a + 256 * b + 65536 * c + 16777216 * d

-- Four bytes to the word; a byte past the end is `undefined ?? 0`.
unfoldable pub push_bytes_padded : List ℕ → Bytes → List ℕ
unfolding push word_le
push_bytes_padded words [] = words
push_bytes_padded words (a ∷ []) = push words (word_le a 0 0 0)
push_bytes_padded words (a ∷ b ∷ []) = push words (word_le a b 0 0)
push_bytes_padded words (a ∷ b ∷ c ∷ []) = push words (word_le a b c 0)
push_bytes_padded words (a ∷ b ∷ c ∷ d ∷ rest) =
    push_bytes_padded (push words (word_le a b c d)) rest

-- `for (const b of v) w.push(b)`
unfoldable pub push_each : List ℕ → Bytes → List ℕ
unfolding push
push_each words [] = words
push_each words (b ∷ bs) = push_each (push words b) bs

-- The 16 bytes of a u128, the low one first: `k` are left, from byte `i` on.
unfoldable pub u128_bytes : ℕ → ℕ → ℤ → Bytes
u128_bytes zero i v = []
u128_bytes (suc k) i v = low_bits (shr v (8 * i)) 8 ∷ u128_bytes k (i + 1) v

unfoldable mutual
  unfolding push push_bytes_padded push_each u128_bytes count

  pub encode_into : List ℕ → R0Value → List ℕ
  encode_into w (bool b) = push w (if b then 1 else 0)
  encode_into w (u8 v) = push w v
  encode_into w (u16 v) = push w v
  encode_into w (u32 v) = push w v
  encode_into w (char v) = push w v
  encode_into w (u64 v) = push (push w (low_bits v 32)) (low_bits (shr v 32) 32)
  encode_into w (i64 v) = push (push w (low_bits v 32)) (low_bits (shr v 32) 32)
  encode_into w (u128 v) = push_bytes_padded w (u128_bytes 16 0 v)
  encode_into w (str s) = let b = utf8_encode s in push_bytes_padded (push w (length b)) b
  encode_into w (bytes b) = push_each (push w (length b)) b
  encode_into w (array vs) = encode_each w vs
  encode_into w (seq vs) = encode_each (push w (count vs)) vs
  encode_into w option_none = push w 0
  encode_into w (option_some v) = encode_into (push w 1) v
  encode_into w (tuple vs) = encode_each w vs
  encode_into w (variant index fields) = encode_each (push w index) fields

  -- `for (const el of v.v) encodeInto(w, el)`
  pub encode_each : List ℕ → R0Values → List ℕ
  encode_each w nil = w
  encode_each w (cons v vs) = encode_each (encode_into w v) vs

unfoldable pub encode_instruction : ℕ → List R0Value → List ℕ
unfolding encode_into encode_each
encode_instruction index args = encode_into [] (variant index (of_list args))

-- The four bytes of a word, as `wordsToHex` takes them.
unfoldable pub word_bytes : ℕ → Bytes
word_bytes w = w % 256 ∷ (w / 256) % 256 ∷ (w / 65536) % 256 ∷ (w / 16777216) % 256 ∷ []

unfoldable pub words_to_bytes : List ℕ → Bytes
unfolding word_bytes
words_to_bytes [] = []
words_to_bytes (w ∷ ws) = word_bytes w ++ words_to_bytes ws

-- `Array.from(b, (x) => …).join('')`
unfoldable pub bytes_to_hex : Bytes → Text
unfolding hex_byte
bytes_to_hex [] = []
bytes_to_hex (b ∷ bs) = hex_byte b ++ bytes_to_hex bs

unfoldable pub words_to_hex : List ℕ → Text
unfolding words_to_bytes bytes_to_hex
words_to_hex ws = bytes_to_hex (words_to_bytes ws)

unfoldable pub instruction_data_hex : ℕ → List R0Value → Text
unfolding encode_instruction words_to_hex
instruction_data_hex index args = words_to_hex (encode_instruction index args)
