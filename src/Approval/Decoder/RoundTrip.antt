-- ===== src/Approval/Decoder/RoundTrip.antt =====
-- Decoding what the encoder of risc0.ts wrote.
use widespread_logos.Prelude.{
  ℕ, ◌/◌, ◌%◌, ◌^◌, ◌<◌, true, false, List, [], ◌∷◌, ◌++◌, Text, Bytes, All, length, take, arith,
  ◌≡◌, refl, ap, ◌∙◌, ok, pos,
}
use mathlib.Core.List.{append_assoc}
use native.Mathlib.Nat.{mod-eq_of_lt}
use widespread_logos.Utf8.{utf8_encode, IsPlain}
use widespread_logos.Utf8.RoundTrip.{utf8_decode-utf8_encode, utf8_encode-IsByte, IsByte}
use widespread_logos.Platform.{decimal}
use widespread_logos.Platform.Quote.{json_quote}
use widespread_logos.Prelude.Errors.{◌>>=◌}
use widespread_logos.Risc0.{R0Value, R0Values, count, word_le, word_bytes, u128_bytes}
use widespread_logos.Risc0.Layout.{layout, layouts, packed, word}
use widespread_logos.Approval.Decoder.{
  IdlType, decode_string, reader_bytes, truncate, decode_many, decode_u64, decode_u128,
  decode_value,
}
use widespread_logos.Approval.Decoder.Describes.{
  Describes, DescribesAll, a_bool, a_u8, a_u16, a_u32, a_char, a_u64, an_i64, a_u128, a_string,
  an_array, a_vec, a_none, a_some, none as no_values, more,
}

-- A packed word gives its four bytes back.
word_bytes-word_le :
    (a b c d : ℕ)
    → IsByte a
    → IsByte b
    → IsByte c
    → IsByte d
    → word_bytes (word_le a b c d % 2 ^ 32) ≡ a ∷ b ∷ c ∷ d ∷ []
unfolding word_bytes word_le
word_bytes-word_le a b c d p q r s = ground arith

-- What was packed is read back, and the reader stands behind it.
reader_bytes-packed :
    (b : Bytes) (rest : List ℕ)
    → All IsByte b
    → reader_bytes (length b) (packed b ++ rest) ≡ ok (b, rest)
unfolding reader_bytes packed
reader_bytes-packed [] rest h = refl
reader_bytes-packed (a ∷ []) rest h =
    ap (λ x. ok (take 1 x, rest))
      (word_bytes-word_le a 0 0 0 h.0 (omega arith) (omega arith) (omega arith))
reader_bytes-packed (a ∷ b ∷ []) rest h =
    ap (λ x. ok (take 2 x, rest)) (word_bytes-word_le a b 0 0 h.0 h.1.0 (omega arith) (omega arith))
reader_bytes-packed (a ∷ b ∷ c ∷ []) rest h =
    ap (λ x. ok (take 3 x, rest)) (word_bytes-word_le a b c 0 h.0 h.1.0 h.1.1.0 (omega arith))
reader_bytes-packed (a ∷ b ∷ c ∷ d ∷ bs) rest (p, (q, (r, (t, h)))) =
    ap (λ x. reader_bytes (length bs) (packed bs ++ rest) >>= λ (out, left). ok (x ++ out, left))
      (word_bytes-word_le a b c d p q r t)
    ∙ ap (λ m. m >>= λ (out, left). ok (a ∷ b ∷ c ∷ d ∷ out, left)) (reader_bytes-packed bs rest h)

decode_u64-layout :
    (n : ℕ) (rest : List ℕ)
    → n < 2 ^ 64
    → decode_u64 (n % 2 ^ 32 ∷ n / 2 ^ 32 % 2 ^ 32 ∷ rest) ≡ ok (decimal n, rest)
unfolding decode_u64
decode_u64-layout n rest h = ap (λ x. ok (decimal x, rest)) (omega arith)

-- Four bytes of a number make one word of it.
word_of_value :
    (n : ℕ)
    → word (word_le (n % 256) (n / 2 ^ 8 % 256) (n / 2 ^ 16 % 256) (n / 2 ^ 24 % 256)) ≡ n % 2 ^ 32
unfolding word_le
word_of_value n = omega arith

decode_u128-layout :
    (n : ℕ) (rest : List ℕ)
    → n < 2 ^ 128
    → decode_u128 (packed (u128_bytes 16 0 (pos n)) ++ rest) ≡ ok (decimal n, rest)
unfolding decode_u128 packed u128_bytes
decode_u128-layout n rest h = ap (λ x. ok (decimal x, rest)) (omega arith)

decode_string-layout :
    (s : Text) (rest : List ℕ)
    → IsPlain s
    → length (utf8_encode s) < 2 ^ 32
    → decode_string (word (length (utf8_encode s)) ∷ packed (utf8_encode s) ++ rest)
      ≡ ok (json_quote (truncate 120 s), rest)
unfolding decode_string
decode_string-layout s rest p h =
    rw (mod-eq_of_lt h, reader_bytes-packed (utf8_encode s) rest (utf8_encode-IsByte s p))
      (rw (utf8_decode-utf8_encode s p))

mutual
  unfolding decode_value layout decode_many

  decode_value_lem :
      {t : IdlType} {v : R0Value} {s : Text}
      → Describes t v s
      → (rest : List ℕ) → decode_value t (layout v ++ rest) ≡ ok (s, rest)
  decode_value_lem (a_bool true) rest = refl
  decode_value_lem (a_bool false) rest = refl
  decode_value_lem (a_u8 n h) rest = rw (mod-eq_of_lt h)
  decode_value_lem (a_u16 n h) rest = rw (mod-eq_of_lt h)
  decode_value_lem (a_u32 n h) rest = rw (mod-eq_of_lt h)
  decode_value_lem (a_char n h) rest = rw (mod-eq_of_lt h)
  decode_value_lem (a_u64 n h) rest = decode_u64-layout n rest h
  decode_value_lem (an_i64 n h) rest = decode_u64-layout n rest h
  decode_value_lem (a_u128 n h) rest = decode_u128-layout n rest h
  decode_value_lem (a_string s p h) rest = decode_string-layout s rest p h
  decode_value_lem (an_array {t} {vs} {shown} d) rest = rw (decode_many_lem d rest)
  decode_value_lem (a_vec {t} {vs} h d) rest = rw (mod-eq_of_lt h, decode_many_lem d rest)
  decode_value_lem a_none rest = refl
  decode_value_lem (a_some {t} {v} d) rest = rw (decode_value_lem d rest)

  decode_many_lem :
      {t : IdlType} {vs : R0Values} {shown : List Text}
      → DescribesAll t vs shown
      → (rest : List ℕ)
      → decode_many (decode_value t) (count vs) (layouts vs ++ rest) ≡ ok (shown, rest)
  decode_many_lem no_values rest = refl
  decode_many_lem (more {v} {vs} d ds) rest =
      rw (append_assoc (layout v) (layouts vs) rest, decode_value_lem d (layouts vs ++ rest))
        (rw (decode_many_lem ds rest))

-- A value is shown as its type says, and what follows it is left for the next reader.
pub decode_value-layout :
    {t : IdlType} {v : R0Value} {s : Text} (rest : List ℕ)
    → Describes t v s
    → decode_value t (layout v ++ rest) ≡ ok (s, rest)
decode_value-layout rest d = decode_value_lem d rest
