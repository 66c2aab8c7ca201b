-- ===== src/Onboarding/Pointer.antt =====
-- What publishPointer sends is what the SDK encodes, and what the chain then holds is what the resolver
-- reads.
use widespread_logos.Prelude.{
  ℕ, ◌+◌, ◌/◌, ◌%◌, ◌^◌, ◌≤◌, ◌<◌, ◌≡◌, refl, sym, ap, ◌∙◌, some, List, [], ◌∷◌, ◌++◌, Text, Bytes,
  pos, length, take, drop, length-append, take-append, drop-append, false, ltb, arith,
}
use mathlib.Core.List.{append-nil, append_assoc}
use widespread_logos.Utf8.{utf8_encode, IsPlain}
use widespread_logos.Utf8.RoundTrip.{utf8_decode-utf8_encode}
use widespread_logos.Risc0.{
  R0Value, of_list, word_le, word_bytes, words_to_bytes, bytes_to_hex, words_to_hex,
  instruction_data_hex,
}
use widespread_logos.Risc0.Layout.{word, packed, layout, layouts, encode_instruction-layout}
use widespread_logos.Registry.Entry.Borsh.{le_bytes, borsh_str, int_of_bytes}
use widespread_logos.Onboarding.{
  chunk_words, text_words, publish_data_hex, length_field, too_short, value_slice, record_value,
}

-- The bytes of a word do not see what lies above 32 bits.
word_bytes-word : (w : ℕ) → word_bytes w ≡ word_bytes (word w)
unfolding word_bytes
word_bytes-word w =
    let e0 : w % 256 ≡ w % 2 ^ 32 % 256 = omega arith in
    let e1 : w / 256 % 256 ≡ w % 2 ^ 32 / 256 % 256 = omega arith in
    let e2 : w / 65536 % 256 ≡ w % 2 ^ 32 / 65536 % 256 = omega arith in
    let e3 : w / 16777216 % 256 ≡ w % 2 ^ 32 / 16777216 % 256 = omega arith in
    λ i. e0 i ∷ e1 i ∷ e2 i ∷ e3 i ∷ []

words_to_bytes-append :
    (v w : List ℕ) → words_to_bytes (v ++ w) ≡ words_to_bytes v ++ words_to_bytes w
unfolding words_to_bytes
words_to_bytes-append [] w = refl
words_to_bytes-append (x ∷ v) w =
    ap (word_bytes x ++◌) (words_to_bytes-append v w)
    ∙ sym (append_assoc (word_bytes x) (words_to_bytes v) (words_to_bytes w))

chunk_words-packed : (b : Bytes) → words_to_bytes (chunk_words b) ≡ words_to_bytes (packed b)
unfolding words_to_bytes chunk_words packed
chunk_words-packed [] = refl
chunk_words-packed (a ∷ []) = ap (λ t. t ++ []) (word_bytes-word (word_le a 0 0 0))
chunk_words-packed (a ∷ b ∷ []) = ap (λ t. t ++ []) (word_bytes-word (word_le a b 0 0))
chunk_words-packed (a ∷ b ∷ c ∷ []) = ap (λ t. t ++ []) (word_bytes-word (word_le a b c 0))
chunk_words-packed (a ∷ b ∷ c ∷ d ∷ rest) =
    λ i. word_bytes-word (word_le a b c d) i ++ chunk_words-packed rest i

text_words-layout :
    (s : Text) → words_to_bytes (text_words s) ≡ words_to_bytes (layout (R0Value.str s))
unfolding text_words layout words_to_bytes
text_words-layout s =
    λ i. word_bytes-word (length (utf8_encode s)) i ++ chunk_words-packed (utf8_encode s) i

two_texts :
    (key value : Text)
    → words_to_bytes (text_words key ++ text_words value)
      ≡ words_to_bytes (layouts (of_list (R0Value.str key ∷ R0Value.str value ∷ [])))
unfolding layouts
two_texts key value =
    words_to_bytes-append (text_words key) (text_words value)
    ∙ (λ i. text_words-layout key i ++ text_words-layout value i)
    ∙ sym (words_to_bytes-append (layout (R0Value.str key)) (layout (R0Value.str value)))
    ∙ ap (λ t. words_to_bytes (layout (R0Value.str key) ++ t))
        (sym (append-nil (layout (R0Value.str value))))

-- The call data that publishPointer writes out by hand is the SDK's encoding of variant 0 with the key
-- and the value as its two strings.
pub publish_data_hex-instruction_data_hex :
    (key value : Text)
    → publish_data_hex key value ≡ instruction_data_hex 0 (R0Value.str key ∷ R0Value.str value ∷ [])
unfolding publish_data_hex instruction_data_hex words_to_hex words_to_bytes
publish_data_hex-instruction_data_hex key value =
    rw (encode_instruction-layout 0 (R0Value.str key ∷ R0Value.str value ∷ []))
      (ap (λ t. bytes_to_hex (word_bytes 0 ++ t)) (two_texts key value))

length_field-le_bytes :
    (n : ℕ) (rest : Bytes) → n < 2 ^ 31 → length_field (le_bytes 4 n ++ rest) ≡ pos n
unfolding length_field
length_field-le_bytes n rest small = int_of_bytes n small

long_enough : (size n : ℕ) → 36 + n ≤ size → too_short size (pos n) ≡ false
unfolding too_short
long_enough size n h = ground arith

value_slice-pos :
    (bytes text : Bytes) → drop 36 bytes ≡ text → value_slice bytes (pos (length text)) ≡ text
unfolding value_slice
value_slice-pos bytes text tail =
    ap (take (length text)) (tail ∙ sym (append-nil text)) ∙ take-append text [] (length text) refl

-- The account data that the pointer program writes for a value resolves to the value: a publisher of 32
-- bytes, then the borsh string of a text that UTF-8 carries and whose length is below 2 ^ 31.
pub record_value-borsh_str :
    (publisher : Bytes) (value : Text)
    → length publisher ≡ 32
    → IsPlain value
    → length (utf8_encode value) < 2 ^ 31
    → record_value (publisher ++ borsh_str value) ≡ some value
unfolding record_value
record_value-borsh_str publisher value h plain small =
    let text = utf8_encode value in
    let n = length text in
    let front = le_bytes 4 n in
    let size : ltb (length (publisher ++ borsh_str value)) 36 ≡ false =
      ground (arith, length-append publisher (borsh_str value), length-append front text) in
    let enough : too_short (length (publisher ++ borsh_str value)) (pos n) ≡ false =
      long_enough (length (publisher ++ borsh_str value)) n
        (omega (arith, length-append publisher (borsh_str value), length-append front text)) in
    let len : length_field (drop 32 (publisher ++ borsh_str value)) ≡ pos n =
      ap length_field (drop-append publisher (borsh_str value) 32 (sym h))
      ∙ length_field-le_bytes n text small in
    let tail : drop 36 (publisher ++ borsh_str value) ≡ text =
      ap (drop 36) (sym (append_assoc publisher front text))
      ∙ drop-append (publisher ++ front) text 36 (omega (arith, length-append publisher front)) in
    let run : value_slice (publisher ++ borsh_str value) (pos n) ≡ text =
      value_slice-pos (publisher ++ borsh_str value) text tail in
    rw (size, len, enough, run) (ap some (utf8_decode-utf8_encode value plain))
