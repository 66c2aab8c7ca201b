-- ===== src/Risc0/Layout.antt =====
-- The word layout that the comment of risc0.ts lists, as a function of the value alone, and that the
-- writer produces it.
use widespread_logos.Prelude.{
  ℕ, ◌<◌, ℤ, pos, negsuc, arith, true, false, ◌%◌, ◌^◌, ◌≡◌, refl, ◌∙◌, sym, ap, List, [], ◌∷◌,
  ◌++◌, map, Bytes, shr, low_bits, length, if◌then◌else◌,
}
use mathlib.Core.List.{append-nil, append_assoc}
use native.Mathlib.Nat.{mod-eq_of_lt}
use widespread_logos.Utf8.{utf8_encode}
use widespread_logos.Risc0.{
  R0Value, R0Values, bool, u8, u16, u32, char, u64, i64, u128, str, bytes, array, seq, option_none,
  option_some, tuple, variant, nil, cons, count, push, word_le, push_bytes_padded, push_each,
  u128_bytes, encode_into, encode_each, of_list, encode_instruction,
}

abbrev pub word : ℕ → ℕ
word w = w % 2 ^ 32

-- Bytes packed four to a little-endian word, padded with zeros.
unfoldable pub packed : Bytes → List ℕ
unfolding word_le
packed [] = []
packed (a ∷ []) = word (word_le a 0 0 0) ∷ []
packed (a ∷ b ∷ []) = word (word_le a b 0 0) ∷ []
packed (a ∷ b ∷ c ∷ []) = word (word_le a b c 0) ∷ []
packed (a ∷ b ∷ c ∷ d ∷ rest) = word (word_le a b c d) ∷ packed rest

unfoldable mutual
  unfolding packed u128_bytes count

  pub layout : R0Value → List ℕ
  layout (bool b) = (if b then 1 else 0) ∷ []
  layout (u8 v) = word v ∷ []
  layout (u16 v) = word v ∷ []
  layout (u32 v) = word v ∷ []
  layout (char v) = word v ∷ []
  layout (u64 v) = low_bits v 32 ∷ low_bits (shr v 32) 32 ∷ []
  layout (i64 v) = low_bits v 32 ∷ low_bits (shr v 32) 32 ∷ []
  layout (u128 v) = packed (u128_bytes 16 0 v)
  layout (str s) = word (length (utf8_encode s)) ∷ packed (utf8_encode s)
  layout (bytes b) = word (length b) ∷ map word b
  layout (array vs) = layouts vs
  layout (seq vs) = word (count vs) ∷ layouts vs
  layout option_none = 0 ∷ []
  layout (option_some v) = 1 ∷ layout v
  layout (tuple vs) = layouts vs
  layout (variant index fields) = word index ∷ layouts fields

  pub layouts : R0Values → List ℕ
  layouts nil = []
  layouts (cons v vs) = layout v ++ layouts vs

push_bytes_padded-packed : (w : List ℕ) (b : Bytes) → push_bytes_padded w b ≡ w ++ packed b
unfolding push_bytes_padded packed
push_bytes_padded-packed w [] = sym (append-nil w)
push_bytes_padded-packed w (a ∷ []) = refl
push_bytes_padded-packed w (a ∷ b ∷ []) = refl
push_bytes_padded-packed w (a ∷ b ∷ c ∷ []) = refl
push_bytes_padded-packed w (a ∷ b ∷ c ∷ d ∷ rest) =
    push_bytes_padded-packed (push w (word_le a b c d)) rest ∙ append_assoc w _ (packed rest)

push_each-map : (w : List ℕ) (b : Bytes) → push_each w b ≡ w ++ map word b
unfolding push_each
push_each-map w [] = sym (append-nil w)
push_each-map w (b ∷ bs) = push_each-map (push w b) bs ∙ append_assoc w _ (map word bs)

-- The low 32 bits of an integer are a word already.
low_bits-lt : (v : ℤ) → low_bits v 32 < 2 ^ 32
low_bits-lt (pos n) = omega arith
low_bits-lt (negsuc n) = omega arith

push_two : (w : List ℕ) {a b : ℕ} → a < 2 ^ 32 → b < 2 ^ 32 → push (push w a) b ≡ w ++ a ∷ b ∷ []
unfolding push
push_two w p q = rw (mod-eq_of_lt p, mod-eq_of_lt q) (append_assoc w _ _)

mutual
  unfolding encode_into layout push

  encode_into_lem : (w : List ℕ) (v : R0Value) → encode_into w v ≡ w ++ layout v
  encode_into_lem w (bool true) = refl
  encode_into_lem w (bool false) = refl
  encode_into_lem w (u8 v) = refl
  encode_into_lem w (u16 v) = refl
  encode_into_lem w (u32 v) = refl
  encode_into_lem w (char v) = refl
  encode_into_lem w (u64 v) = push_two w (low_bits-lt v) (low_bits-lt (shr v 32))
  encode_into_lem w (i64 v) = push_two w (low_bits-lt v) (low_bits-lt (shr v 32))
  encode_into_lem w (u128 v) = push_bytes_padded-packed w (u128_bytes 16 0 v)
  encode_into_lem w (str s) =
      push_bytes_padded-packed (push w (length (utf8_encode s))) (utf8_encode s)
      ∙ append_assoc w _ _
  encode_into_lem w (bytes b) = push_each-map (push w (length b)) b ∙ append_assoc w _ _
  encode_into_lem w (array vs) = encode_each_lem w vs
  encode_into_lem w (seq vs) = encode_each_lem (push w (count vs)) vs ∙ append_assoc w _ _
  encode_into_lem w option_none = refl
  encode_into_lem w (option_some v) = encode_into_lem (push w 1) v ∙ append_assoc w _ _
  encode_into_lem w (tuple vs) = encode_each_lem w vs
  encode_into_lem w (variant index fields) =
      encode_each_lem (push w index) fields ∙ append_assoc w _ _

  encode_each_lem : (w : List ℕ) (vs : R0Values) → encode_each w vs ≡ w ++ layouts vs
  encode_each_lem w nil = sym (append-nil w)
  encode_each_lem w (cons v vs) =
      encode_each_lem (encode_into w v) vs
      ∙ ap (λ x. x ++ layouts vs) (encode_into_lem w v)
      ∙ append_assoc w _ _

-- The words that `encodeInto` adds are the layout of the value, whatever was written before.
pub encode_into-layout : (w : List ℕ) (v : R0Value) → encode_into w v ≡ w ++ layout v
encode_into-layout w v = encode_into_lem w v

pub encode_instruction-layout :
    (index : ℕ) (args : List R0Value)
    → encode_instruction index args ≡ word index ∷ layouts (of_list args)
unfolding encode_instruction layout
encode_instruction-layout index args = encode_into_lem [] (variant index (of_list args))
