-- ===== src/Approval/Decoder/Describes.antt =====
-- What the decoder should show for a value of an IDL type: `Describes t v s`. It is stated of values in
-- the range of their type and of texts that UTF-8 carries.
use widespread_logos.Prelude.{
  ℕ, ◌^◌, ◌<◌, Bool, Text, codes, List, [], ◌∷◌, ◌++◌, if◌then◌else◌, pos, length,
}
use widespread_logos.Utf8.{utf8_encode, IsPlain}
use widespread_logos.Platform.{decimal}
use widespread_logos.Platform.Quote.{json_quote}
use widespread_logos.Risc0.{R0Value, R0Values, count}
use widespread_logos.Approval.Decoder.{IdlType, IdlArg, truncate, show_array, bracketed}

mutual
  pub data Describes : IdlType → R0Value → Text → Type 0 where
    a_bool :
        (b : Bool)
        → Describes
            (IdlType.named (codes "bool"))
            (R0Value.bool b)
            (if b then codes "true" else codes "false")
    a_u8 : (n : ℕ) → n < 2 ^ 32 → Describes (IdlType.named (codes "u8")) (R0Value.u8 n) (decimal n)
    a_u16 :
        (n : ℕ) → n < 2 ^ 32 → Describes (IdlType.named (codes "u16")) (R0Value.u16 n) (decimal n)
    a_u32 :
        (n : ℕ) → n < 2 ^ 32 → Describes (IdlType.named (codes "u32")) (R0Value.u32 n) (decimal n)
    a_char :
        (n : ℕ) → n < 2 ^ 32 → Describes (IdlType.named (codes "char")) (R0Value.char n) (decimal n)
    a_u64 :
        (n : ℕ)
        → n < 2 ^ 64
        → Describes (IdlType.named (codes "u64")) (R0Value.u64 (pos n)) (decimal n)
    an_i64 :
        (n : ℕ)
        → n < 2 ^ 64
        → Describes (IdlType.named (codes "i64")) (R0Value.i64 (pos n)) (decimal n)
    a_u128 :
        (n : ℕ)
        → n < 2 ^ 128
        → Describes (IdlType.named (codes "u128")) (R0Value.u128 (pos n)) (decimal n)
    a_string :
        (s : Text)
        → IsPlain s
        → length (utf8_encode s) < 2 ^ 32
        → Describes (IdlType.named (codes "string")) (R0Value.str s) (json_quote (truncate 120 s))
    an_array :
        {t : IdlType} {vs : R0Values} {shown : List Text}
        → DescribesAll t vs shown
        → Describes (IdlType.array t (count vs)) (R0Value.array vs) (show_array t (count vs) shown)
    a_vec :
        {t : IdlType} {vs : R0Values} {shown : List Text}
        → count vs < 2 ^ 32
        → DescribesAll t vs shown
        → Describes (IdlType.vec t) (R0Value.seq vs) (bracketed shown)
    a_none : {t : IdlType} → Describes (IdlType.option t) R0Value.option_none (codes "None")
    a_some :
        {t : IdlType} {v : R0Value} {s : Text}
        → Describes t v s
        → Describes (IdlType.option t) (R0Value.option_some v) (codes "Some(" ++ (s ++ codes ")"))

  pub data DescribesAll : IdlType → R0Values → List Text → Type 0 where
    none : {t : IdlType} → DescribesAll t R0Values.nil []
    more :
        {t : IdlType} {v : R0Value} {vs : R0Values} {s : Text} {shown : List Text}
        → Describes t v s
        → DescribesAll t vs shown
        → DescribesAll t (R0Values.cons v vs) (s ∷ shown)

-- The arguments of a call against those of the instruction, with the text shown for each.
pub data DescribesArgs : List IdlArg → List R0Value → List Text → Type 0 where
  no_args : DescribesArgs [] [] []
  next_arg :
      {a : IdlArg} {args : List IdlArg} {v : R0Value} {vs : List R0Value} {s : Text}
      {shown : List Text}
      → Describes a.type v s
      → DescribesArgs args vs shown
      → DescribesArgs (a ∷ args) (v ∷ vs) (s ∷ shown)
