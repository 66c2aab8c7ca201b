-- ===== src/Approval/Decoder/Calls.antt =====
-- A whole call: the hexadecimal text that risc0.ts makes, decoded against the IDL of its program.
use widespread_logos.Prelude.{
  ℕ, ◌^◌, ◌/◌, ◌%◌, ◌<◌, List, [], ◌∷◌, ◌++◌, Text, Bytes, codes, All, arith, ◌≡◌, ◌≢◌, refl, ap,
  ◌∙◌, ok, some, get_elem?, text_eq_ne,
}
use mathlib.Core.List.{append_assoc, append-nil}
use native.Mathlib.Nat.{mod-eq_of_lt}
use widespread_logos.Utf8.RoundTrip.{IsByte}
use widespread_logos.Risc0.{
  R0Value, of_list, word_le, words_to_bytes, bytes_to_hex, words_to_hex, instruction_data_hex,
}
use widespread_logos.Risc0.Layout.{layouts, encode_instruction-layout}
use widespread_logos.Risc0.Hex.{hex_byte-two_digits, parse_hex-two_digits, IsWord, layouts-IsWord}
use widespread_logos.Approval.Decoder.{
  IdlArg, IdlInstruction, Idl, object_set, decode_args, read_bytes, read_words, decode_variant,
  decode_r0_instruction,
}
use widespread_logos.Approval.Decoder.Describes.{DescribesArgs, no_args, next_arg}
use widespread_logos.Approval.Decoder.RoundTrip.{decode_value-layout}

-- The bytes of a hexadecimal text, and the words of the bytes, are read back.
read_bytes-bytes_to_hex : (b : Bytes) → All IsByte b → read_bytes (bytes_to_hex b) ≡ b
unfolding read_bytes bytes_to_hex
read_bytes-bytes_to_hex [] h = refl
read_bytes-bytes_to_hex (b ∷ bs) (p, h) =
    rw (hex_byte-two_digits b p, parse_hex-two_digits b p)
      (ap (b ∷◌) (read_bytes-bytes_to_hex bs h))

word_le-bytes :
    (w : ℕ)
    → IsWord w
    → word_le (w % 256) (w / 256 % 256) (w / 65536 % 256) (w / 16777216 % 256) ≡ w
unfolding word_le
word_le-bytes w h = omega arith

read_words-words_to_bytes : (ws : List ℕ) → All IsWord ws → read_words (words_to_bytes ws) ≡ ws
unfolding read_words words_to_bytes
read_words-words_to_bytes [] h = refl
read_words-words_to_bytes (w ∷ ws) (p, h) =
    rw (read_words-words_to_bytes ws h) (ap (λ x. x ∷ ws) (word_le-bytes w p))

words_to_bytes-IsByte : (ws : List ℕ) → All IsByte (words_to_bytes ws)
unfolding words_to_bytes
words_to_bytes-IsByte [] = tt
words_to_bytes-IsByte (w ∷ ws) =
    (omega arith, (omega arith, (omega arith, (omega arith, words_to_bytes-IsByte ws))))

-- The words are all that the hexadecimal text says.
pub read_words-words_to_hex :
    (ws : List ℕ) → All IsWord ws → read_words (read_bytes (words_to_hex ws)) ≡ ws
unfolding words_to_hex
read_words-words_to_hex ws h =
    ap read_words (read_bytes-bytes_to_hex (words_to_bytes ws) (words_to_bytes-IsByte ws))
    ∙ read_words-words_to_bytes ws h

-- The names of an instruction's arguments differ, and none is `__proto__`.
abbrev pub HasDistinctNames : List IdlArg → Type 0
HasDistinctNames [] = Unit
HasDistinctNames (a ∷ ps) =
    (a.name ≢ codes "__proto__") × All (λ b. a.name ≢ b.name) ps × HasDistinctNames ps

abbrev pub named_values : List IdlArg → List Text → List (Text × Text)
named_values [] shown = []
named_values (a ∷ ps) [] = []
named_values (a ∷ ps) (s ∷ shown) = (a.name, s) ∷ named_values ps shown

object_set-new :
    (k v : Text) (o : List (Text × Text))
    → k ≢ codes "__proto__"
    → All (λ p. p.0 ≢ k) o
    → object_set k v o ≡ o ++ (k, v) ∷ []
unfolding object_set
object_set-new k v [] h n = rw (text_eq_ne k (codes "__proto__") h)
object_set-new k v ((j, w) ∷ o) h (n, ns) =
    rw (text_eq_ne j k n) (ap ((j, w) ∷◌) (object_set-new k v o h ns))

abbrev AreNew : List (Text × Text) → List IdlArg → Type 0
AreNew o ps = All (λ p. All (λ b. p.0 ≢ b.name) ps) o

AreNew-cons :
    (o : List (Text × Text)) (p : IdlArg) (ps : List IdlArg) (s : Text)
    → AreNew o (p ∷ ps)
    → All (λ b. p.name ≢ b.name) ps
    → AreNew (o ++ (p.name, s) ∷ []) ps
AreNew-cons [] p ps s h k = (k, tt)
AreNew-cons (q ∷ o) p ps s (h, hs) k = (h.1, AreNew-cons o p ps s hs k)

AreNew-head :
    (o : List (Text × Text)) (p : IdlArg) (ps : List IdlArg)
    → AreNew o (p ∷ ps)
    → All (λ q. q.0 ≢ p.name) o
AreNew-head [] p ps h = tt
AreNew-head (q ∷ o) p ps (h, hs) = (h.0, AreNew-head o p ps hs)

decode_args-layouts :
    {ps : List IdlArg} {vs : List R0Value} {shown : List Text} (o : List (Text × Text))
    → DescribesArgs ps vs shown
    → HasDistinctNames ps
    → AreNew o ps
    → decode_args ps o (layouts (of_list vs)) ≡ ok (o ++ named_values ps shown, [])
unfolding decode_args layouts
decode_args-layouts o no_args n new = rw (append-nil o)
decode_args-layouts o (next_arg {a} {args} {v} {vs} {s} {shown} d ds) (np, na, n) new =
    rw (decode_value-layout (layouts (of_list vs)) d) (
      rw (object_set-new a.name s o np (AreNew-head o a args new)) (
        decode_args-layouts (o ++ (a.name, s) ∷ []) ds n (AreNew-cons o a args s new na)
        ∙ ap (λ x. ok (x, [])) (append_assoc o ((a.name, s) ∷ []) (named_values args shown))))

decode_variant-layouts :
    (index : ℕ) (vs : List R0Value) (idl : Idl) (ix : IdlInstruction) (shown : List Text)
    → get_elem? idl.instructions index ≡ some ix
    → DescribesArgs ix.args vs shown
    → HasDistinctNames ix.args
    → decode_variant idl index (layouts (of_list vs))
      ≡ ok (record { name = ix.name; args = named_values ix.args shown })
unfolding decode_variant
decode_variant-layouts index vs idl ix shown found d n =
    rw (found, decode_variant) (rw (decode_args-layouts [] d n tt))

-- The decoder reads an encoded call back: for an index that the IDL has, and arguments that its types
-- describe, it gives the instruction's name and the shown text of each argument under its name.
pub decode_r0_instruction-instruction_data_hex :
    (index : ℕ) (vs : List R0Value) (idl : Idl) (ix : IdlInstruction) (shown : List Text)
    → index < 2 ^ 32
    → get_elem? idl.instructions index ≡ some ix
    → DescribesArgs ix.args vs shown
    → HasDistinctNames ix.args
    → decode_r0_instruction (instruction_data_hex index vs) idl
      ≡ ok (record { name = ix.name; args = named_values ix.args shown })
unfolding decode_r0_instruction instruction_data_hex
decode_r0_instruction-instruction_data_hex index vs idl ix shown h found d n =
    rw (encode_instruction-layout index vs, mod-eq_of_lt h)
      (rw (read_words-words_to_hex (index ∷ layouts (of_list vs)) (h, layouts-IsWord (of_list vs)))
        (decode_variant-layouts index vs idl ix shown found d n))
