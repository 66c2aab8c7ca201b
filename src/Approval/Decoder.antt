-- ===== src/Approval/Decoder.antt =====
-- The instruction decoder of approval.ts. A WordReader is the list of the words that it has not read.
pub mod Describes
pub mod RoundTrip
pub mod Calls
use widespread_logos.Prelude.{
  ℕ, zero, suc, ◌+◌, ◌-◌, ◌*◌, ◌^◌, ◌/◌, ◌%◌, Bool, true, false, ◌&&◌, ◌||◌, Option, none, some,
  List, [], ◌∷◌, ◌++◌, Text, Bytes, codes, text_eq, length, take, get_elem?, Result, ok, err,
  message, ltb, ◌==◌, if◌then◌else◌,
}
use widespread_logos.Prelude.Errors.{◌>>=◌}
use widespread_logos.Utf8.{utf8_decode}
use widespread_logos.Platform.{decimal, to_radix, pad_start, parse_hex, hex_byte}
use widespread_logos.Platform.Quote.{json_quote}
use widespread_logos.Risc0.{word_bytes, word_le}

-- The type of an IDL argument: a string, or an object with one of the keys that `decodeValue` tests.
pub data IdlType : Type 0 where
  named : Text → IdlType
  array : IdlType → ℕ → IdlType
  vec : IdlType → IdlType
  option : IdlType → IdlType
  defined : Text → IdlType
  unknown : IdlType

pub record IdlArg : Type 0 where
  pub name : Text
  pub type : IdlType

pub record IdlInstruction : Type 0 where
  pub name : Text
  pub args : List IdlArg

pub record Idl : Type 0 where
  pub instructions : List IdlInstruction

unfoldable pub reader_u32 : List ℕ → Result (ℕ × List ℕ)
reader_u32 [] = err (message (codes "instruction data truncated"))
reader_u32 (w ∷ ws) = ok (w, ws)

-- `WordReader.bytes(n)`: a word for every four bytes, the spare bytes of the last one dropped.
unfoldable pub reader_bytes : ℕ → List ℕ → Result (Bytes × List ℕ)
unfolding reader_u32 word_bytes
reader_bytes zero ws = ok ([], ws)
reader_bytes (suc zero) ws = reader_u32 ws >>= λ (w, rest). ok (take 1 (word_bytes w), rest)
reader_bytes (suc (suc zero)) ws = reader_u32 ws >>= λ (w, rest). ok (take 2 (word_bytes w), rest)
reader_bytes (suc (suc (suc zero))) ws =
    reader_u32 ws >>= λ (w, rest). ok (take 3 (word_bytes w), rest)
reader_bytes (suc (suc (suc (suc n)))) ws = reader_u32 ws >>= λ (w, rest).
    reader_bytes n rest >>= λ (out, left). ok (word_bytes w ++ out, left)

unfoldable pub reader_string : List ℕ → Result (Text × List ℕ)
unfolding reader_u32 reader_bytes
reader_string ws = reader_u32 ws >>= λ (len, rest).
    reader_bytes len rest >>= λ (out, left). ok (utf8_decode out, left)

unfoldable pub truncate : ℕ → Text → Text
truncate n s = if ltb n (length s) then take n s ++ codes "…" else s

-- `vals.join(sep)`
unfoldable pub join : Text → List Text → Text
join sep [] = []
join sep (s ∷ []) = s
join sep (s ∷ t ∷ ts) = s ++ (sep ++ join sep (t ∷ ts))

abbrev pub Decode : Type 0
Decode = List ℕ → Result (Text × List ℕ)

-- `for (let k = 0; k < n; k++) vals.push(decodeValue(r, el))`
unfoldable pub decode_many : Decode → ℕ → List ℕ → Result (List Text × List ℕ)
decode_many f zero ws = ok ([], ws)
decode_many f (suc n) ws =
    f ws >>= λ (v, rest). decode_many f n rest >>= λ (vs, left). ok (v ∷ vs, left)

abbrev pub bracketed : List Text → Text
bracketed vals = codes "[" ++ (join (codes ", ") vals ++ codes "]")

-- A decimal text read back, as `Number(v)` does.
unfoldable pub number_of : ℕ → Text → ℕ
number_of acc [] = acc
number_of acc (u ∷ s) = number_of (acc * 10 + (u - b'0')) s

unfoldable pub hex_of_ids : List Text → Text
unfolding number_of hex_byte
hex_of_ids [] = []
hex_of_ids (v ∷ vs) = hex_byte (number_of 0 v) ++ hex_of_ids vs

unfoldable pub is_u8 : IdlType → Bool
is_u8 (named t) = text_eq t (codes "u8")
is_u8 _ = false

-- `[u8; 32]` is shown as one hexadecimal number.
unfoldable pub show_array : IdlType → ℕ → List Text → Text
unfolding is_u8 hex_of_ids join
show_array el n vals = if is_u8 el && n == 32 then codes "0x" ++ hex_of_ids vals else bracketed vals

abbrev pub is_one_word : Text → Bool
is_one_word t =
    text_eq t (codes "u8")
    || text_eq t (codes "u16")
    || text_eq t (codes "u32")
    || text_eq t (codes "char")

-- The cases of the switch over a type that is a string.
unfoldable pub decode_bool : Decode
unfolding reader_u32
decode_bool ws =
    reader_u32 ws >>= λ (w, rest). ok (if w == 0 then codes "false" else codes "true", rest)

unfoldable pub decode_word : Decode
unfolding reader_u32
decode_word ws = reader_u32 ws >>= λ (w, rest). ok (decimal w, rest)

-- `(hi << 32n) | lo`, where the words do not overlap.
unfoldable pub decode_u64 : Decode
unfolding reader_u32
decode_u64 ws = reader_u32 ws >>= λ (lo, ws1).
    reader_u32 ws1 >>= λ (hi, rest). ok (decimal (hi * 2 ^ 32 + lo), rest)

unfoldable pub decode_u128 : Decode
unfolding reader_u32
decode_u128 ws = reader_u32 ws >>= λ (a, ws1). reader_u32 ws1 >>= λ (b, ws2).
    reader_u32 ws2 >>= λ (c, ws3).
    reader_u32 ws3 >>= λ (d, rest). ok (decimal (a + b * 2 ^ 32 + c * 2 ^ 64 + d * 2 ^ 96), rest)

unfoldable pub decode_string : Decode
unfolding reader_string truncate
decode_string ws = reader_string ws >>= λ (s, rest). ok (json_quote (truncate 120 s), rest)

unfoldable pub decode_named : Text → Decode
unfolding decode_bool decode_word decode_u64 decode_u128 decode_string
decode_named t ws =
    if text_eq t (codes "bool")
    then decode_bool ws
    else if is_one_word t
    then decode_word ws
    else if text_eq t (codes "u64") || text_eq t (codes "i64")
    then decode_u64 ws
    else if text_eq t (codes "u128")
    then decode_u128 ws
    else if text_eq t (codes "string")
    then decode_string ws
    else ok (codes "<" ++ (t ++ codes ":unsupported>"), ws)

unfoldable pub decode_value : IdlType → Decode
unfolding decode_named decode_many show_array
decode_value (named t) ws = decode_named t ws
decode_value (array el n) ws =
    decode_many (decode_value el) n ws >>= λ (vals, rest). ok (show_array el n vals, rest)
decode_value (vec el) ws = reader_u32 ws >>= λ (len, ws1).
    decode_many (decode_value el) len ws1 >>= λ (vals, rest). ok (bracketed vals, rest)
decode_value (option el) ws = reader_u32 ws >>= λ (tag, ws1).
    if tag == 0
    then ok (codes "None", ws1)
    else decode_value el ws1 >>= λ (s, rest). ok (codes "Some(" ++ (s ++ codes ")"), rest)
decode_value (defined t) ws = ok (codes "<" ++ (t ++ codes ":opaque>"), ws)
decode_value unknown ws = ok (codes "<unknown-type>", ws)

-- `object[key] = value` on an object whose values are strings: an old key keeps its place, and
-- `__proto__` takes no string.
unfoldable pub object_set : Text → Text → List (Text × Text) → List (Text × Text)
object_set k v [] = if text_eq k (codes "__proto__") then [] else (k, v) ∷ []
object_set k v ((j, w) ∷ o) = if text_eq j k then (j, v) ∷ o else (j, w) ∷ object_set k v o

unfoldable pub decode_args :
    List IdlArg → List (Text × Text) → List ℕ → Result (List (Text × Text) × List ℕ)
unfolding decode_value object_set
decode_args [] args ws = ok (args, ws)
decode_args (a ∷ rest) args ws =
    decode_value a.type ws >>= λ (v, left). decode_args rest (object_set a.name v args) left

-- `bytes[i] = parseInt(dataHex.slice(i * 2, i * 2 + 2), 16)`; an odd last character is not read.
unfoldable pub read_bytes : Text → Bytes
unfolding parse_hex
read_bytes [] = []
read_bytes (u ∷ []) = []
read_bytes (u ∷ v ∷ s) = parse_hex (u ∷ v ∷ []) ∷ read_bytes s

-- The words of the bytes; up to three bytes at the end are not read.
unfoldable pub read_words : Bytes → List ℕ
unfolding word_le
read_words [] = []
read_words (a ∷ []) = []
read_words (a ∷ b ∷ []) = []
read_words (a ∷ b ∷ c ∷ []) = []
read_words (a ∷ b ∷ c ∷ d ∷ rest) = word_le a b c d ∷ read_words rest

pub record DecodedCall : Type 0 where
  pub name : Text
  pub args : List (Text × Text)

out_of_range : ℕ → Text
out_of_range index = codes "variant index " ++ (decimal index ++ codes " out of range")

-- The variant index selects the instruction, whose arguments are read in order.
unfoldable pub decode_variant : Idl → ℕ → List ℕ → Result DecodedCall
unfolding decode_args out_of_range
decode_variant idl index ws = elim (get_elem? idl.instructions index) [
  | none ↦ err (message (out_of_range index))
  | some ix ↦ decode_args ix.args [] ws >>= λ (args, _). ok (record { name = ix.name; args = args })
]

unfoldable pub decode_r0_instruction : Text → Idl → Result DecodedCall
unfolding read_bytes read_words reader_u32 decode_variant
decode_r0_instruction data_hex idl =
    reader_u32 (read_words (read_bytes data_hex)) >>= λ (index, ws). decode_variant idl index ws
