-- ===== src/Utf8.antt =====
-- TextEncoder and TextDecoder of the platform, as the WHATWG Encoding standard has them: a text is
-- read as Unicode scalar values, a lone surrogate as U+FFFD, and bytes that are no UTF-8 decode to
-- U+FFFD. The decoder drops one leading byte order mark.
pub mod RoundTrip
use widespread_logos.Prelude.{
  ℕ, ◌+◌, ◌-◌, ◌*◌, ◌/◌, ◌%◌, ◌<◌, ◌≤◌, ◌≡◌, ◌≢◌, ◌⊎◌, ◌&&◌, Bool, List, [], ◌∷◌, ◌++◌, Text, Bytes,
  ltb, leb, ◌==◌, if◌then◌else◌, All,
}

abbrev pub replacement : ℕ
replacement = 0xFFFD

abbrev pub IsScalar : ℕ → Type 0
IsScalar c = (c < 0xD800) ⊎ ((0xE000 ≤ c) × (c < 0x110000))

is_high : ℕ → Bool
is_high u = leb 0xD800 u && ltb u 0xDC00

is_low : ℕ → Bool
is_low u = leb 0xDC00 u && ltb u 0xE000

-- What one code unit adds when no high surrogate is pending; the second part is what is pending.
first_unit : ℕ → List ℕ × ℕ
unfolding is_high is_low
first_unit u =
    if is_high u then ([], u) else if is_low u then (replacement ∷ [], 0) else (u ∷ [], 0)

next_unit : ℕ → ℕ → List ℕ × ℕ
unfolding first_unit is_low
next_unit pending u =
    if pending == 0
    then first_unit u
    else if is_low u
    then ((0x10000 + ((pending - 0xD800) * 1024 + (u - 0xDC00))) ∷ [], 0)
    else (replacement ∷ (first_unit u).0, (first_unit u).1)

-- The scalar values of a text; `pending` is a high surrogate that waits for its low one, or 0.
scalars_from : ℕ → Text → List ℕ
scalars_from pending [] = if pending == 0 then [] else replacement ∷ []
scalars_from pending (u ∷ s) = let (out, later) = next_unit pending u in out ++ scalars_from later s

-- The code units of a scalar value.
unit_pair : ℕ → Text
unit_pair c =
    if ltb c 0x10000
    then c ∷ []
    else (0xD800 + (c - 0x10000) / 1024) ∷ (0xDC00 + (c - 0x10000) % 1024) ∷ []

pub to_units : List ℕ → Text
to_units [] = []
to_units (c ∷ cs) = unit_pair c ++ to_units cs

encode_scalar : ℕ → Bytes
encode_scalar c =
    if ltb c 0x80
    then c ∷ []
    else if ltb c 0x800
    then (0xC0 + c / 64) ∷ (0x80 + c % 64) ∷ []
    else if ltb c 0x10000
    then (0xE0 + c / 4096) ∷ (0x80 + c / 64 % 64) ∷ (0x80 + c % 64) ∷ []
    else (0xF0 + c / 262144) ∷ (0x80 + c / 4096 % 64) ∷ (0x80 + c / 64 % 64) ∷ (0x80 + c % 64) ∷ []

encode_scalars : List ℕ → Bytes
encode_scalars [] = []
encode_scalars (c ∷ cs) = encode_scalar c ++ encode_scalars cs

-- `new TextEncoder().encode(s)`
unfoldable pub utf8_encode : Text → Bytes
unfolding scalars_from next_unit encode_scalars encode_scalar
utf8_encode s = encode_scalars (scalars_from 0 s)

-- The decoder: `more n acc lo hi` waits for `n` bytes, the next of them between `lo` and `hi`.
pub data Decoder : Type 0 where
  idle : Decoder
  more : ℕ → ℕ → ℕ → ℕ → Decoder

lead : ℕ → List ℕ × Decoder
lead b =
    if ltb b 0x80
    then (b ∷ [], idle)
    else if ltb b 0xC2
    then (replacement ∷ [], idle)
    else if ltb b 0xE0
    then ([], more 1 (b - 0xC0) 0x80 0xBF)
    else if ltb b 0xF0
    then (
      [],
      more 2 (b - 0xE0) (if b == 0xE0 then 0xA0 else 0x80) (if b == 0xED then 0x9F else 0xBF),
    )
    else if ltb b 0xF5
    then (
      [],
      more 3 (b - 0xF0) (if b == 0xF0 then 0x90 else 0x80) (if b == 0xF4 then 0x8F else 0xBF),
    )
    else (replacement ∷ [], idle)

next_byte : Decoder → ℕ → List ℕ × Decoder
unfolding lead
next_byte idle b = lead b
next_byte (more n acc lo hi) b =
    if leb lo b && leb b hi
    then if n == 1
      then ((acc * 64 + (b - 0x80)) ∷ [], idle)
      else ([], more (n - 1) (acc * 64 + (b - 0x80)) 0x80 0xBF)
    else (replacement ∷ (lead b).0, (lead b).1)

decode_from : Decoder → Bytes → List ℕ
decode_from idle [] = []
decode_from (more n acc lo hi) [] = replacement ∷ []
decode_from d (b ∷ bs) = let (out, later) = next_byte d b in out ++ decode_from later bs

pub strip_bom : List ℕ → List ℕ
strip_bom [] = []
strip_bom (c ∷ cs) = if c == 0xFEFF then cs else c ∷ cs

-- `new TextDecoder().decode(bytes)`
unfoldable pub utf8_decode : Bytes → Text
unfolding decode_from next_byte strip_bom to_units unit_pair
utf8_decode b = to_units (strip_bom (decode_from idle b))

-- A text of paired surrogates only, that does not begin with a byte order mark.
pub record IsPlain (s : Text) : Type 0 where
  pub scalars : List ℕ
  pub valid : All IsScalar scalars
  pub same : s ≡ to_units scalars
  pub no_mark : strip_bom scalars ≡ scalars
