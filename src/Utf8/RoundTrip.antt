-- ===== src/Utf8/RoundTrip.antt =====
-- What is encoded decodes to itself.
use widespread_logos.Prelude.{
  ℕ, suc, ◌+◌, ◌*◌, ◌/◌, ◌%◌, ◌≤◌, ◌<◌, List, [], ◌∷◌, ◌++◌, ◌≡◌, ◌∙◌, refl, All, All-append, arith,
  Bytes, Text, ap, if◌then◌else◌, ◌==◌, ltb, ltb→lt, Bool-cases, inl, inr, true,
}
use widespread_logos.Utf8.{
  IsScalar, strip_bom, next_unit, scalars_from, unit_pair, to_units, encode_scalar, encode_scalars,
  utf8_encode, idle, more, next_byte, decode_from, utf8_decode, IsPlain,
}

module _ (bs : Bytes) where
  -- One continuation byte, the last of its character and an earlier one.
  decode-last :
      (acc lo hi x : ℕ)
      → lo ≤ 0x80 + x
      → 0x80 + x ≤ hi
      → decode_from (more 1 acc lo hi) ((0x80 + x) ∷ bs) ≡ (acc * 64 + x) ∷ decode_from idle bs
  unfolding decode_from next_byte
  decode-last acc lo hi x p q = ground arith

  decode-next :
      (n acc lo hi x : ℕ)
      → lo ≤ 0x80 + x
      → 0x80 + x ≤ hi
      → decode_from (more (suc (suc n)) acc lo hi) ((0x80 + x) ∷ bs)
        ≡ decode_from (more (suc n) (acc * 64 + x) 0x80 0xBF) bs
  unfolding decode_from next_byte
  decode-next n acc lo hi x p q = ground arith

  decode-lead_two :
      (x : ℕ)
      → 2 ≤ x
      → x < 32
      → decode_from idle ((0xC0 + x) ∷ bs) ≡ decode_from (more 1 x 0x80 0xBF) bs
  unfolding decode_from next_byte
  decode-lead_two x p q = ground arith

  decode-lead_three :
      (x : ℕ)
      → x < 16
      → decode_from idle ((0xE0 + x) ∷ bs)
        ≡ decode_from (more 2 x (if x == 0 then 0xA0 else 0x80) (if x == 13 then 0x9F else 0xBF)) bs
  unfolding decode_from next_byte
  decode-lead_three x p = ground arith

  decode-lead_four :
      (x : ℕ)
      → x < 5
      → decode_from idle ((0xF0 + x) ∷ bs)
        ≡ decode_from (more 3 x (if x == 0 then 0x90 else 0x80) (if x == 4 then 0x8F else 0xBF)) bs
  unfolding decode_from next_byte
  decode-lead_four x p = ground arith

  decode-one : (c : ℕ) → c < 0x80 → decode_from idle (c ∷ bs) ≡ c ∷ decode_from idle bs
  unfolding decode_from next_byte
  decode-one c h = ground arith

module _ (bs : Bytes) (c : ℕ) where
  two_bytes :
      0x80 ≤ c
      → c < 0x800
      → decode_from idle ((0xC0 + c / 64) ∷ (0x80 + c % 64) ∷ bs) ≡ c ∷ decode_from idle bs
  two_bytes p q =
      decode-lead_two _ (c / 64) (omega arith) (omega arith)
      ∙ decode-last bs (c / 64) 0x80 0xBF (c % 64) (omega arith) (omega arith)
      ∙ ap (λ d. d ∷ decode_from idle bs) (omega arith)

  three_bytes :
      0x800 ≤ c
      → c < 0x10000
      → IsScalar c
      → decode_from idle ((0xE0 + c / 4096) ∷ (0x80 + c / 64 % 64) ∷ (0x80 + c % 64) ∷ bs)
        ≡ c ∷ decode_from idle bs
  three_bytes p q s =
      decode-lead_three _ (c / 4096) (omega arith)
      ∙ decode-next _ 0 (c / 4096) _ _ (c / 64 % 64) (ground arith) (ground arith)
      ∙ decode-last bs (c / 4096 * 64 + c / 64 % 64) 0x80 0xBF (c % 64) (omega arith) (omega arith)
      ∙ ap (λ d. d ∷ decode_from idle bs) (omega arith)

  four_bytes :
      0x10000 ≤ c
      → c < 0x110000
      → decode_from idle (
          (0xF0 + c / 262144)
          ∷ (0x80 + c / 4096 % 64)
          ∷ (0x80 + c / 64 % 64)
          ∷ (0x80 + c % 64)
          ∷ bs)
        ≡ c ∷ decode_from idle bs
  four_bytes p q =
      decode-lead_four _ (c / 262144) (omega arith)
      ∙ decode-next _ 1 (c / 262144) _ _ (c / 4096 % 64) (ground arith) (ground arith)
      ∙ decode-next _ 0 _ 0x80 0xBF (c / 64 % 64) (omega arith) (omega arith)
      ∙ decode-last bs _ 0x80 0xBF (c % 64) (omega arith) (omega arith)
      ∙ ap (λ d. d ∷ decode_from idle bs) (omega arith)

  decode_from-encode_scalar :
      IsScalar c → decode_from idle (encode_scalar c ++ bs) ≡ c ∷ decode_from idle bs
  unfolding encode_scalar
  decode_from-encode_scalar h = elim (Bool-cases (ltb c 0x80)) [
    | inl p ↦ rw p (decode-one bs c (ltb→lt _ _ p))
    | inr p ↦ elim (Bool-cases (ltb c 0x800)) [
      | inl q ↦ rw (p, q) (two_bytes (ground arith) (ground arith))
      | inr q ↦ elim (Bool-cases (ltb c 0x10000)) [
        | inl r ↦ rw (p, q, r) (three_bytes (ground arith) (ground arith) h)
        | inr r ↦ rw (p, q, r) (four_bytes (ground arith) (ground arith))
      ]
    ]
  ]

  scalars_from-unit_pair :
      (s : Text) → IsScalar c → scalars_from 0 (unit_pair c ++ s) ≡ c ∷ scalars_from 0 s
  unfolding scalars_from next_unit unit_pair
  scalars_from-unit_pair s h = ground arith

scalars_from-to_units : (cs : List ℕ) → All IsScalar cs → scalars_from 0 (to_units cs) ≡ cs
unfolding to_units
scalars_from-to_units [] h = unfold scalars_from in refl
scalars_from-to_units (c ∷ cs) (h, hs) =
    scalars_from-unit_pair [] c (to_units cs) h ∙ ap (c ∷◌) (scalars_from-to_units cs hs)

decode_from-encode_scalars :
    (cs : List ℕ) → All IsScalar cs → decode_from idle (encode_scalars cs) ≡ cs
unfolding encode_scalars
decode_from-encode_scalars [] h = unfold decode_from in refl
decode_from-encode_scalars (c ∷ cs) (h, hs) =
    decode_from-encode_scalar (encode_scalars cs) c h ∙ ap (c ∷◌) (decode_from-encode_scalars cs hs)

-- A plain text survives encoding and decoding.
pub utf8_decode-utf8_encode : (s : Text) → IsPlain s → utf8_decode (utf8_encode s) ≡ s
unfolding utf8_decode utf8_encode
utf8_decode-utf8_encode s p =
    rw (p.same, scalars_from-to_units p.scalars p.valid)
      (rw (decode_from-encode_scalars p.scalars p.valid, p.no_mark) refl)

abbrev pub IsByte : ℕ → Type 0
IsByte b = b < 256

encode_scalar-IsByte : (c : ℕ) → IsScalar c → All IsByte (encode_scalar c)
unfolding encode_scalar
encode_scalar-IsByte c h = ground arith

encode_scalars-IsByte : (cs : List ℕ) → All IsScalar cs → All IsByte (encode_scalars cs)
unfolding encode_scalars
encode_scalars-IsByte [] h = tt
encode_scalars-IsByte (c ∷ cs) (h, hs) =
    All-append IsByte (encode_scalar c) _ (encode_scalar-IsByte c h) (encode_scalars-IsByte cs hs)

-- The encoder writes bytes.
pub utf8_encode-IsByte : (s : Text) → IsPlain s → All IsByte (utf8_encode s)
unfolding utf8_encode
utf8_encode-IsByte s p =
    rw (p.same, scalars_from-to_units p.scalars p.valid) (encode_scalars-IsByte p.scalars p.valid)

to_units-ascii : (s : Text) → All (λ u. u < 128) s → s ≡ to_units s
unfolding to_units unit_pair
to_units-ascii [] h = refl
to_units-ascii (u ∷ s) (k, h) =
    let one_unit : ltb u 0x10000 ≡ true = ground arith in
    rw one_unit (ap (u ∷◌) (to_units-ascii s h))

IsScalar-ascii : (s : Text) → All (λ u. u < 128) s → All IsScalar s
IsScalar-ascii [] h = tt
IsScalar-ascii (u ∷ s) (k, h) = (inl (omega arith), IsScalar-ascii s h)

no_mark-ascii : (s : Text) → All (λ u. u < 128) s → strip_bom s ≡ s
unfolding strip_bom
no_mark-ascii [] h = refl
no_mark-ascii (u ∷ s) (k, h) = ground arith

-- Every ASCII text is plain.
pub IsPlain-ascii : (s : Text) → All (λ u. u < 128) s → IsPlain s
IsPlain-ascii s h = record {
  scalars = s;
  valid = IsScalar-ascii s h;
  same = to_units-ascii s h;
  no_mark = no_mark-ascii s h;
}
