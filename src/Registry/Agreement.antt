-- ===== src/Registry/Agreement.antt =====
-- The wallet and the registry client derive the same addresses.
use widespread_logos.Prelude.{
  ◌≡◌, refl, true, inl, inr, List, [], ◌∷◌, Text, Bytes, length, ok, ◌==◌, ==_iff, Bool-cases,
  arith,
}
use widespread_logos.Platform.{hex_value}
use widespread_logos.Pda
use widespread_logos.Pda.{
  Sha256, bare_id, is_hex, is_hex64, hex_pairs, strip_0x, hex_to_bytes, check_32, seeds_from_strs,
  seed_from_str, combined, pda_input, pda_of, compute_public_pda, flat,
}
use widespread_logos.Registry.Address.{account_id_bytes, combined_raw, compute_pda_raw}

-- A text of hexadecimal digits has no `0x` in front.
strip_0x-is_hex : (s : Text) → is_hex s ≡ true → strip_0x s ≡ s
unfolding strip_0x is_hex hex_value
strip_0x-is_hex [] h = refl
strip_0x-is_hex (a ∷ []) h = refl
strip_0x-is_hex (a ∷ b ∷ s) h = elim (Bool-cases (b == b'x')) [
  | inr e ↦ ground arith
  | inl e ↦ let x : b ≡ b'x' = (==_iff b b'x').0 e in ground arith
]

-- The two readers of an account id agree.
hex_to_bytes-is_hex64 : (s : Text) → is_hex64 s ≡ true → hex_to_bytes s ≡ ok (hex_pairs s)
unfolding hex_to_bytes is_hex64
hex_to_bytes-is_hex64 s h =
    let digits : is_hex s ≡ true = ground arith in
    let size : length s ≡ 64 = ground arith in rw (strip_0x-is_hex s digits, digits, size) refl

account_id_bytes-account_id_bytes : (id : Text) → Pda.account_id_bytes id ≡ account_id_bytes id
unfolding Pda.account_id_bytes account_id_bytes
account_id_bytes-account_id_bytes id = elim (Bool-cases (is_hex64 (bare_id id))) [
  | inl e ↦ rw e (hex_to_bytes-is_hex64 (bare_id id) e)
  | inr e ↦ rw e refl
]

combined-combined_raw :
    (sha : Sha256) (seeds : List Bytes) → combined sha seeds ≡ combined_raw sha seeds
unfolding combined combined_raw flat
combined-combined_raw sha [] = refl
combined-combined_raw sha (s ∷ []) = refl
combined-combined_raw sha (s ∷ t ∷ ss) = refl

-- For texts that are seeds, one or more, the wallet's computePublicPda gives what the registry client's
-- computePdaRaw gives for their seeds, errors included.
pub compute_public_pda-compute_pda_raw :
    (sha : Sha256) (id s : Text) (ss : List Text) (seeds : List Bytes)
    → seeds_from_strs (s ∷ ss) ≡ ok seeds
    → compute_public_pda sha id (s ∷ ss) ≡ compute_pda_raw sha id seeds
unfolding compute_public_pda compute_pda_raw pda_of
compute_public_pda-compute_pda_raw sha id s ss seeds h =
    rw (account_id_bytes-account_id_bytes id, h, combined-combined_raw sha seeds) refl
