-- ===== src/Registry/Address.antt =====
-- The address derivation that the registry client repeats from pda.ts: accountIdBytes (with the
-- hexadecimal loop written out), computePdaRaw over raw seeds, and the addresses of the two kinds of
-- entry.
use widespread_logos.Prelude.{List, [], ◌∷◌, Text, Bytes, codes, Result, ok, if◌then◌else◌}
use widespread_logos.Prelude.Errors.{◌>>=◌}
use widespread_logos.Pda.{
  Sha256, bare_id, is_hex64, hex_pairs, check_32, seed_from_str, pda_input, flat,
}
use widespread_logos.Pda.Base58.{base58_decode, base58_encode}

unfoldable pub account_id_bytes : Text → Result Bytes
unfolding bare_id is_hex64 hex_pairs base58_decode check_32
account_id_bytes id =
    let bare = bare_id id in
    if is_hex64 bare then ok (hex_pairs bare) else base58_decode bare >>= check_32

-- One seed stands for itself; any other number of seeds is hashed.
unfoldable pub combined_raw : Sha256 → List Bytes → Bytes
unfolding flat
combined_raw sha (s ∷ []) = s
combined_raw sha seeds = sha.digest (flat seeds)

unfoldable pub compute_pda_raw : Sha256 → Text → List Bytes → Result Text
compute_pda_raw sha program_id seeds = account_id_bytes program_id >>= λ program.
    pda_input program (combined_raw sha seeds) >>= λ input. ok (base58_encode (sha.digest input))

unfoldable pub deployer_entry_pda : Sha256 → Text → Text → Result Text
unfolding compute_pda_raw
deployer_entry_pda sha registry_program program = seed_from_str (codes "deployer_entry") >>= λ tag.
    account_id_bytes program >>= λ p. compute_pda_raw sha registry_program (tag ∷ p ∷ [])

unfoldable pub third_party_entry_pda : Sha256 → Text → Text → Text → Result Text
unfolding compute_pda_raw
third_party_entry_pda sha registry_program program author =
    seed_from_str (codes "third_party_entry") >>= λ tag. account_id_bytes program >>= λ p.
    account_id_bytes author >>= λ a. compute_pda_raw sha registry_program (tag ∷ p ∷ a ∷ [])
