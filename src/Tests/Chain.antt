-- ===== src/Tests/Chain.antt =====
-- Pointers, addresses and endorsements at concrete inputs.
use widespread_logos.Prelude.{
  ℕ, ◌<◌, ◌≡◌, ◌↔◌, ◌⊎◌, refl, true, some, List, [], ◌∷◌, ◌++◌, Text, Bytes, codes, replicate,
  get_elem?, length, Result, ok, err, type_error, text_eq, if◌then◌else◌, arith,
}
use widespread_logos.Utf8.{utf8_encode}
use widespread_logos.Utf8.RoundTrip.{IsPlain-ascii}
use widespread_logos.Risc0.{R0Value, instruction_data_hex}
use widespread_logos.Pda.{compute_public_pda, seed_from_str, seeds_from_strs}
use widespread_logos.Registry.Address.{compute_pda_raw}
use widespread_logos.Registry.Entry.{EntryFields, third_party, deployer, RegistryEntry}
use widespread_logos.Registry.Entry.Borsh.{borsh_str}
use widespread_logos.Registry.Client.{endorse}
use widespread_logos.Registry.Client.Trust.{endorse-trusted}
use widespread_logos.Registry.Client.Fetch.{Answer, attempt, found, fetch_urls, fetch_urls-served}
use widespread_logos.Registry.Agreement.{compute_public_pda-compute_pda_raw}
use widespread_logos.Onboarding.{publish_data_hex, record_value}
use widespread_logos.Onboarding.Pointer.{
  publish_data_hex-instruction_data_hex, record_value-borsh_str,
}
use widespread_logos.Tests.World.{all_ltb-All, sha}

publish_data_hex-instruction_data_hex_example :
    publish_data_hex (codes "key") (codes "z1:z2")
    ≡ instruction_data_hex 0 (R0Value.str (codes "key") ∷ R0Value.str (codes "z1:z2") ∷ [])
publish_data_hex-instruction_data_hex_example =
    publish_data_hex-instruction_data_hex (codes "key") (codes "z1:z2")

small_value : length (utf8_encode (codes "z1:z2")) < 2147483648
unfolding utf8_encode
small_value = omega arith

record_value-borsh_str_example :
    record_value (replicate 32 9 ++ borsh_str (codes "z1:z2")) ≡ some (codes "z1:z2")
record_value-borsh_str_example =
    record_value-borsh_str (replicate 32 9) (codes "z1:z2") refl
      (IsPlain-ascii (codes "z1:z2") (all_ltb-All 128 (codes "z1:z2") refl)) small_value

abbrev program_id : Text
program_id = replicate 64 b'a'

abbrev seeds : List Bytes
seeds = (codes "ptr" ++ replicate 29 0) ∷ (codes "key" ++ replicate 29 0) ∷ []

compute_public_pda-compute_pda_raw_example :
    compute_public_pda sha program_id (codes "ptr" ∷ codes "key" ∷ [])
    ≡ compute_pda_raw sha program_id seeds
unfolding seeds_from_strs seed_from_str utf8_encode
compute_public_pda-compute_pda_raw_example =
    compute_public_pda-compute_pda_raw sha program_id (codes "ptr") (codes "key" ∷ []) seeds refl

abbrev no_fields : EntryFields
no_fields = record {
  name = codes "counter";
  version = [];
  description = [];
  tags = [];
  idl_cid = [];
  source_cid = [];
  repo_url = [];
  commit = [];
  build_config = [];
}

abbrev attested : RegistryEntry
attested = record {
  fields = no_fields;
  program_id = codes "p";
  author = codes "alice";
  kind = third_party;
  registered_at = 0;
}

endorse-trusted_example : ((endorse attested (codes "bob" ∷ codes "alice" ∷ [])).trusted ≡ true) ↔ (
    (attested.kind ≡ deployer)
    ⊎ ((n : ℕ) × (get_elem? (codes "bob" ∷ codes "alice" ∷ []) n ≡ some attested.author)))
endorse-trusted_example = endorse-trusted attested (codes "bob" ∷ codes "alice" ∷ [])

abbrev answer_of : Text → Result (Answer ℕ)
answer_of url =
    if text_eq url (codes "b")
    then ok (record { is_ok = true; status = 200; json = ok 7 })
    else err type_error

fetch_urls-served_example :
    (d : ℕ) × (fetch_urls answer_of
        (λ thrown. codes "down")
        (codes "no response")
        (codes "a" ∷ codes "b" ∷ [])
      ≡ found d)
unfolding attempt
fetch_urls-served_example =
    fetch_urls-served answer_of (λ thrown. codes "down") (codes "no response")
      (codes "a" ∷ codes "b" ∷ []) 1 (codes "b") 7 refl refl
