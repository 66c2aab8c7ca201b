-- ===== src/Tests/Codec.antt =====
-- The instruction encoder, base58 and the registry entry at concrete inputs.
use widespread_logos.Prelude.{
  ◌<◌, ◌^◌, ◌≡◌, refl, List, [], ◌∷◌, ◌++◌, Text, codes, replicate, ok, All, arith, pos, length,
}
use widespread_logos.Utf8.{IsPlain, utf8_encode}
use widespread_logos.Utf8.RoundTrip.{IsPlain-ascii}
use widespread_logos.Platform.{decimal}
use widespread_logos.Platform.Quote.{json_quote}
use widespread_logos.Risc0.{R0Value, encode_into, instruction_data_hex}
use widespread_logos.Risc0.Layout.{layout, encode_into-layout}
use widespread_logos.Approval.Decoder.{
  IdlType, IdlInstruction, Idl, truncate, decode_r0_instruction,
}
use widespread_logos.Approval.Decoder.Describes
use widespread_logos.Approval.Decoder.Describes.{DescribesArgs}
use widespread_logos.Approval.Decoder.Calls.{
  HasDistinctNames, named_values, decode_r0_instruction-instruction_data_hex,
}
use widespread_logos.Pda.Base58.{base58_encode, base58_decode}
use widespread_logos.Pda.Base58.RoundTrip.{base58_decode-base58_encode, base58_encode-base58_decode}
use widespread_logos.Registry.Entry.{EntryFields, decode_entry, deployer}
use widespread_logos.Registry.Entry.Borsh.{
  AreStorable, IsStorable, borsh_entry, decode_entry-borsh_entry,
}
use widespread_logos.Tests.World.{all_ltb-All}

-- A call `mint(to: string, amount: u64)`.
abbrev pub mint : IdlInstruction
mint = record {
  name = codes "mint";
  args =
      record { name = codes "to"; type = IdlType.named (codes "string") }
      ∷ record { name = codes "amount"; type = IdlType.named (codes "u64") }
      ∷ [];
}

abbrev pub idl : Idl
idl = record { instructions = record { name = codes "burn"; args = [] } ∷ mint ∷ [] }

abbrev pub arguments : List R0Value
arguments = R0Value.str (codes "me") ∷ R0Value.u64 (pos 7) ∷ []

abbrev pub shown : List Text
shown = json_quote (truncate 120 (codes "me")) ∷ decimal 7 ∷ []

me-IsPlain : IsPlain (codes "me")
me-IsPlain = IsPlain-ascii (codes "me") (all_ltb-All 128 (codes "me") refl)

pub arguments-DescribesArgs : DescribesArgs mint.args arguments shown
unfolding utf8_encode
arguments-DescribesArgs =
    Describes.next_arg (Describes.a_string (codes "me") me-IsPlain (omega arith))
      (Describes.next_arg (Describes.a_u64 7 (omega arith)) Describes.no_args)

pub mint-HasDistinctNames : HasDistinctNames mint.args
mint-HasDistinctNames = ((λ e. cc), ((λ e. cc), tt), ((λ e. cc), tt, tt))

decode_r0_instruction-instruction_data_hex_example :
    decode_r0_instruction (instruction_data_hex 1 arguments) idl
    ≡ ok (record { name = mint.name; args = named_values mint.args shown })
decode_r0_instruction-instruction_data_hex_example =
    decode_r0_instruction-instruction_data_hex 1 arguments idl mint shown (omega arith) refl
      arguments-DescribesArgs mint-HasDistinctNames

encode_into-layout_example :
    encode_into (5 ∷ []) (R0Value.str (codes "me")) ≡ (5 ∷ []) ++ layout (R0Value.str (codes "me"))
encode_into-layout_example = encode_into-layout (5 ∷ []) (R0Value.str (codes "me"))

base58_decode-base58_encode_example :
    base58_decode (base58_encode (0 ∷ 0 ∷ 1 ∷ 255 ∷ [])) ≡ ok (0 ∷ 0 ∷ 1 ∷ 255 ∷ [])
base58_decode-base58_encode_example =
    base58_decode-base58_encode (0 ∷ 0 ∷ 1 ∷ 255 ∷ []) (all_ltb-All 256 (0 ∷ 0 ∷ 1 ∷ 255 ∷ []) refl)

base58_encode-base58_decode_example : base58_encode (0 ∷ 57 ∷ []) ≡ codes "1z"
unfolding base58_decode
base58_encode-base58_decode_example = base58_encode-base58_decode (codes "1z") (0 ∷ 57 ∷ []) refl

abbrev fields : EntryFields
fields = record {
  name = codes "counter";
  version = codes "1.0";
  description = [];
  tags = codes "demo";
  idl_cid = codes "z1";
  source_cid = [];
  repo_url = [];
  commit = [];
  build_config = [];
}

ascii-IsStorable :
    (s : Text) → All (λ u. u < 128) s → length (utf8_encode s) < 2 ^ 31 → IsStorable s
ascii-IsStorable s h k = (IsPlain-ascii s h, k)

fields-AreStorable : AreStorable fields
unfolding utf8_encode
fields-AreStorable = record {
  name = ascii-IsStorable fields.name (all_ltb-All 128 fields.name refl) (omega arith);
  version = ascii-IsStorable fields.version (all_ltb-All 128 fields.version refl) (omega arith);
  description = ascii-IsStorable [] tt (omega arith);
  tags = ascii-IsStorable fields.tags (all_ltb-All 128 fields.tags refl) (omega arith);
  idl_cid = ascii-IsStorable fields.idl_cid (all_ltb-All 128 fields.idl_cid refl) (omega arith);
  source_cid = ascii-IsStorable [] tt (omega arith);
  repo_url = ascii-IsStorable [] tt (omega arith);
  commit = ascii-IsStorable [] tt (omega arith);
  build_config = ascii-IsStorable [] tt (omega arith);
}

decode_entry-borsh_entry_example :
    decode_entry (borsh_entry (replicate 32 1) (replicate 32 2) 0 fields 1700000000)
    ≡ ok (record {
      fields = fields;
      program_id = base58_encode (replicate 32 1);
      author = base58_encode (replicate 32 2);
      kind = deployer;
      registered_at = 1700000000;
    })
decode_entry-borsh_entry_example =
    decode_entry-borsh_entry (replicate 32 1) (replicate 32 2) 0 fields 1700000000 refl refl
      fields-AreStorable (omega arith)
