-- ===== src/Registry/Entry.antt =====
-- The registry entry: what a caller supplies, how it is encoded for a call, and how the account data
-- (borsh) is decoded. The offset of the decoder is an integer, since a length of 2 ^ 31 or more reads
-- as a negative number; a byte outside the data is `undefined`.
pub mod Borsh
use widespread_logos.Prelude.{
  ℕ, zero, suc, ◌+◌, ◌-◌, ◌*◌, ◌^◌, Option, none, some, List, [], ◌∷◌, ◌++◌, Text, Bytes, codes, ℤ,
  pos, negsuc, ◌+ℤ◌, to_int32, length, take, drop, get_elem?, Result, ok, err, type_error, ◌==◌,
  if◌then◌else◌,
}
use Prim.Native.Nat.{min}
use widespread_logos.Prelude.Errors.{◌>>=◌}
use widespread_logos.Utf8.{utf8_decode}
use widespread_logos.Pda.Base58.{base58_encode}
use widespread_logos.Risc0.{R0Value, word_le}

pub record EntryFields : Type 0 where
  pub name : Text
  pub version : Text
  pub description : Text
  pub tags : Text
  pub idl_cid : Text
  pub source_cid : Text
  pub repo_url : Text
  pub commit : Text
  pub build_config : Text

pub data Kind : Type 0 where
  deployer third_party : Kind

pub record RegistryEntry : Type 0 where
  pub fields : EntryFields
  pub program_id : Text
  pub author : Text
  pub kind : Kind
  pub registered_at : ℕ

-- `encodeEntryFields`
unfoldable pub encode_entry_fields : EntryFields → ℤ → List R0Value
encode_entry_fields e registered_at =
    R0Value.str e.name
    ∷ R0Value.str e.version
    ∷ R0Value.str e.description
    ∷ R0Value.str e.tags
    ∷ R0Value.str e.idl_cid
    ∷ R0Value.str e.source_cid
    ∷ R0Value.str e.repo_url
    ∷ R0Value.str e.commit
    ∷ R0Value.str e.build_config
    ∷ R0Value.u64 registered_at
    ∷ []

-- `data[off]`
unfoldable pub byte_at : Bytes → ℤ → Option ℕ
byte_at bytes (pos n) = get_elem? bytes n
byte_at bytes (negsuc n) = none

-- `undefined` under a bit operator is 0.
unfoldable pub or_zero : Option ℕ → ℕ
or_zero none = 0
or_zero (some b) = b

-- An argument of `slice`: a negative one counts from the end.
unfoldable pub slice_index : ℕ → ℤ → ℕ
slice_index len (pos n) = min n len
slice_index len (negsuc n) = len - suc n

unfoldable pub slice : Bytes → ℤ → ℤ → Bytes
unfolding slice_index
slice bytes start end =
    let from = slice_index (length bytes) start in
    take (slice_index (length bytes) end - from) (drop from bytes)

-- `take(n)`: the bytes, and the new offset.
unfoldable pub take_read : Bytes → ℤ → ℤ → Bytes × ℤ
unfolding slice
take_read bytes n off = (slice bytes off (off +ℤ n), off +ℤ n)

-- `data[off] | (data[off + 1] << 8) | …`, an int32.
unfoldable pub len_read : Bytes → ℤ → ℤ
unfolding byte_at or_zero word_le
len_read bytes off = to_int32 (
    word_le (or_zero (byte_at bytes off)) (or_zero (byte_at bytes (off +ℤ pos 1)))
      (or_zero (byte_at bytes (off +ℤ pos 2))) (or_zero (byte_at bytes (off +ℤ pos 3))))

unfoldable pub decoded : Bytes × ℤ → Text × ℤ
unfolding utf8_decode
decoded (run, next) = (utf8_decode run, next)

unfoldable pub str_read : Bytes → ℤ → Text × ℤ
str_read bytes off = decoded (take_read bytes (len_read bytes off) (off +ℤ pos 4))

-- `k` bytes of the u64 are left, from number `i` on; `BigInt(undefined)` throws.
unfoldable pub u64_read : ℕ → ℕ → ℕ → Bytes → ℤ → Result ℕ
u64_read zero i v bytes off = ok v
u64_read (suc k) i v bytes off = elim (byte_at bytes off) [
  | none ↦ err type_error
  | some b ↦ u64_read k (i + 1) (v + b * 2 ^ (8 * i)) bytes (off +ℤ pos 1)
]

unfoldable pub kind_of : Option ℕ → Kind
kind_of none = third_party
kind_of (some b) = if b == 0 then deployer else third_party

unfoldable pub fields_read : Bytes → ℤ → EntryFields × ℤ
fields_read bytes o0 =
    let (name, o1) = str_read bytes o0 in
    let (version, o2) = str_read bytes o1 in
    let (description, o3) = str_read bytes o2 in
    let (tags, o4) = str_read bytes o3 in
    let (idl_cid, o5) = str_read bytes o4 in
    let (source_cid, o6) = str_read bytes o5 in
    let (repo_url, o7) = str_read bytes o6 in
    let (commit, o8) = str_read bytes o7 in
    let (build_config, o9) = str_read bytes o8 in
    (
      record {
        name = name;
        version = version;
        description = description;
        tags = tags;
        idl_cid = idl_cid;
        source_cid = source_cid;
        repo_url = repo_url;
        commit = commit;
        build_config = build_config;
      },
      o9,
    )

unfoldable pub decode_entry : Bytes → Result RegistryEntry
decode_entry bytes =
    let (program, o1) = take_read bytes (pos 32) (pos 0) in
    let (author, o2) = take_read bytes (pos 32) o1 in
    let kind = kind_of (byte_at bytes o2) in
    let (fields, o3) = fields_read bytes (o2 +ℤ pos 1) in
    u64_read 8 0 0 bytes o3 >>= λ registered_at. ok (record {
      fields = fields;
      program_id = base58_encode program;
      author = base58_encode author;
      kind = kind;
      registered_at = registered_at;
    })
