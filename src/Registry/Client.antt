-- ===== src/Registry/Client.antt =====
-- RegistryClient: the program calls that it builds, its reads of the indexer, and the IDL fetch. The
-- clock (in milliseconds), the network and the wallet that executes a call are arguments.
pub mod Trust
pub mod Fetch
use widespread_logos.Prelude.{
  ℕ, ◌+◌, ◌/◌, Bool, true, false, ◌||◌, Option, none, some, List, [], ◌∷◌, ◌++◌, Text, Bytes, codes,
  ℤ, pos, text_eq, Result, ok, err, message, Error, if◌then◌else◌,
}
use widespread_logos.Prelude.Errors.{◌>>=◌}
use widespread_logos.Platform.{decimal, parse_hex}
use widespread_logos.Risc0.{R0Value, r0_u8_array32, instruction_data_hex}
use widespread_logos.Pda.{Sha256}
use widespread_logos.Registry.Address.{account_id_bytes, deployer_entry_pda, third_party_entry_pda}
use widespread_logos.Registry.Entry.{
  EntryFields, Kind, deployer, third_party, RegistryEntry, encode_entry_fields, decode_entry,
}

pub record Mention : Type 0 where
  pub account : Text
  pub program_account_id : Text

pub record ProgramCall : Type 0 where
  pub program : Text
  pub instruction_data_hex : Text
  pub accounts : List Mention
  pub payer : Option Text

pub record ClientConfig : Type 0 where
  pub registry_program : Text
  pub indexer_url : Option Text
  pub zone : Option Text

pub record SelfRegisterIx : Type 0 where
  pub register_self : ℕ
  pub update_self : ℕ

-- The options of a registration: `registeredAt` is a bigint.
pub record CallOptions : Type 0 where
  pub payer : Option Text
  pub registered_at : Option ℤ

-- The generated-enum order of the registry's instructions.
abbrev pub register_third_party_ix : ℕ
register_third_party_ix = 2

abbrev pub update_third_party_ix : ℕ
update_third_party_ix = 4

-- `opts.registeredAt ?? BigInt(Math.floor(Date.now() / 1000))`
unfoldable pub registration_time : Option ℤ → ℕ → ℤ
registration_time (some t) now_ms = t
registration_time none now_ms = pos (now_ms / 1000)

-- The arguments of an update: every field but the name.
unfoldable pub update_args : EntryFields → List R0Value
update_args e =
    R0Value.str e.version
    ∷ R0Value.str e.description
    ∷ R0Value.str e.tags
    ∷ R0Value.str e.idl_cid
    ∷ R0Value.str e.source_cid
    ∷ R0Value.str e.repo_url
    ∷ R0Value.str e.commit
    ∷ R0Value.str e.build_config
    ∷ []

unfoldable pub mention : ClientConfig → Text → Mention
mention cfg account = record { account = account; program_account_id = cfg.registry_program }

module _ (sha : Sha256) (cfg : ClientConfig) where
  -- A call of the program's own hook, with the registry's id in front of the arguments.
  unfoldable pub self_call : Text → ℕ → List R0Value → Option Text → Result ProgramCall
  self_call program ix args payer = deployer_entry_pda sha cfg.registry_program program >>= λ entry.
      account_id_bytes cfg.registry_program >>= λ id. r0_u8_array32 id >>= λ registry. ok (record {
        program = program;
        instruction_data_hex = instruction_data_hex ix (registry ∷ args);
        accounts = record { account = entry; program_account_id = program } ∷ [];
        payer = payer;
      })

  -- A call of the registry about a program and an author.
  unfoldable pub author_call : Text → Text → ℕ → List R0Value → Option Text → Result ProgramCall
  author_call program author ix args payer =
      third_party_entry_pda sha cfg.registry_program program author >>= λ entry. ok (record {
        program = cfg.registry_program;
        instruction_data_hex = instruction_data_hex ix args;
        accounts = mention cfg entry ∷ mention cfg program ∷ mention cfg author ∷ [];
        payer = payer;
      })

  unfoldable pub register_deployer :
      Text → EntryFields → SelfRegisterIx → CallOptions → ℕ → Result ProgramCall
  register_deployer program f ix opts now_ms =
      self_call program ix.register_self
        (encode_entry_fields f (registration_time opts.registered_at now_ms)) opts.payer

  unfoldable pub register_third_party :
      Text → Text → EntryFields → CallOptions → ℕ → Result ProgramCall
  register_third_party program author f opts now_ms =
      author_call program author register_third_party_ix
        (encode_entry_fields f (registration_time opts.registered_at now_ms)) opts.payer

  unfoldable pub update_deployer :
      Text → EntryFields → SelfRegisterIx → Option Text → Result ProgramCall
  update_deployer program f ix payer = self_call program ix.update_self (update_args f) payer

  unfoldable pub update_third_party : Text → Text → EntryFields → Option Text → Result ProgramCall
  update_third_party program author f payer =
      author_call program author update_third_party_ix (update_args f) payer

-- The endpoint of `rpc`.
unfoldable pub zone_indexer : Text → Option Text
zone_indexer zone =
    if text_eq zone (codes "lez") || text_eq zone (codes "lez-testnet")
    then some (codes "https://testnet.lez.logos.co")
    else none

unknown_zone : Text → Text
unknown_zone zone = codes "unknown zone '" ++ (zone ++ codes "' — pass an explicit indexerUrl")

unfoldable pub or_else : Option Text → Text → Text
or_else none other = other
or_else (some t) other = t

url_of_zone : Text → Option Text → Result Text
url_of_zone zone none = err (message (unknown_zone zone))
url_of_zone zone (some url) = ok url

unfoldable pub rpc_url : ClientConfig → Result Text
unfolding url_of_zone unknown_zone
rpc_url cfg = elim (cfg.indexer_url) [
  | some url ↦ ok url
  | none ↦ let zone = or_else cfg.zone (codes "lez") in url_of_zone zone (zone_indexer zone)
]

-- The account of `getAccount`: its data is an array of bytes, a text of hexadecimal digits, or absent.
pub data AccountData : Type 0 where
  absent : AccountData
  numbers : Bytes → AccountData
  hex_digits : Text → AccountData

-- `data.match(/../g)`: pairs of characters; a line feed or another end of line is no character of a
-- pair, and no account carries one.
unfoldable pub pair_bytes : Text → Bytes
pair_bytes [] = []
pair_bytes (u ∷ []) = []
pair_bytes (u ∷ v ∷ s) = parse_hex (u ∷ v ∷ []) ∷ pair_bytes s

unfoldable pub account_bytes : AccountData → Bytes
account_bytes absent = []
account_bytes (numbers bytes) = bytes
account_bytes (hex_digits s) = pair_bytes s

-- A read that throws is no entry.
graceful : Result RegistryEntry → Option RegistryEntry
graceful (ok entry) = some entry
graceful (err thrown) = none

unfoldable pub entry_of_bytes : Bytes → Option RegistryEntry
unfolding graceful
entry_of_bytes [] = none
entry_of_bytes (b ∷ bytes) = graceful (decode_entry (b ∷ bytes))

-- What the indexer answers to `getAccount`: null or an account with no balance is `none`.
abbrev pub Indexer : Type 0
Indexer = Text → Text → Result (Option AccountData)

unfoldable pub entry_of_account : Option AccountData → Option RegistryEntry
entry_of_account none = none
entry_of_account (some data_of) = entry_of_bytes (account_bytes data_of)

unfoldable pub lookup_entry : ClientConfig → Indexer → Text → Result (Option RegistryEntry)
lookup_entry cfg indexer account =
    rpc_url cfg >>= λ url. indexer url account >>= λ answer. ok (entry_of_account answer)

unfoldable pub lookup_deployer_entry :
    Sha256 → ClientConfig → Indexer → Text → Result (Option RegistryEntry)
lookup_deployer_entry sha cfg indexer program =
    deployer_entry_pda sha cfg.registry_program program >>= λ entry. lookup_entry cfg indexer entry

unfoldable pub lookup_third_party_entry :
    Sha256 → ClientConfig → Indexer → Text → Text → Result (Option RegistryEntry)
lookup_third_party_entry sha cfg indexer program author =
    third_party_entry_pda sha cfg.registry_program program author >>= λ entry.
    lookup_entry cfg indexer entry

-- The trusted-signer overlay.
pub record EndorsedEntry : Type 0 where
  pub entry : RegistryEntry
  pub trusted : Bool

unfoldable pub includes : Text → List Text → Bool
includes s [] = false
includes s (t ∷ ts) = text_eq t s || includes s ts

unfoldable pub endorse : RegistryEntry → List Text → EndorsedEntry
endorse entry signers = record {
  entry = entry;
  trusted = elim (entry.kind) [ deployer ↦ true | third_party ↦ includes entry.author signers ];
}
