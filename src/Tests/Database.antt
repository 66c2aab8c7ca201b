-- ===== src/Tests/Database.antt =====
-- PwaBackend over a database that is a list of entries.
use widespread_logos.Prelude.{
  ℕ, ◌/◌, ◌≤◌, true, none, some, List, [], ◌∷◌, Text, codes, Result, ok, ◌≡◌, refl, ap, sym, ◌∙◌,
  pos,
}
use widespread_logos.Platform.Json.{
  Value, set_field, str, arr, Fields, empty, field, nil, item, object, find,
}
use widespread_logos.Platform.Json.Entries.{find-set_field, find-set_other}
use widespread_logos.Platform
use widespread_logos.Platform.{decimal, to_radix}
use widespread_logos.Platform.Base64
use widespread_logos.Platform.Digits
use widespread_logos.Platform.BigNumber
use widespread_logos.Registry.Client.{Indexer}
use widespread_logos.Platform.BigNumber.{big_text}
use widespread_logos.Backends.Module.{Json}
use widespread_logos.Backends.Seam.{WalletRequest}
use widespread_logos.Backends.Pwa
use widespread_logos.Backends.Pwa.{
  PwaBackend, Sequencer, FlatAccount, number, rpc, get_account, flat, pinata_account, pinata_prize,
  max_supported_difficulty,
}
use widespread_logos.Backends.Pwa.Faucet
use widespread_logos.Backends.Pwa.Faucet.{FaucetInfo, faucet_info, faucet_info-available}
use widespread_logos.Backends.Pwa.Blob
use widespread_logos.Backends.Pwa.Blob.{Idb, account_value}
use widespread_logos.Backends.Pwa.Surface
use widespread_logos.Backends.Pwa.Surface.{import_blob, export_blob, keys_of, watch_account}
use widespread_logos.Backends.Pwa.Kept.{Laws}
use widespread_logos.Backends.Pwa.Vault.{Variant, ViewKeys, Held, vault_value}
use widespread_logos.Backends.Pwa.Watched.{Watched}
use widespread_logos.Backends.Pwa.Requests.{PwaRequest, asked, watch, respond_all}
use widespread_logos.Tests.World.{sha}

-- A database as a list of entries.
abbrev entries_idb : Idb Fields
entries_idb = record {
  get_item = λ k h. ok (find k h);
  set_item = λ k v h. (ok tt, set_field k v h);
  clock = λ h. 7;
}

put_state :
    (k : Text) (v : Value) (h after : Fields)
    → entries_idb.set_item k v h ≡ (ok tt, after)
    → after ≡ set_field k v h
put_state k v h after put = sym (ap (λ (o : Result (Unit {0}) × Fields). o.1) put)

abbrev entries_laws : Laws entries_idb
entries_laws = record {
  get-put =
      λ k v {h} {after} put. ap ok (ap (find k) (put_state k v h after put) ∙ find-set_field k v h);
  get-other = λ k j v {h} {after} put apart.
      ap ok (ap (find j) (put_state k v h after put) ∙ find-set_other k j v h apart);
  get-failed = λ k v {h} {after} {e} failed j. cc;
}

-- A vault with a public account and a private one.
abbrev private_keys : ViewKeys
private_keys = record { d = 1 ∷ 255 ∷ []; z = 2 ∷ []; npk = 3 ∷ []; vpk = 16 ∷ [] }

abbrev two_held : List Held
two_held =
    record { variant = Variant.public; id = codes "9xQe"; keys = none }
    ∷ record { variant = Variant.private; id = codes "7aBc"; keys = some private_keys }
    ∷ []

abbrev labels : Value
labels = object ((codes "savings", str (codes "x")) ∷ [])

abbrev blob_json : Json
blob_json = record { parse = λ s. ok (vault_value labels two_held); stringify = λ v. [] }

abbrev no_entries : Fields
no_entries = empty

abbrev imported : Fields
imported = (import_blob entries_idb blob_json (codes "AAEC") no_entries).1

-- A faucet with three claims left.
abbrev rich_account : FlatAccount
rich_account = record {
  program_owner = none;
  balance = some (number 450);
  data_of = none;
  nonce = none;
}

abbrev rich_sequencer : Sequencer
rich_sequencer url method id = ok (record { result = some rich_account; error = none })

abbrev lez_wallet : PwaBackend
lez_wallet = record {
  sequencer = codes "https://testnet.lez.logos.co";
  registry_program = none;
  wasm_url = none;
}

abbrev three_claims : FaucetInfo
three_claims = record {
  pool = codes "450";
  claims = codes "3";
  difficulty = 0;
  available = true;
  blocked_reason = none;
}

faucet_info-available_example :
    (n : ℕ) × (codes "450" ≡ big_text (pos n))
    × (codes "3" ≡ big_text (pos (n / pinata_prize)))
    × (1 ≤ n / pinata_prize)
    × (0 ≤ max_supported_difficulty)
unfolding faucet_info Faucet.account_faucet Faucet.faucet_state Faucet.pool_of Faucet.difficulty_of
    Faucet.blocked Faucet.is_none get_account rpc flat Pwa.data_bytes big_text BigNumber.big_div
    BigNumber.big_less decimal to_radix Digits.digits Platform.digit
faucet_info-available_example =
    faucet_info-available rich_sequencer lez_wallet {info = three_claims} refl refl

abbrev requests : List PwaRequest
requests =
    asked WalletRequest.list_accounts
    ∷ watch (codes "faucet") (codes "EfQh")
    ∷ asked WalletRequest.export_blob
    ∷ []

abbrev no_indexer : Indexer
no_indexer url account = ok none

abbrev respond_imported : List PwaRequest → Fields
respond_imported rs =
    respond_all entries_idb blob_json rich_sequencer sha no_indexer lez_wallet rs imported

-- A database that lists one account.
abbrev listing : Fields
listing =
    field (codes "accounts") (arr (item (account_value (codes "main") (codes "9xQe")) nil)) empty
