-- ===== src/Backends/Tauri.antt =====
-- TauriBackend (packages/wallet-ui/src/tauri-backend.ts): its methods. Shell has its state and the
-- desktop shell that it commands.
mod Shell
pub mod Session
pub mod Legal
pub mod Invariant
pub mod Writes
pub mod Stores
use widespread_logos.Prelude.{
  ℕ, Bool, true, false, not, ◌&&◌, Option, none, some, List, [], ◌∷◌, map, Text, codes, Result, ok,
  err, message, type_error, if◌then◌else◌,
}
use widespread_logos.Prelude.Tasks.{Task, done, fail, settle, ◌>>=◌, ◌>>◌}
use widespread_logos.Platform.Json.{
  Value, undefined, null, bool, num, str, arr, Values, nil, item, object, array, get, or_else,
  truthy, to_text,
}
use widespread_logos.Backends.Seam.{WalletBackend, LezAccount, AccountPair, text_option, nullish}
pub use Shell.{Invoke, TauriCore, Tauri, Command, Desktop}
unfoldable pub use Shell.{
  call_invoke, call_core, tauri_core, tauri_available, command, op, named, set_unlocked,
  unlock_stored, ensure_unlocked, keep_blob, persist_blob,
}

-- The account pairs as the worker reads them.
unfoldable pub snake_pair : AccountPair → Value
snake_pair a =
    object (
      (codes "account", str a.account)
      ∷ (codes "program_account_id", str a.program_account_id)
      ∷ [])

-- The operation that programCall sends, but for its name.
unfoldable pub call_fields : Text → Text → List AccountPair → Option Text → List (Text × Value)
unfolding snake_pair
call_fields program data_hex accounts payer =
    (codes "program", str program)
    ∷ (codes "instruction_data_hex", str data_hex)
    ∷ (codes "accounts", arr (array (map snake_pair accounts)))
    ∷ (codes "payer", nullish payer)
    ∷ []

-- One account of the reply.
unfoldable pub lez_account : Value → Result LezAccount
unfolding get or_else
lez_account a = elim (get (codes "label") a) [
  | err e ↦ err e
  | ok label ↦ elim (get (codes "account_id") a) [
    | err e ↦ err e
    | ok id ↦ ok (record { label = or_else label (str []); account_id = id })
  ]
]

unfoldable pub lez_accounts : Values → Result (List LezAccount)
unfolding lez_account
lez_accounts nil = ok []
lez_accounts (item a vs) = elim (lez_account a) [
  | err e ↦ err e
  | ok account ↦ elim (lez_accounts vs) [ err e ↦ err e | ok accounts ↦ ok (account ∷ accounts) ]
]

-- `accounts.map(…)`, where `accounts` may be no array.
unfoldable pub map_accounts : Value → Result (List LezAccount)
unfolding lez_accounts
map_accounts (arr vs) = lez_accounts vs
map_accounts undefined = err type_error
map_accounts null = err type_error
map_accounts (bool _) = err type_error
map_accounts (num _) = err type_error
map_accounts (str _) = err type_error
map_accounts (Value.obj _) = err type_error

module _ {Host : Type 0} (window : Option (Tauri Host)) where
  unfoldable pub init : Option Text → Option Text → Task (Desktop Host) Value
  init password zone_name = do
    out ←
        named window (codes "init")
          ((codes "password", nullish password) ∷ (codes "zone", text_option zone_name) ∷ [])
    persist_blob window
    set_unlocked window
    done out

  unfoldable pub restore : Text → Option Text → Option Text → Task (Desktop Host) (Unit {0})
  restore mnemonic password zone_name =
      named window (codes "restore") (
        (codes "mnemonic", str mnemonic)
        ∷ (codes "password", nullish password)
        ∷ (codes "zone", text_option zone_name)
        ∷ [])
      >> persist_blob window
      >> set_unlocked window

  unfoldable pub list_accounts : Task (Desktop Host) (List LezAccount)
  unfolding or_else
  list_accounts = do
    ensure_unlocked window
    out ← named window (codes "list_accounts") []
    accounts ← settle (get (codes "accounts") out)
    settle (map_accounts (or_else accounts (arr nil)))

  unfoldable pub create_account : Text → Bool → Task (Desktop Host) Value
  unfolding or_else
  create_account label is_private = do
    ensure_unlocked window
    out ←
        named window (codes "create_account")
          ((codes "label", str label) ∷ (codes "private", bool is_private) ∷ [])
    persist_blob window
    id ← settle (get (codes "account_id") out)
    done (or_else id (str []))

  unfoldable pub balance : Text → Task (Desktop Host) Value
  unfolding or_else to_text
  balance account = do
    out ← named window (codes "balance") ((codes "account", str account) ∷ [])
    found ← settle (get (codes "balance") out)
    done (str (to_text (or_else found (str (codes "0")))))

  unfoldable pub sync : Task (Desktop Host) Value
  unfolding or_else
  sync = do
    ensure_unlocked window
    out ← named window (codes "sync") []
    block ← settle (get (codes "block") out)
    done (or_else block (num 0))

  unfoldable pub status : Task (Desktop Host) Value
  status = named window (codes "status") []

  -- `out.hash ?? ''`, after the blob was stored.
  unfoldable pub persisted_hash : Value → Task (Desktop Host) Value
  unfolding or_else
  persisted_hash out = do
    persist_blob window
    hash ← settle (get (codes "hash") out)
    done (or_else hash (str []))

  unfoldable pub transfer : Text → Text → Text → Task (Desktop Host) Value
  transfer from to amount = do
    ensure_unlocked window
    out ← named window (codes "transfer") (
        (codes "from", str from)
        ∷ (codes "to", str to)
        ∷ (codes "to_private", null)
        ∷ (codes "amount", str amount)
        ∷ [])
    persisted_hash out

  unfoldable pub program_call :
      Text → Text → List AccountPair → Option Text → Task (Desktop Host) Value
  program_call program data_hex accounts payer = do
    ensure_unlocked window
    out ← named window (codes "program_call") (call_fields program data_hex accounts payer)
    persisted_hash out

  unfoldable pub registry_lookup : Text → Task (Desktop Host) Value
  unfolding or_else
  registry_lookup program = do
    out ← named window (codes "registry_lookup") ((codes "program", str program) ∷ [])
    entry ← settle (get (codes "entry") out)
    done (or_else entry null)

  unfoldable pub account_read : Text → Task (Desktop Host) Value
  account_read account = named window (codes "account_read") ((codes "account", str account) ∷ [])

  unfoldable pub export_blob : Task (Desktop Host) Value
  unfolding or_else
  export_blob = do
    ensure_unlocked window
    out ← named window (codes "export_blob") []
    blob ← settle (get (codes "blob_b64") out)
    done (or_else blob (str []))

  unfoldable pub import_blob : Text → Option Text → Task (Desktop Host) (Unit {0})
  import_blob blob zone_name =
      command window (codes "vault_blob_set") (object ((codes "b64", str blob) ∷ []))
      >> named window (codes "unlock")
          ((codes "blob_b64", str blob) ∷ (codes "zone", text_option zone_name) ∷ [])
      >> set_unlocked window

  -- The class, as the UI sees it.
  unfoldable pub tauri_backend : WalletBackend (Desktop Host)
  tauri_backend = record {
    init = init;
    restore = restore;
    list_accounts = list_accounts;
    create_account = create_account;
    balance = balance;
    sync = sync;
    status = status;
    transfer = transfer;
    program_call = program_call;
    faucet_drop = none;
    call_module = none;
    helper_status = none;
    registry_lookup = some registry_lookup;
    account_read = some account_read;
    export_blob = some export_blob;
    import_blob = some import_blob;
  }
