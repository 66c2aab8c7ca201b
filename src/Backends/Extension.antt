-- ===== src/Backends/Extension.antt =====
-- ExtensionBackend (packages/wallet-ui/src/extension-backend.ts). `chrome.runtime.sendMessage` is a
-- parameter, with the `lastError` that it leaves.
use widespread_logos.Prelude.{
  Bool, Option, none, some, List, [], ◌∷◌, map, Text, codes, message, type_error, Result, ok, err,
  if◌then◌else◌,
}
use widespread_logos.Prelude.Tasks.{Task, done, settle, ◌>>=◌, ◌>>◌}
use widespread_logos.Platform.Json.{
  Value, undefined, null, bool, num, str, arr, obj, Values, nil, item, object, array, get, get?,
  or_else, truthy, to_text,
}
use widespread_logos.Backends.Seam.{
  WalletBackend, LezAccount, AccountPair, account_pair, text_option,
}

-- What the callback of `sendMessage` sees.
pub record Delivery : Type 0 where
  pub last_error : Option (Option Text)
  pub response : Value

abbrev pub SendMessage : Type 0 → Type 0
SendMessage Host = Value → Host → Delivery × Host

-- The callback: `lastError`, then the error of the response, then the response.
unfoldable pub answer : Delivery → Result Value
unfolding get? truthy to_text
answer d = elim (d.last_error) [
  | some none ↦ err (message (codes "extension error"))
  | some (some s) ↦ err (message s)
  | none ↦
      if truthy (get? (codes "error") d.response)
      then err (message (to_text (get? (codes "error") d.response)))
      else ok d.response
]

unfoldable pub unlabelled : Values → List LezAccount
unlabelled nil = []
unlabelled (item id vs) = record { label = str []; account_id = id } ∷ unlabelled vs

unfoldable pub unlabelled_list : Value → Result (List LezAccount)
unfolding unlabelled
unlabelled_list (arr vs) = ok (unlabelled vs)
unlabelled_list undefined = err type_error
unlabelled_list null = err type_error
unlabelled_list (bool _) = err type_error
unlabelled_list (num _) = err type_error
unlabelled_list (str _) = err type_error
unlabelled_list (obj _) = err type_error

module _ {Host : Type 0} (send_message : SendMessage Host) where
  unfoldable pub send : Text → Value → Task Host Value
  unfolding answer
  send kind params host =
      let (delivery, after) =
        send_message (object ((codes "type", str kind) ∷ (codes "params", params) ∷ [])) host in
      (answer delivery, after)

  -- `r.key`
  unfoldable pub part : Text → Value → Task Host Value
  unfolding get
  part key r = settle (get key r)

  unfoldable pub helper_status : Task Host Value
  unfolding send
  helper_status = send (codes "LEZ_HELPER_STATUS") undefined

  unfoldable pub init : Option Text → Option Text → Task Host Value
  unfolding send
  init password zone_name = send (codes "LEZ_INIT") (
      object
        ((codes "password", text_option password) ∷ (codes "zone", text_option zone_name) ∷ []))

  unfoldable pub restore : Text → Option Text → Option Text → Task Host (Unit {0})
  unfolding send
  restore mnemonic password zone_name =
      send (codes "LEZ_RESTORE") (
        object (
          (codes "mnemonic", str mnemonic)
          ∷ (codes "password", text_option password)
          ∷ (codes "zone", text_option zone_name)
          ∷ []))
      >> done tt

  unfoldable pub list_accounts : Task Host (List LezAccount)
  unfolding send part unlabelled_list or_else
  list_accounts = do
    r ← send (codes "LEZ_ACCOUNTS") undefined
    accounts ← part (codes "accounts") r
    settle (unlabelled_list (or_else accounts (arr nil)))

  unfoldable pub create_account : Text → Bool → Task Host Value
  unfolding send part
  create_account label is_private = do
    r ←
        send (codes "LEZ_NEW_ACCOUNT")
          (object ((codes "label", str label) ∷ (codes "private", bool is_private) ∷ []))
    part (codes "accountId") r

  -- The field `result`, whatever it holds.
  unfoldable pub result_of : Text → Value → Task Host Value
  unfolding send part
  result_of kind params = do r ← send kind params; part (codes "result") r

  unfoldable pub balance : Text → Task Host Value
  unfolding result_of
  balance account =
      result_of (codes "LEZ_GET_BALANCE") (object ((codes "account", str account) ∷ []))

  unfoldable pub sync : Task Host Value
  unfolding send part
  sync = do r ← send (codes "LEZ_SYNC") undefined; part (codes "block") r

  unfoldable pub status : Task Host Value
  unfolding send
  status = send (codes "LEZ_STATUS") undefined

  unfoldable pub transfer : Text → Text → Text → Task Host Value
  unfolding result_of
  transfer from to amount =
      result_of (codes "LEZ_SEND_TRANSACTION") (
        object
          ((codes "from", str from) ∷ (codes "to", str to) ∷ (codes "amount", str amount) ∷ []))

  unfoldable pub program_call : Text → Text → List AccountPair → Option Text → Task Host Value
  unfolding result_of
  program_call program data_hex accounts payer = result_of (codes "LEZ_PROGRAM_CALL") (
      object (
        (codes "program", str program)
        ∷ (codes "instructionDataHex", str data_hex)
        ∷ (codes "accounts", arr (array (map account_pair accounts)))
        ∷ (codes "payer", text_option payer)
        ∷ []))

  unfoldable pub registry_lookup : Text → Task Host Value
  unfolding send part or_else
  registry_lookup program = do
    r ← send (codes "LEZ_REGISTRY_LOOKUP") (object ((codes "program", str program) ∷ []))
    entry ← part (codes "entry") r
    done (or_else entry null)

  unfoldable pub account_read : Text → Task Host Value
  unfolding result_of
  account_read account =
      result_of (codes "LEZ_ACCOUNT_READ") (object ((codes "account", str account) ∷ []))

  unfoldable pub export_blob : Task Host Value
  unfolding send part
  export_blob = do r ← send (codes "LEZ_EXPORT_BLOB") undefined; part (codes "blobB64") r

  unfoldable pub import_blob : Text → Option Text → Task Host (Unit {0})
  unfolding send
  import_blob blob zone_name =
      send (codes "LEZ_IMPORT_BLOB")
        (object ((codes "blobB64", str blob) ∷ (codes "zone", text_option zone_name) ∷ []))
      >> done tt

  unfoldable pub extension_backend : WalletBackend Host
  extension_backend = record {
    init = init;
    restore = restore;
    list_accounts = list_accounts;
    create_account = create_account;
    balance = balance;
    sync = sync;
    status = status;
    transfer = transfer;
    program_call = program_call;
    faucet_drop = none;
    call_module = none;
    helper_status = some helper_status;
    registry_lookup = some registry_lookup;
    account_read = some account_read;
    export_blob = some export_blob;
    import_blob = some import_blob;
  }
