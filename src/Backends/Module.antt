-- ===== src/Backends/Module.antt =====
-- ModuleBackend (packages/wallet-ui/src/module-backend.ts). The host's `callModuleAsync` and the JSON
-- reader and printer are parameters; the host's own state is the state of a call.
use widespread_logos.Prelude.{
  Bool, true, false, Option, none, some, List, [], ◌∷◌, map, Text, codes, text_eq, Error, message,
  type_error, Result, ok, err, if◌then◌else◌,
}
use widespread_logos.Prelude.Tasks.{Task, done, settle, ◌>>=◌, ◌>>◌}
use widespread_logos.Platform.Json.{
  Value, undefined, null, bool, num, str, arr, obj, Values, nil, item, object, array, get, get?,
  or_else, to_text,
}
use widespread_logos.Backends.Seam.{WalletBackend, LezAccount, AccountPair, account_pair, nullish}

-- `JSON.parse` and `JSON.stringify`
pub record Json : Type 0 where
  pub parse : Text → Result Value
  pub stringify : Value → Text

-- `callModuleAsync`: the text that its callback gets, or what it throws. A thrown value that is no
-- Error is printed.
pub data Callback : Type 0 where
  called : Text → Callback
  threw : Error → Callback
  threw_value : Value → Callback

abbrev pub CallModule : Type 0 → Type 0
CallModule Host = Text → Text → List Value → Host → Callback × Host

-- `window.logos`
pub record Logos (Host : Type 0) : Type 0 where
  pub call_module_async : Option (CallModule Host)

unfoldable pub wallet_module : Text
wallet_module = codes "widespread_wallet"

unfoldable pub promise_of : Callback → Result Text
unfolding to_text
promise_of (called s) = ok s
promise_of (threw e) = err e
promise_of (threw_value v) = err (message (to_text v))

-- `out.type === 'error'`
unfoldable pub is_error : Value → Bool
is_error (str s) = text_eq s (codes "error")
is_error undefined = false
is_error null = false
is_error (bool _) = false
is_error (num _) = false
is_error (arr _) = false
is_error (obj _) = false

-- The envelope that the module answers with: the answer, or the error that it carries.
unfoldable pub open_envelope : Value → Result Value
unfolding get get? or_else to_text is_error
open_envelope out = elim (get (codes "type") out) [
  | err e ↦ err e
  | ok kind ↦
      if is_error kind
      then err
          (message (to_text (or_else (get? (codes "message") out) (str (codes "module error")))))
      else ok out
]

-- The operation that programCall sends, but for its name.
unfoldable pub call_fields : Text → Text → List AccountPair → Option Text → List (Text × Value)
call_fields program data_hex accounts payer =
    (codes "program", str program)
    ∷ (codes "instruction_data_hex", str data_hex)
    ∷ (codes "accounts", arr (array (map account_pair accounts)))
    ∷ (codes "payer", nullish payer)
    ∷ []

-- An account of the reply, read as a LezAccount.
unfoldable pub cast_account : Value → LezAccount
unfolding get?
cast_account a = record { label = get? (codes "label") a; account_id = get? (codes "accountId") a }

unfoldable pub cast_accounts : Values → List LezAccount
unfolding cast_account
cast_accounts nil = []
cast_accounts (item a vs) = cast_account a ∷ cast_accounts vs

-- A reply that is no array is of no use as a list; the UI fails where it maps it.
unfoldable pub cast_list : Value → Result (List LezAccount)
unfolding cast_accounts
cast_list (arr vs) = ok (cast_accounts vs)
cast_list undefined = err type_error
cast_list null = err type_error
cast_list (bool _) = err type_error
cast_list (num _) = err type_error
cast_list (str _) = err type_error
cast_list (obj _) = err type_error

module _ {Host : Type 0} where
  unfoldable pub call_async : Option (CallModule Host) → Text → Text → List Value → Task Host Text
  unfolding promise_of
  call_async none program method args host =
      (err (message (codes "logos module bridge not available")), host)
  call_async (some call) program method args host =
      let (answer, after) = call program method args host in (promise_of answer, after)

module _ {Host : Type 0} (json : Json) (window : Option (Logos Host)) where
  unfoldable pub bridge : Option (CallModule Host)
  bridge = elim window [ none ↦ none | some logos ↦ logos.call_module_async ]

  unfoldable pub module_available : Bool
  unfolding bridge
  module_available = elim bridge [ none ↦ false | some _ ↦ true ]

  unfoldable pub call_module : Text → Text → List Value → Task Host Text
  unfolding call_async bridge
  call_module program method args = call_async bridge program method args

  unfoldable pub exec : List (Text × Value) → Task Host Value
  unfolding call_module wallet_module open_envelope
  exec fs = do
    raw ← call_module wallet_module (codes "execute") (str (json.stringify (object fs)) ∷ [])
    out ← settle (json.parse raw)
    settle (open_envelope out)

  unfoldable pub worker : Text → List (Text × Value) → Task Host Value
  unfolding exec
  worker name fs = exec ((codes "op", str name) ∷ fs)

  -- `out.key` of a reply.
  unfoldable pub part : Text → Value → Task Host Value
  unfolding get
  part key out = settle (get key out)

  unfoldable pub init : Option Text → Option Text → Task Host Value
  unfolding worker part
  init password zone_name = do
    out ←
        worker (codes "init")
          ((codes "password", nullish password) ∷ (codes "zone", nullish zone_name) ∷ [])
    mnemonic ← part (codes "mnemonic") out
    done (object ((codes "mnemonic", mnemonic) ∷ []))

  unfoldable pub restore : Text → Option Text → Option Text → Task Host (Unit {0})
  unfolding worker
  restore mnemonic password zone_name =
      worker (codes "restore") (
        (codes "mnemonic", str mnemonic)
        ∷ (codes "password", nullish password)
        ∷ (codes "zone", nullish zone_name)
        ∷ [])
      >> done tt

  unfoldable pub list_accounts : Task Host (List LezAccount)
  unfolding worker part cast_list or_else
  list_accounts = do
    out ← worker (codes "list_accounts") []
    accounts ← part (codes "accounts") out
    settle (cast_list (or_else accounts (arr nil)))

  unfoldable pub create_account : Text → Bool → Task Host Value
  unfolding worker part
  create_account label is_private = do
    out ←
        worker (codes "create_account")
          ((codes "label", str label) ∷ (codes "private", bool is_private) ∷ [])
    part (codes "account_id") out

  unfoldable pub balance : Text → Task Host Value
  unfolding worker part to_text
  balance account = do
    out ← worker (codes "balance") ((codes "account", str account) ∷ [])
    found ← part (codes "balance") out
    done (str (to_text found))

  unfoldable pub sync : Task Host Value
  unfolding worker part
  sync = do out ← worker (codes "sync") []; part (codes "block") out

  unfoldable pub status : Task Host Value
  unfolding worker part
  status = do
    out ← worker (codes "status") []
    sequencer ← part (codes "sequencer") out
    done (object ((codes "sequencer", sequencer) ∷ []))

  unfoldable pub transfer : Text → Text → Text → Task Host Value
  unfolding worker part
  transfer from to amount = do
    out ←
        worker (codes "transfer")
          ((codes "from", str from) ∷ (codes "to", str to) ∷ (codes "amount", str amount) ∷ [])
    part (codes "hash") out

  unfoldable pub program_call : Text → Text → List AccountPair → Option Text → Task Host Value
  unfolding worker part
  program_call program data_hex accounts payer = do
    out ← worker (codes "program_call") (call_fields program data_hex accounts payer)
    part (codes "hash") out

  unfoldable pub faucet_drop : Text → Text → Task Host Value
  unfolding call_module
  faucet_drop account request_key = do
    raw ←
        call_module (codes "lez_faucet") (codes "requestDrop") (str account ∷ str request_key ∷ [])
    settle (json.parse raw)

  unfoldable pub registry_lookup : Text → Task Host Value
  unfolding worker part
  registry_lookup program = do
    out ← worker (codes "registry_lookup") ((codes "program", str program) ∷ [])
    part (codes "entry") out

  unfoldable pub account_read : Text → Task Host Value
  unfolding worker
  account_read account = worker (codes "account_read") ((codes "account", str account) ∷ [])

  unfoldable pub export_blob : Task Host Value
  unfolding worker part
  export_blob = do out ← worker (codes "export_blob") []; part (codes "blob_b64") out

  unfoldable pub import_blob : Text → Option Text → Task Host (Unit {0})
  unfolding worker
  import_blob blob zone_name =
      worker (codes "unlock")
        ((codes "blob_b64", str blob) ∷ (codes "zone", nullish zone_name) ∷ [])
      >> done tt

  unfoldable pub module_backend : WalletBackend Host
  module_backend = record {
    init = init;
    restore = restore;
    list_accounts = list_accounts;
    create_account = create_account;
    balance = balance;
    sync = sync;
    status = status;
    transfer = transfer;
    program_call = program_call;
    faucet_drop = some faucet_drop;
    call_module = some (λ m n vs. call_module m n vs >>= λ s. done (str s));
    helper_status = none;
    registry_lookup = some registry_lookup;
    account_read = some account_read;
    export_blob = some export_blob;
    import_blob = some import_blob;
  }
