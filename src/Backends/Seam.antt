-- ===== src/Backends/Seam.antt =====
-- WalletBackend (packages/wallet-ui/src/backend.ts): what one UI asks of every surface. A reply is the
-- JavaScript value that the surface gave, since the types of its fields are casts.
use widespread_logos.Prelude.{Bool, Option, none, some, List, Text, codes, ◌∷◌, []}
use widespread_logos.Prelude.Tasks.{Task}
use widespread_logos.Platform.Json.{Value, undefined, null, str, object}

pub record LezAccount : Type 0 where
  pub label : Value
  pub account_id : Value

pub record AccountPair : Type 0 where
  pub account : Text
  pub program_account_id : Text

-- An optional argument, as it stands in a request.
abbrev pub text_option : Option Text → Value
text_option none = undefined
text_option (some s) = str s

-- `s ?? null`
abbrev pub nullish : Option Text → Value
nullish none = null
nullish (some s) = str s

-- The account pairs as the UI passes them on.
abbrev pub account_pair : AccountPair → Value
account_pair a =
    object
      ((codes "account", str a.account) ∷ (codes "programAccountId", str a.program_account_id) ∷ [])

-- The operations that every backend has; `faucetDrop`, `callModule`, `helperStatus` and the other
-- optional ones are fields of their own, which may be missing.
pub record WalletBackend (State : Type 0) : Type 0 where
  pub init : Option Text → Option Text → Task State Value
  pub restore : Text → Option Text → Option Text → Task State (Unit {0})
  pub list_accounts : Task State (List LezAccount)
  pub create_account : Text → Bool → Task State Value
  pub balance : Text → Task State Value
  pub sync : Task State Value
  pub status : Task State Value
  pub transfer : Text → Text → Text → Task State Value
  pub program_call : Text → Text → List AccountPair → Option Text → Task State Value
  pub faucet_drop : Option (Text → Text → Task State Value)
  pub call_module : Option (Text → Text → List Value → Task State Value)
  pub helper_status : Option (Task State Value)
  pub registry_lookup : Option (Text → Task State Value)
  pub account_read : Option (Text → Task State Value)
  pub export_blob : Option (Task State Value)
  pub import_blob : Option (Text → Option Text → Task State (Unit {0}))

-- What the UI may ask of a backend.
pub data WalletRequest : Type 0 where
  init : Option Text → Option Text → WalletRequest
  restore : Text → Option Text → Option Text → WalletRequest
  list_accounts sync status export_blob helper_status : WalletRequest
  create_account : Text → Bool → WalletRequest
  balance registry_lookup account_read : Text → WalletRequest
  transfer : Text → Text → Text → WalletRequest
  program_call : Text → Text → List AccountPair → Option Text → WalletRequest
  faucet_drop : Text → Text → WalletRequest
  call_module : Text → Text → List Value → WalletRequest
  import_blob : Text → Option Text → WalletRequest

-- The state after a request, whether its promise was kept or rejected. A method that the backend
-- lacks does nothing.
unfoldable pub perform : {State : Type 0} → WalletBackend State → WalletRequest → State → State
perform w (WalletRequest.init p z) s = (w.init p z s).1
perform w (WalletRequest.restore m p z) s = (w.restore m p z s).1
perform w WalletRequest.list_accounts s = (w.list_accounts s).1
perform w WalletRequest.sync s = (w.sync s).1
perform w WalletRequest.status s = (w.status s).1
perform w WalletRequest.export_blob s = elim (w.export_blob) [ none ↦ s | some call ↦ (call s).1 ]
perform w WalletRequest.helper_status s = elim (w.helper_status) [
  | none ↦ s
  | some call ↦ (call s).1
]
perform w (WalletRequest.create_account l p) s = (w.create_account l p s).1
perform w (WalletRequest.balance a) s = (w.balance a s).1
perform w (WalletRequest.registry_lookup p) s = elim (w.registry_lookup) [
  | none ↦ s
  | some call ↦ (call p s).1
]
perform w (WalletRequest.account_read a) s = elim (w.account_read) [
  | none ↦ s
  | some call ↦ (call a s).1
]
perform w (WalletRequest.transfer f t a) s = (w.transfer f t a s).1
perform w (WalletRequest.program_call p d ps y) s = (w.program_call p d ps y s).1
perform w (WalletRequest.faucet_drop a k) s = elim (w.faucet_drop) [
  | none ↦ s
  | some call ↦ (call a k s).1
]
perform w (WalletRequest.call_module m n vs) s = elim (w.call_module) [
  | none ↦ s
  | some call ↦ (call m n vs s).1
]
perform w (WalletRequest.import_blob b z) s = elim (w.import_blob) [
  | none ↦ s
  | some call ↦ (call b z s).1
]

unfoldable pub perform_all :
    {State : Type 0} → WalletBackend State → List WalletRequest → State → State
perform_all w [] s = s
perform_all w (r ∷ rs) s = perform_all w rs (perform w r s)
