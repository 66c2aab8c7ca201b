-- ===== src/Tests/Surfaces.antt =====
-- The backends of the surfaces at concrete inputs: a shell that keeps a blob in memory, a module that
-- answers every operation alike, and a database that is a list of entries.
use widespread_logos.Prelude.{
  ℕ, true, false, Option, none, some, List, [], ◌∷◌, Text, codes, text_eq, message, ok, err,
  if◌then◌else◌, ◌≡◌, refl, map,
}
use widespread_logos.Prelude.Tasks.{done, fail, settle, ◌>>=◌, ◌>>◌}
use widespread_logos.Platform.Json.{
  Value, undefined, null, str, object, get, get?, find, or_else, truthy,
}
use widespread_logos.Backends.Seam.{WalletRequest, perform, perform_all}
use widespread_logos.Backends.Tauri
use widespread_logos.Backends.Module
use widespread_logos.Backends.Module.{Json, Logos, called}
use widespread_logos.Backends.Agreement.{worker_accounts, without_id, list_accounts-loses_ids}
use widespread_logos.Backends.Tauri.{Tauri, TauriCore, Invoke, Desktop, Command, tauri_backend}
use widespread_logos.Backends.Tauri.Session.{legal}
use widespread_logos.Backends.Tauri.Invariant.{session-legal, new_desktop}
use widespread_logos.Backends.Tauri.Writes.{
  IsStored, Write, send_transfer, sync_use, write, key_use, write-stores, locked-refuses,
}
use widespread_logos.Backends.Tauri.Stores.{stores, stored, perform-stores}

-- A shell that stores a blob, and a worker that accepts every operation.
worker_reply : Value
worker_reply = object (
    (codes "mnemonic", str (codes "abandon ability"))
    ∷ (codes "blob_b64", str (codes "AAEC"))
    ∷ (codes "hash", str (codes "0x5a"))
    ∷ [])

stored_value : Option Value → Value
stored_value none = null
stored_value (some v) = v

abbrev memory_invoke : Invoke (Option Value)
memory_invoke cmd args kept =
    if text_eq cmd (codes "vault_blob_get")
    then (ok (stored_value kept), kept)
    else if text_eq cmd (codes "vault_blob_set")
    then (ok null, some (get? (codes "b64") args))
    else (ok worker_reply, kept)

abbrev shell : Option (Tauri (Option Value))
shell = some (record { core = some (record { invoke = some memory_invoke }) })

abbrev session_requests : List WalletRequest
session_requests =
    WalletRequest.sync
    ∷ WalletRequest.init none none
    ∷ WalletRequest.transfer (codes "Public/a") (codes "Public/b") (codes "5")
    ∷ []

session-legal_example :
    legal (perform_all (tauri_backend shell) session_requests (new_desktop none)).commands ≡ true
session-legal_example = session-legal shell session_requests none

-- A desktop whose shell holds a blob.
abbrev with_blob : Desktop (Option Value)
with_blob = record { unlocked = false; commands = []; host = some (str (codes "AAEC")) }

abbrev a_transfer : Write
a_transfer = send_transfer (codes "Public/a") (codes "Public/b") (codes "5")

write-stores_example : IsStored (write shell a_transfer with_blob).1.commands
unfolding write Tauri.transfer ◌>>◌ Tauri.ensure_unlocked ◌>>=◌ Tauri.command Tauri.unlock_stored
    truthy stored_value Tauri.named Tauri.op Tauri.set_unlocked Tauri.persisted_hash
    Tauri.persist_blob Tauri.keep_blob Tauri.call_core Tauri.call_invoke Tauri.tauri_core
    worker_reply get find settle done get? or_else fail
write-stores_example = write-stores shell a_transfer with_blob refl

locked-refuses_example : key_use shell sync_use (new_desktop none) ≡ (
  err (message (codes "vault locked — init or restore first")),
  (Tauri.command shell (codes "vault_blob_get") undefined (new_desktop none)).1,
)
unfolding Tauri.command Tauri.call_core Tauri.call_invoke Tauri.tauri_core stored_value truthy
    new_desktop
locked-refuses_example =
    locked-refuses shell sync_use (new_desktop none)
      (Tauri.command shell (codes "vault_blob_get") undefined (new_desktop none)).1 refl refl refl

perform-stores_example :
    stored (perform (tauri_backend shell) WalletRequest.sync with_blob).commands ≡ []
unfolding stores stored
perform-stores_example = perform-stores shell WalletRequest.sync with_blob refl

-- Account lists.
abbrev one_account : List (Text × Text)
one_account = (codes "9xQe", codes "main") ∷ []

abbrev accounts_reply : Value
accounts_reply = object ((codes "accounts", worker_accounts one_account) ∷ [])

abbrev answering_json : Json
answering_json = record { parse = λ s. ok accounts_reply; stringify = λ v. [] }

abbrev answering_logos : Option (Logos ℕ)
answering_logos =
    some (record { call_module_async = some (λ program method args h. (called [], h)) })

list_accounts-loses_ids_example :
    Module.list_accounts answering_json answering_logos 0 ≡ (ok (map without_id one_account), 0)
unfolding Module.worker Module.exec Module.call_module Module.call_async Module.bridge
    Module.promise_of Module.open_envelope Module.is_error ◌>>=◌ settle get find
list_accounts-loses_ids_example =
    list_accounts-loses_ids answering_json answering_logos one_account 0 0 refl
