-- ===== src/Backends/Tauri/Shell.antt =====
-- The session of TauriBackend (packages/wallet-ui/src/tauri-backend.ts): op, ensureUnlocked and
-- persistBlob. The desktop shell is a parameter: its `invoke` answers a command and changes the shell's
-- own state. The state of the backend is its flag `unlocked`; beside it stands the list of the commands
-- that the shell was given and how it answered, the latest first.
use widespread_logos.Prelude.{
  Bool, true, false, not, Option, none, some, List, [], ◌∷◌, Text, codes, Result, ok, err, message,
  type_error, if◌then◌else◌,
}
use widespread_logos.Prelude.Tasks.{Task, done, fail, settle, ◌>>=◌, ◌>>◌}
use widespread_logos.Platform.Json.{Value, undefined, str, object, get, truthy}

-- `core.invoke`
abbrev pub Invoke : Type 0 → Type 0
Invoke Host = Text → Value → Host → Result Value × Host

pub record TauriCore (Host : Type 0) : Type 0 where
  pub invoke : Option (Invoke Host)

-- `window.__TAURI__`
pub record Tauri (Host : Type 0) : Type 0 where
  pub core : Option (TauriCore Host)

pub record Command : Type 0 where
  pub cmd : Text
  pub args : Value
  pub reply : Result Value

pub record Desktop (Host : Type 0) : Type 0 where
  pub unlocked : Bool
  pub commands : List Command
  pub host : Host

module _ {Host : Type 0} where
  unfoldable pub call_invoke : Option (Invoke Host) → Text → Value → Task (Desktop Host) Value
  call_invoke none cmd args d = (err type_error, d)
  call_invoke (some invoke) cmd args d =
      let (reply, host) = invoke cmd args d.host in
      (
        reply,
        record d {
          commands = record { cmd = cmd; args = args; reply = reply } ∷ d.commands;
          host = host;
        },
      )

  -- `core()`, and then its `invoke`.
  unfoldable pub call_core : Option (TauriCore Host) → Text → Value → Task (Desktop Host) Value
  unfolding call_invoke
  call_core none cmd args =
      fail (message (codes "Tauri bridge unavailable — not running in the desktop shell"))
  call_core (some c) cmd args = call_invoke c.invoke cmd args

module _ {Host : Type 0} (window : Option (Tauri Host)) where
  -- `window.__TAURI__?.core`
  unfoldable pub tauri_core : Option (TauriCore Host)
  tauri_core = elim window [ none ↦ none | some t ↦ t.core ]

  unfoldable pub tauri_available : Bool
  unfolding tauri_core
  tauri_available = elim tauri_core [
    | none ↦ false
    | some c ↦ elim (c.invoke) [ none ↦ false | some _ ↦ true ]
  ]

  -- `core().invoke(cmd, args)`
  unfoldable pub command : Text → Value → Task (Desktop Host) Value
  unfolding tauri_core call_core
  command cmd args = call_core tauri_core cmd args

  unfoldable pub op : List (Text × Value) → Task (Desktop Host) Value
  op fs = command (codes "lez_op") (object ((codes "op", object fs) ∷ []))

  unfoldable pub named : Text → List (Text × Value) → Task (Desktop Host) Value
  named name fs = op ((codes "op", str name) ∷ fs)

  unfoldable pub set_unlocked : Task (Desktop Host) (Unit {0})
  set_unlocked d = (ok tt, record d { unlocked = true })

  unfoldable pub unlock_stored : Value → Task (Desktop Host) (Unit {0})
  unlock_stored blob =
      if not (truthy blob)
      then fail (message (codes "vault locked — init or restore first"))
      else named (codes "unlock") ((codes "blob_b64", blob) ∷ []) >> set_unlocked

  unfoldable pub ensure_unlocked : Task (Desktop Host) (Unit {0})
  ensure_unlocked d =
      if d.unlocked
      then (ok tt, d)
      else (command (codes "vault_blob_get") undefined >>= unlock_stored) d

  unfoldable pub keep_blob : Value → Task (Desktop Host) (Unit {0})
  keep_blob blob =
      if truthy blob
      then command (codes "vault_blob_set") (object ((codes "b64", blob) ∷ [])) >> done tt
      else done tt

  unfoldable pub persist_blob : Task (Desktop Host) (Unit {0})
  persist_blob =
      named (codes "export_blob") [] >>= λ out. settle (get (codes "blob_b64") out) >>= keep_blob
