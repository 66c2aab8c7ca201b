-- ===== src/Backends/Tauri/Stores.antt =====
-- Which methods of TauriBackend have the shell store a blob.
use widespread_logos.Prelude.{
  Bool, true, false, Option, List, [], ◌∷◌, Text, codes, text_eq, Result, ok, err, if◌then◌else◌,
  ◌≡◌, refl, inl, inr,
}
use widespread_logos.Prelude.Tasks.{Task, settle, ◌>>=◌}
use widespread_logos.Prelude.Tasks.Triples.{
  Outcome, Ensures, Ensures-done, Ensures-settle, Ensures-fail, Ensures-if, Ensures-bind,
  Ensures-then, Ensures-left,
}
use widespread_logos.Platform.Json.{Value, get, undefined}
use widespread_logos.Backends.Seam.{WalletRequest, perform}
use widespread_logos.Backends.Tauri.{
  Tauri, Desktop, Command, command, named, op, set_unlocked, ensure_unlocked, unlock_stored,
  list_accounts, balance, sync, status, registry_lookup, account_read, export_blob, tauri_backend,
}
use widespread_logos.Backends.Tauri.Session.{command-cases}

-- What the shell was given to store, the latest first.
unfoldable pub stored : List Command → List Value
stored [] = []
stored (c ∷ cs) =
    let rest = stored cs in if text_eq c.cmd (codes "vault_blob_set") then c.args ∷ rest else rest

-- The requests whose methods store a blob.
unfoldable pub stores : WalletRequest → Bool
stores (WalletRequest.init p z) = true
stores (WalletRequest.restore m p z) = true
stores (WalletRequest.create_account l p) = true
stores (WalletRequest.transfer f t a) = true
stores (WalletRequest.program_call p d ps y) = true
stores (WalletRequest.import_blob b z) = true
stores _ = false

module _ {Host : Type 0} (window : Option (Tauri Host)) (kept : List Value) where
  abbrev Kept : Desktop Host → Type 0
  Kept d = stored d.commands ≡ kept

  abbrev Keeps : {V : Type 0} → Task (Desktop Host) V → Type 0
  Keeps m = Ensures Kept Kept m Kept

  command-Keeps :
      (cmd : Text) (args : Value)
      → text_eq cmd (codes "vault_blob_set") ≡ false
      → Keeps (command window cmd args)
  unfolding stored
  command-Keeps cmd args other = record {
    run = λ d h. elim (command-cases window cmd args d) [
      | inl (e, same) ↦ rw same h
      | inr (err e, host, same) ↦ rw (same, other) h
      | inr (ok v, host, same) ↦ rw (same, other) h
    ];
  }

  settle-Keeps : {V : Type 0} (r : Result V) → Keeps (settle r)
  settle-Keeps r = Ensures-settle r (λ d h. h)

  named-Keeps : (name : Text) (fs : List (Text × Value)) → Keeps (named window name fs)
  unfolding named op
  named-Keeps name fs = command-Keeps _ _ refl

  set_unlocked-Keeps : Keeps (set_unlocked window)
  unfolding set_unlocked
  set_unlocked-Keeps = record { run = λ d h. h }

  unlock_stored-Keeps : (blob : Value) → Keeps (unlock_stored window blob)
  unfolding unlock_stored
  unlock_stored-Keeps blob =
      Ensures-if _ _ _ (Ensures-fail _ (λ d h. h))
        (Ensures-then (named-Keeps _ _) set_unlocked-Keeps)

  ask-Keeps : Keeps (command window (codes "vault_blob_get") undefined >>= unlock_stored window)
  ask-Keeps = Ensures-bind (command-Keeps _ _ refl) unlock_stored-Keeps

  ensure_unlocked-Keeps : Keeps (ensure_unlocked window)
  unfolding ensure_unlocked
  ensure_unlocked-Keeps = record { run = λ d h. from d h d.unlocked }
    where
      from :
          (d : Desktop Host)
          → Kept d
          → (b : Bool)
          → Outcome Kept Kept (
              if b
              then (ok tt, d)
              else (command window (codes "vault_blob_get") undefined >>= unlock_stored window) d)
      from d h true = h
      from d h false = ask-Keeps.run d h

  read-Keeps :
      {V : Type 0} (name : Text) (fs : List (Text × Value)) (key : Text)
      (next : Value → Task (Desktop Host) V)
      → ((v : Value) → Keeps (next v))
      → Keeps (named window name fs >>= λ out. settle (get key out) >>= next)
  read-Keeps name fs key next k =
      Ensures-bind (named-Keeps name fs) (λ out. Ensures-bind (settle-Keeps _) k)

  list_accounts-Keeps : Keeps (list_accounts window)
  unfolding list_accounts
  list_accounts-Keeps =
      Ensures-then ensure_unlocked-Keeps (read-Keeps _ _ _ _ (λ v. settle-Keeps _))

  sync-Keeps : Keeps (sync window)
  unfolding sync
  sync-Keeps = Ensures-then ensure_unlocked-Keeps (read-Keeps _ _ _ _ (λ v. Ensures-done _))

  export_blob-Keeps : Keeps (export_blob window)
  unfolding export_blob
  export_blob-Keeps = Ensures-then ensure_unlocked-Keeps (read-Keeps _ _ _ _ (λ v. Ensures-done _))

  balance-Keeps : (account : Text) → Keeps (balance window account)
  unfolding balance
  balance-Keeps account = read-Keeps _ _ _ _ (λ v. Ensures-done _)

  registry_lookup-Keeps : (program : Text) → Keeps (registry_lookup window program)
  unfolding registry_lookup
  registry_lookup-Keeps program = read-Keeps _ _ _ _ (λ v. Ensures-done _)

  status-Keeps : Keeps (status window)
  unfolding status
  status-Keeps = named-Keeps _ _

  account_read-Keeps : (account : Text) → Keeps (account_read window account)
  unfolding account_read
  account_read-Keeps account = named-Keeps _ _

module _ {Host : Type 0} (window : Option (Tauri Host)) where
  -- Of the requests of the UI to a TauriBackend, only init, restore, createAccount, transfer,
  -- programCall and importBlob ever have the shell store a blob. Every other one, sync among them,
  -- leaves the list of what the shell was given to store as it was, whether it returns or is rejected.
  pub perform-stores :
      (r : WalletRequest) (d : Desktop Host)
      → stores r ≡ false
      → stored (perform (tauri_backend window) r d).commands ≡ stored d.commands
  unfolding perform tauri_backend stores
  perform-stores WalletRequest.list_accounts d quiet =
      Ensures-left (list_accounts-Keeps window (stored d.commands)) d refl
  perform-stores WalletRequest.sync d quiet =
      Ensures-left (sync-Keeps window (stored d.commands)) d refl
  perform-stores WalletRequest.status d quiet =
      Ensures-left (status-Keeps window (stored d.commands)) d refl
  perform-stores WalletRequest.export_blob d quiet =
      Ensures-left (export_blob-Keeps window (stored d.commands)) d refl
  perform-stores WalletRequest.helper_status d quiet = refl
  perform-stores (WalletRequest.balance a) d quiet =
      Ensures-left (balance-Keeps window (stored d.commands) a) d refl
  perform-stores (WalletRequest.registry_lookup p) d quiet =
      Ensures-left (registry_lookup-Keeps window (stored d.commands) p) d refl
  perform-stores (WalletRequest.account_read a) d quiet =
      Ensures-left (account_read-Keeps window (stored d.commands) a) d refl
  perform-stores (WalletRequest.faucet_drop a k) d quiet = refl
  perform-stores (WalletRequest.call_module m n vs) d quiet = refl
  perform-stores (WalletRequest.init p z) d quiet = cc
  perform-stores (WalletRequest.restore m p z) d quiet = cc
  perform-stores (WalletRequest.create_account l p) d quiet = cc
  perform-stores (WalletRequest.transfer f t a) d quiet = cc
  perform-stores (WalletRequest.program_call p x ps y) d quiet = cc
  perform-stores (WalletRequest.import_blob b z) d quiet = cc
