-- ===== src/Backends/Tauri/Legal.antt =====
-- Every method of TauriBackend sends the operations that need the keys of the vault only after the
-- worker has accepted a vault.
use widespread_logos.Prelude.{
  Bool, true, false, Option, List, [], ◌∷◌, Text, codes, Result, ok, if◌then◌else◌, ◌≡◌, refl,
}
use widespread_logos.Prelude.Tasks.{settle, ◌>>=◌}
use widespread_logos.Prelude.Tasks.Triples.{
  Outcome, Ensures, Ensures-done, Ensures-settle, Ensures-fail, Ensures-if, Ensures-bind,
  Ensures-then,
}
use widespread_logos.Platform.Json.{Value, object, str, undefined}
use widespread_logos.Backends.Tauri.{
  Tauri, Desktop, command, named, op, set_unlocked, unlock_stored, ensure_unlocked, keep_blob,
  persist_blob, init, restore, list_accounts, create_account, balance, sync, status, transfer,
  program_call, registry_lookup, account_read, export_blob, import_blob, persisted_hash,
}
use widespread_logos.Backends.Tauri.Session.{
  guarded, opening, IsLegal, IsOpen, IsOpen-IsLegal, command-IsLegal, command-IsOpen, command-opens,
}
use widespread_logos.Backends.Seam.{AccountPair}

module _ {Host : Type 0} (window : Option (Tauri Host)) where
  pub named-IsLegal :
      (name : Text) (fs : List (Text × Value))
      → guarded (codes "lez_op") (object ((codes "op", object ((codes "op", str name) ∷ fs)) ∷ []))
        ≡ false
      → Ensures IsLegal IsLegal (named window name fs) IsLegal
  unfolding named op
  named-IsLegal name fs plain = command-IsLegal window _ _ plain

  named-IsOpen :
      (name : Text) (fs : List (Text × Value))
      → Ensures IsLegal IsOpen (named window name fs) IsOpen
  unfolding named op
  named-IsOpen name fs = command-IsOpen window _ _

  named-opens :
      (name : Text) (fs : List (Text × Value))
      → guarded (codes "lez_op") (object ((codes "op", object ((codes "op", str name) ∷ fs)) ∷ []))
        ≡ false
      → opening (codes "lez_op") (object ((codes "op", object ((codes "op", str name) ∷ fs)) ∷ []))
        ≡ true
      → Ensures IsLegal IsLegal (named window name fs) IsOpen
  unfolding named op
  named-opens name fs plain opens = command-opens window _ _ plain opens

  set_unlocked-IsOpen : Ensures IsLegal IsOpen (set_unlocked window) IsOpen
  unfolding set_unlocked IsOpen
  set_unlocked-IsOpen = record { run = λ d h. h }

  settle-IsOpen :
      {V : Type 0} (r : Result V) → Ensures {State = Desktop Host} IsLegal IsOpen (settle r) IsOpen
  settle-IsOpen r = Ensures-settle r IsOpen-IsLegal

  pub settle-IsLegal :
      {V : Type 0} (r : Result V)
      → Ensures {State = Desktop Host} IsLegal IsLegal (settle r) IsLegal
  settle-IsLegal r = Ensures-settle r (λ s h. h)

  unlock_stored-IsOpen : (blob : Value) → Ensures IsLegal IsLegal (unlock_stored window blob) IsOpen
  unfolding unlock_stored guarded opening
  unlock_stored-IsOpen blob =
      Ensures-if _ _ _ (Ensures-fail _ (λ s h. h))
        (Ensures-then (named-opens _ _ refl refl) set_unlocked-IsOpen)

  locked-IsOpen :
      Ensures IsLegal IsLegal
        (command window (codes "vault_blob_get") undefined >>= unlock_stored window)
        IsOpen
  unfolding guarded
  locked-IsOpen = Ensures-bind (command-IsLegal window _ _ refl) unlock_stored-IsOpen

  ensure_unlocked-IsOpen : Ensures IsLegal IsLegal (ensure_unlocked window) IsOpen
  unfolding ensure_unlocked IsLegal IsOpen
  ensure_unlocked-IsOpen = record { run = λ d h. from d d.unlocked refl h }
    where
      from :
          (d : Desktop Host) (b : Bool)
          → d.unlocked ≡ b
          → IsLegal d
          → Outcome IsLegal IsOpen (
              if b
              then (ok tt, d)
              else (command window (codes "vault_blob_get") undefined >>= unlock_stored window) d)
      from d true e h = (h.0, h.1 e)
      from d false e h = locked-IsOpen.run d h

  keep_blob-IsOpen : (blob : Value) → Ensures IsLegal IsOpen (keep_blob window blob) IsOpen
  unfolding keep_blob
  keep_blob-IsOpen blob =
      Ensures-if _ _ _ (Ensures-then (command-IsOpen window _ _) (Ensures-done tt))
        (Ensures-done tt)

  persist_blob-IsOpen : Ensures IsLegal IsOpen (persist_blob window) IsOpen
  unfolding persist_blob
  persist_blob-IsOpen =
      Ensures-bind (named-IsOpen _ _) (λ out. Ensures-bind (settle-IsOpen _) keep_blob-IsOpen)

  pub init-IsLegal :
      (password zone_name : Option Text)
      → Ensures IsLegal IsLegal (init window password zone_name) IsOpen
  unfolding init guarded opening
  init-IsLegal password zone_name = Ensures-bind (named-opens _ _ refl refl) (λ out.
      Ensures-then persist_blob-IsOpen (Ensures-then set_unlocked-IsOpen (Ensures-done out)))

  pub restore-IsLegal :
      (mnemonic : Text) (password zone_name : Option Text)
      → Ensures IsLegal IsLegal (restore window mnemonic password zone_name) IsOpen
  unfolding restore guarded opening
  restore-IsLegal mnemonic password zone_name =
      Ensures-then (Ensures-then (named-opens _ _ refl refl) persist_blob-IsOpen)
        set_unlocked-IsOpen

  pub list_accounts-IsLegal : Ensures IsLegal IsLegal (list_accounts window) IsOpen
  unfolding list_accounts
  list_accounts-IsLegal = Ensures-then ensure_unlocked-IsOpen (
      Ensures-bind (named-IsOpen _ _)
        (λ out. Ensures-bind (settle-IsOpen _) (λ accounts. settle-IsOpen _)))

  pub create_account-IsLegal :
      (label : Text) (b : Bool) → Ensures IsLegal IsLegal (create_account window label b) IsOpen
  unfolding create_account
  create_account-IsLegal label b = Ensures-then ensure_unlocked-IsOpen (
      Ensures-bind (named-IsOpen _ _) (λ out.
        Ensures-then persist_blob-IsOpen (Ensures-bind (settle-IsOpen _) (λ id. Ensures-done _))))

  pub sync-IsLegal : Ensures IsLegal IsLegal (sync window) IsOpen
  unfolding sync
  sync-IsLegal = Ensures-then ensure_unlocked-IsOpen (
      Ensures-bind (named-IsOpen _ _)
        (λ out. Ensures-bind (settle-IsOpen _) (λ block. Ensures-done _)))

  persisted_hash-IsOpen : (out : Value) → Ensures IsLegal IsOpen (persisted_hash window out) IsOpen
  unfolding persisted_hash
  persisted_hash-IsOpen out =
      Ensures-then persist_blob-IsOpen (Ensures-bind (settle-IsOpen _) (λ hash. Ensures-done _))

  pub transfer-IsLegal :
      (from to amount : Text) → Ensures IsLegal IsLegal (transfer window from to amount) IsOpen
  unfolding transfer
  transfer-IsLegal from to amount =
      Ensures-then ensure_unlocked-IsOpen (Ensures-bind (named-IsOpen _ _) persisted_hash-IsOpen)

  pub program_call-IsLegal :
      (program data_hex : Text) (accounts : List AccountPair) (payer : Option Text)
      → Ensures IsLegal IsLegal (program_call window program data_hex accounts payer) IsOpen
  unfolding program_call
  program_call-IsLegal program data_hex accounts payer =
      Ensures-then ensure_unlocked-IsOpen (Ensures-bind (named-IsOpen _ _) persisted_hash-IsOpen)

  pub export_blob-IsLegal : Ensures IsLegal IsLegal (export_blob window) IsOpen
  unfolding export_blob
  export_blob-IsLegal = Ensures-then ensure_unlocked-IsOpen (
      Ensures-bind (named-IsOpen _ _)
        (λ out. Ensures-bind (settle-IsOpen _) (λ blob. Ensures-done _)))

  pub balance-IsLegal : (account : Text) → Ensures IsLegal IsLegal (balance window account) IsLegal
  unfolding balance guarded
  balance-IsLegal account =
      Ensures-bind (named-IsLegal _ _ refl)
        (λ out. Ensures-bind (settle-IsLegal _) (λ found. Ensures-done _))

  pub status-IsLegal : Ensures IsLegal IsLegal (status window) IsLegal
  unfolding status guarded
  status-IsLegal = named-IsLegal _ _ refl

  pub registry_lookup-IsLegal :
      (program : Text) → Ensures IsLegal IsLegal (registry_lookup window program) IsLegal
  unfolding registry_lookup guarded
  registry_lookup-IsLegal program =
      Ensures-bind (named-IsLegal _ _ refl)
        (λ out. Ensures-bind (settle-IsLegal _) (λ entry. Ensures-done _))

  pub account_read-IsLegal :
      (account : Text) → Ensures IsLegal IsLegal (account_read window account) IsLegal
  unfolding account_read guarded
  account_read-IsLegal account = named-IsLegal _ _ refl

  pub import_blob-IsLegal :
      (blob : Text) (zone_name : Option Text)
      → Ensures IsLegal IsLegal (import_blob window blob zone_name) IsOpen
  unfolding import_blob guarded opening
  import_blob-IsLegal blob zone_name =
      Ensures-then (Ensures-then (command-IsLegal window _ _ refl) (named-opens _ _ refl refl))
        set_unlocked-IsOpen
