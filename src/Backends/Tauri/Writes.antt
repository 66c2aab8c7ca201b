-- ===== src/Backends/Tauri/Writes.antt =====
-- What TauriBackend stores, and what a locked one sends.
use widespread_logos.Prelude.{
  Bool, true, false, Option, List, [], ◌∷◌, Text, codes, message, Result, ok, err, if◌then◌else◌,
  ◌≡◌, refl, inl, inr, Bool-cases,
}
use mathlib.Core.Path.{subst, ap, ◌∙◌}
use widespread_logos.Prelude.Tasks.{Task, resume, done, fail, settle, ◌>>=◌, ◌>>◌}
use widespread_logos.Prelude.Tasks.Triples.{
  Outcome, Ensures, Ensures-done, Ensures-settle, Ensures-bind, Ensures-then,
}
use widespread_logos.Platform.Json.{Value, object, get, truthy, undefined, str}
use widespread_logos.Backends.Seam.{AccountPair}
use widespread_logos.Backends.Tauri.{
  Tauri, Desktop, Command, command, named, op, set_unlocked, ensure_unlocked, unlock_stored,
  keep_blob, persist_blob, init, restore, create_account, transfer, program_call, persisted_hash,
  list_accounts, sync, export_blob,
}
use widespread_logos.Backends.Tauri.Session.{command-cases}

-- `export_blob`, as it is given to the shell.
abbrev pub export_command : Value → Command
export_command out = record {
  cmd = codes "lez_op";
  args = object ((codes "op", object ((codes "op", str (codes "export_blob")) ∷ [])) ∷ []);
  reply = ok out;
}

abbrev pub store_command : Value → Value → Command
store_command blob answer = record {
  cmd = codes "vault_blob_set";
  args = object ((codes "b64", blob) ∷ []);
  reply = ok answer;
}

-- The last commands exported the vault and stored what was exported, unless there was nothing to store.
pub data IsStored : List Command → Type 0 where
  nothing :
      (out blob : Value) (cs : List Command)
      → get (codes "blob_b64") out ≡ ok blob
      → truthy blob ≡ false
      → IsStored (export_command out ∷ cs)
  stored :
      (out blob answer : Value) (cs : List Command)
      → get (codes "blob_b64") out ≡ ok blob
      → truthy blob ≡ true
      → IsStored (store_command blob answer ∷ export_command out ∷ cs)

-- The calls of init, restore, createAccount, transfer and programCall.
pub data Write : Type 0 where
  init_vault : Option Text → Option Text → Write
  restore_vault : Text → Option Text → Option Text → Write
  new_account : Text → Bool → Write
  send_transfer : Text → Text → Text → Write
  send_call : Text → Text → List AccountPair → Option Text → Write

module _ {Host : Type 0} (window : Option (Tauri Host)) where
  unfoldable pub write : Write → Task (Desktop Host) Value
  write (init_vault p z) = init window p z
  write (restore_vault m p z) = restore window m p z >> done undefined
  write (new_account l b) = create_account window l b
  write (send_transfer f t a) = transfer window f t a
  write (send_call p x ps y) = program_call window p x ps y

-- The methods that need the keys of the vault, and what their promise comes to.
pub data KeyUse : Type 0 where
  list_accounts_use sync_use export_blob_use : KeyUse
  new_account_use : Text → Bool → KeyUse
  send_transfer_use : Text → Text → Text → KeyUse
  send_call_use : Text → Text → List AccountPair → Option Text → KeyUse

module _ {Host : Type 0} (window : Option (Tauri Host)) where
  unfoldable pub key_use : KeyUse → Task (Desktop Host) (Unit {0})
  key_use list_accounts_use = list_accounts window >> done tt
  key_use sync_use = sync window >> done tt
  key_use export_blob_use = export_blob window >> done tt
  key_use (new_account_use l b) = create_account window l b >> done tt
  key_use (send_transfer_use f t a) = transfer window f t a >> done tt
  key_use (send_call_use p x ps y) = program_call window p x ps y >> done tt

module _ {Host : Type 0} where
  abbrev Any : Desktop Host → Type 0
  Any d = Unit {0}

  abbrev pub HasStored : Desktop Host → Type 0
  HasStored d = IsStored d.commands

  -- Any state will do.
  any : {V : Type 0} (m : Task (Desktop Host) V) → Ensures Any Any m Any
  any m = record { run = λ d h. anything (m d) }
    where
      anything : {V : Type 0} (o : Result V × Desktop Host) → Outcome Any Any o
      anything (err e, d) = tt
      anything (ok v, d) = tt

module _ {Host : Type 0} (window : Option (Tauri Host)) where
  set-IsStored :
      (d : Desktop Host) (out blob : Value) (cs : List Command)
      → d.commands ≡ export_command out ∷ cs
      → get (codes "blob_b64") out ≡ ok blob
      → truthy blob ≡ true
      → Outcome Any HasStored (
          (command window (codes "vault_blob_set") (object ((codes "b64", blob) ∷ [])) >> done tt)
            d)
  unfolding ◌>>◌ done
  set-IsStored d out blob cs last found full =
      elim (command-cases window (codes "vault_blob_set") (object ((codes "b64", blob) ∷ [])) d) [
        | inl (e, same) ↦ rw same tt
        | inr (err e, host, same) ↦ rw same tt
        | inr (ok v, host, same) ↦ rw (same, last) (stored out blob v cs found full)
      ]

  keep_blob-IsStored :
      (d : Desktop Host) (out blob : Value) (cs : List Command)
      → d.commands ≡ export_command out ∷ cs
      → get (codes "blob_b64") out ≡ ok blob
      → Outcome Any HasStored (keep_blob window blob d)
  unfolding keep_blob done
  keep_blob-IsStored d out blob cs last found = elim (Bool-cases (truthy blob)) [
    | inl full ↦ rw full (set-IsStored d out blob cs last found full)
    | inr bare ↦ rw (bare, last) (nothing out blob cs found bare)
  ]

  settle-IsStored :
      (d : Desktop Host) (out : Value) (cs : List Command) (r : Result Value)
      → d.commands ≡ export_command out ∷ cs
      → get (codes "blob_b64") out ≡ r
      → Outcome Any HasStored ((settle r >>= keep_blob window) d)
  unfolding ◌>>=◌ settle
  settle-IsStored d out cs (err e) last found = tt
  settle-IsStored d out cs (ok blob) last found = keep_blob-IsStored d out blob cs last found

  persist_blob-IsStored : Ensures Any Any (persist_blob window) HasStored
  unfolding persist_blob ◌>>=◌ named op
  persist_blob-IsStored = record {
    run = λ d h.
        elim (command-cases window (codes "lez_op")
          (object ((codes "op", object ((codes "op", str (codes "export_blob")) ∷ [])) ∷ [])) d) [
            | inl (e, same) ↦ rw same tt
            | inr (err e, host, same) ↦ rw same tt
            | inr (ok out, host, same) ↦ rw same (settle-IsStored _ out d.commands _ refl refl)
          ];
  }

  keeps-IsStored :
      {V : Type 0} (r : Result V) → Ensures (Any {Host = Host}) HasStored (settle r) HasStored
  keeps-IsStored r = Ensures-settle r (λ d h. tt)

  set_unlocked-IsStored : Ensures Any HasStored (set_unlocked window) HasStored
  unfolding set_unlocked
  set_unlocked-IsStored = record { run = λ d h. h }

  persisted_hash-IsStored : (out : Value) → Ensures Any Any (persisted_hash window out) HasStored
  unfolding persisted_hash
  persisted_hash-IsStored out =
      Ensures-then persist_blob-IsStored (Ensures-bind (keeps-IsStored _) (λ hash. Ensures-done _))

  write-IsStored : (w : Write) → Ensures Any Any (write window w) HasStored
  unfolding write init restore create_account transfer program_call
  write-IsStored (init_vault p z) = Ensures-bind (any _) (λ out.
      Ensures-then persist_blob-IsStored (Ensures-then set_unlocked-IsStored (Ensures-done out)))
  write-IsStored (restore_vault m p z) =
      Ensures-then (Ensures-then (Ensures-then (any _) persist_blob-IsStored) set_unlocked-IsStored)
        (Ensures-done undefined)
  write-IsStored (new_account l b) = Ensures-then (any _) (
      Ensures-bind (any _) (λ out.
        Ensures-then persist_blob-IsStored
          (Ensures-bind (keeps-IsStored _) (λ id. Ensures-done _))))
  write-IsStored (send_transfer f t a) =
      Ensures-then (any _) (Ensures-bind (any _) persisted_hash-IsStored)
  write-IsStored (send_call p x ps y) =
      Ensures-then (any _) (Ensures-bind (any _) persisted_hash-IsStored)

  of_outcome :
      {V : Type 0} (o : Result V × Desktop Host) {v : V} {after : Desktop Host}
      → Outcome Any HasStored o
      → o ≡ (ok v, after)
      → IsStored after.commands
  of_outcome (err e, d) h same = cc
  of_outcome (ok w, d) h same = subst (λ p. HasStored p.1) same h

  -- When init, restore, createAccount, transfer or programCall returns, the last things that the shell
  -- did were to export the vault and to store what was exported; it stored nothing only if the export
  -- had no blob.
  pub write-stores :
      (w : Write) (d : Desktop Host) {v : Value} {after : Desktop Host}
      → write window w d ≡ (ok v, after)
      → IsStored after.commands
  write-stores w d returned = of_outcome (write window w d) ((write-IsStored w).run d tt) returned

  ensure_unlocked-refuses :
      (d after : Desktop Host) {blob : Value}
      → d.unlocked ≡ false
      → command window (codes "vault_blob_get") undefined d ≡ (ok blob, after)
      → truthy blob ≡ false
      → ensure_unlocked window d
        ≡ (err (message (codes "vault locked — init or restore first")), after)
  unfolding ensure_unlocked ◌>>=◌ unlock_stored fail
  ensure_unlocked-refuses d after {blob} locked asked bare =
      if_locked ∙ asked_first ∙ rw (bare) refl
    where
      if_locked :
          ensure_unlocked window d
          ≡ (command window (codes "vault_blob_get") undefined >>= unlock_stored window) d
      if_locked =
          ap
            (λ b.
              if b
              then (ok tt, d)
              else (command window (codes "vault_blob_get") undefined >>= unlock_stored window) d)
            locked

      asked_first :
          (command window (codes "vault_blob_get") undefined >>= unlock_stored window) d
          ≡ unlock_stored window blob after
      asked_first = ap (λ o. resume o (unlock_stored window)) asked

  -- A locked backend whose shell stores no blob: every method that needs the keys is rejected, and
  -- the shell is asked for the blob and for nothing else.
  pub locked-refuses :
      (g : KeyUse) (d after : Desktop Host) {blob : Value}
      → d.unlocked ≡ false
      → command window (codes "vault_blob_get") undefined d ≡ (ok blob, after)
      → truthy blob ≡ false
      → key_use window g d ≡ (err (message (codes "vault locked — init or restore first")), after)
  unfolding key_use list_accounts create_account sync transfer program_call export_blob ◌>>◌
  locked-refuses list_accounts_use d after locked asked bare =
      rw (ensure_unlocked-refuses d after locked asked bare)
  locked-refuses (new_account_use l b) d after locked asked bare =
      rw (ensure_unlocked-refuses d after locked asked bare)
  locked-refuses sync_use d after locked asked bare =
      rw (ensure_unlocked-refuses d after locked asked bare)
  locked-refuses (send_transfer_use f t a) d after locked asked bare =
      rw (ensure_unlocked-refuses d after locked asked bare)
  locked-refuses (send_call_use p x ps y) d after locked asked bare =
      rw (ensure_unlocked-refuses d after locked asked bare)
  locked-refuses export_blob_use d after locked asked bare =
      rw (ensure_unlocked-refuses d after locked asked bare)
