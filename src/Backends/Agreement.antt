-- ===== src/Backends/Agreement.antt =====
-- What TauriBackend and ModuleBackend make of the same answer of the worker to list_accounts.
use widespread_logos.Prelude.{
  true, Option, List, [], ◌∷◌, map, Text, codes, ok, ◌≡◌, refl, ap, if◌then◌else◌, ◌∙◌,
}
use widespread_logos.Prelude.Tasks.{Task, settle, resume, ◌>>=◌, ◌>>◌}
use widespread_logos.Platform.Json.{
  Value, undefined, str, arr, nil, object, array, get, get?, find, or_else,
}
use widespread_logos.Backends.Seam.{LezAccount}
use widespread_logos.Backends.Tauri
use widespread_logos.Backends.Module
use widespread_logos.Backends.Tauri.{snake_pair, map_accounts, lez_accounts, lez_account}
use widespread_logos.Backends.Module.{cast_list, cast_accounts, cast_account}

-- An account of the worker's answer to list_accounts (AccountInfo of crates/wsp-lez-core).
abbrev pub worker_account : Text × Text → Value
worker_account (id, label) = object ((codes "account_id", str id) ∷ (codes "label", str label) ∷ [])

abbrev pub worker_accounts : List (Text × Text) → Value
worker_accounts accounts = arr (array (map worker_account accounts))

abbrev pub with_id : Text × Text → LezAccount
with_id (id, label) = record { label = str label; account_id = str id }

abbrev pub without_id : Text × Text → LezAccount
without_id (id, label) = record { label = str label; account_id = undefined }

map_accounts-worker :
    (accounts : List (Text × Text))
    → map_accounts (worker_accounts accounts) ≡ ok (map with_id accounts)
unfolding map_accounts lez_accounts lez_account get find or_else
map_accounts-worker accounts = each accounts
  where
    each :
        (accounts : List (Text × Text))
        → lez_accounts (array (map worker_account accounts)) ≡ ok (map with_id accounts)
    each [] = refl
    each (a ∷ accounts) = rw (each accounts) refl

cast_list-worker :
    (accounts : List (Text × Text))
    → cast_list (worker_accounts accounts) ≡ ok (map without_id accounts)
unfolding cast_list cast_accounts cast_account get? find
cast_list-worker accounts = ap ok (each accounts)
  where
    each :
        (accounts : List (Text × Text))
        → cast_accounts (array (map worker_account accounts)) ≡ map without_id accounts
    each [] = refl
    each (a ∷ accounts) = ap (λ rest. without_id a ∷ rest) (each accounts)

module _ {Host : Type 0} (window : Option (Tauri.Tauri Host)) where
  -- An unlocked TauriBackend lists the accounts that the worker answers with, under their ids.
  pub list_accounts-worker :
      (accounts : List (Text × Text)) (d after : Tauri.Desktop Host)
      → d.unlocked ≡ true
      → Tauri.named window (codes "list_accounts") [] d
        ≡ (ok (object ((codes "accounts", worker_accounts accounts) ∷ [])), after)
      → Tauri.list_accounts window d ≡ (ok (map with_id accounts), after)
  unfolding Tauri.list_accounts Tauri.ensure_unlocked ◌>>=◌ ◌>>◌ settle get find or_else
  list_accounts-worker accounts d after unlocked answered =
      first ∙ second ∙ ap (λ r. (r, after)) (map_accounts-worker accounts)
    where
      read : Value → Task (Tauri.Desktop Host) (List LezAccount)
      read out = settle (get (codes "accounts") out) >>= λ found.
          settle (map_accounts (or_else found (arr nil)))

      ask : Task (Tauri.Desktop Host) (List LezAccount)
      ask = Tauri.named window (codes "list_accounts") [] >>= read

      first : Tauri.list_accounts window d ≡ ask d
      first =
          ap
            (λ b.
              resume
                (if b
                  then (ok tt, d)
                  else (Tauri.command window (codes "vault_blob_get") undefined
                        >>= Tauri.unlock_stored window)
                      d)
                (λ _. ask))
            unlocked

      second : ask d ≡ read (object ((codes "accounts", worker_accounts accounts) ∷ [])) after
      second = ap (λ o. resume o read) answered

module _ {Host : Type 0} (json : Module.Json) (window : Option (Module.Logos Host)) where
  -- ModuleBackend lists the same answer with no account id at all.
  pub list_accounts-loses_ids :
      (accounts : List (Text × Text)) (h after : Host)
      → Module.worker json window (codes "list_accounts") [] h
        ≡ (ok (object ((codes "accounts", worker_accounts accounts) ∷ [])), after)
      → Module.list_accounts json window h ≡ (ok (map without_id accounts), after)
  unfolding Module.list_accounts Module.part ◌>>=◌ settle get find or_else
  list_accounts-loses_ids accounts h after answered =
      ap (λ o. resume o read) answered ∙ ap (λ r. (r, after)) (cast_list-worker accounts)
    where
      read : Value → Task Host (List LezAccount)
      read out = settle (get (codes "accounts") out) >>= λ found.
          settle (cast_list (or_else found (arr nil)))
