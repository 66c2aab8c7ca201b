-- ===== src/Backends/Tauri/Invariant.antt =====
-- The session of TauriBackend over any sequence of requests of the UI.
use widespread_logos.Prelude.{true, false, Option, List, [], ◌∷◌, Result, ok, err, ◌≡◌, refl}
use widespread_logos.Prelude.Tasks.Triples.{Outcome, Ensures-left}
use widespread_logos.Backends.Tauri.{Tauri, Desktop, tauri_backend}
use widespread_logos.Backends.Tauri.Session.{IsLegal, IsOpen, IsOpen-IsLegal, legal, opened}
use widespread_logos.Backends.Tauri.Legal
use widespread_logos.Backends.Seam.{WalletRequest, perform, perform_all}

-- A new TauriBackend, in a shell that has been given no command.
unfoldable pub new_desktop : {Host : Type 0} → Host → Desktop Host
new_desktop host = record { unlocked = false; commands = []; host = host }

module _ {Host V : Type 0} where
  closed : (o : Result V × Desktop Host) → Outcome IsLegal IsOpen o → IsLegal o.1
  closed (err e, d) h = h
  closed (ok v, d) h = IsOpen-IsLegal d h

module _ {Host : Type 0} (window : Option (Tauri Host)) where
  perform-IsLegal :
      (r : WalletRequest) (d : Desktop Host)
      → IsLegal d
      → IsLegal (perform (tauri_backend window) r d)
  unfolding perform tauri_backend
  perform-IsLegal (WalletRequest.init p z) d h = closed _ ((Legal.init-IsLegal window p z).run d h)
  perform-IsLegal (WalletRequest.restore m p z) d h =
      closed _ ((Legal.restore-IsLegal window m p z).run d h)
  perform-IsLegal WalletRequest.list_accounts d h =
      closed _ ((Legal.list_accounts-IsLegal window).run d h)
  perform-IsLegal WalletRequest.sync d h = closed _ ((Legal.sync-IsLegal window).run d h)
  perform-IsLegal WalletRequest.status d h = Ensures-left (Legal.status-IsLegal window) d h
  perform-IsLegal WalletRequest.export_blob d h =
      closed _ ((Legal.export_blob-IsLegal window).run d h)
  perform-IsLegal WalletRequest.helper_status d h = h
  perform-IsLegal (WalletRequest.create_account l p) d h =
      closed _ ((Legal.create_account-IsLegal window l p).run d h)
  perform-IsLegal (WalletRequest.balance a) d h = Ensures-left (Legal.balance-IsLegal window a) d h
  perform-IsLegal (WalletRequest.registry_lookup p) d h =
      Ensures-left (Legal.registry_lookup-IsLegal window p) d h
  perform-IsLegal (WalletRequest.account_read a) d h =
      Ensures-left (Legal.account_read-IsLegal window a) d h
  perform-IsLegal (WalletRequest.transfer f t a) d h =
      closed _ ((Legal.transfer-IsLegal window f t a).run d h)
  perform-IsLegal (WalletRequest.program_call p x ps y) d h =
      closed _ ((Legal.program_call-IsLegal window p x ps y).run d h)
  perform-IsLegal (WalletRequest.faucet_drop a k) d h = h
  perform-IsLegal (WalletRequest.call_module m n vs) d h = h
  perform-IsLegal (WalletRequest.import_blob b z) d h =
      closed _ ((Legal.import_blob-IsLegal window b z).run d h)

  perform_all-IsLegal :
      (rs : List WalletRequest) (d : Desktop Host)
      → IsLegal d
      → IsLegal (perform_all (tauri_backend window) rs d)
  unfolding perform_all
  perform_all-IsLegal [] d h = h
  perform_all-IsLegal (r ∷ rs) d h = perform_all-IsLegal rs _ (perform-IsLegal r d h)

  -- Whatever the UI asks of a new TauriBackend, whatever the shell answers: an operation that needs
  -- the keys (list_accounts, create_account, sync, transfer, program_call, export_blob) is given to
  -- the shell only after the worker accepted an init, a restore or an unlock.
  pub session-legal :
      (rs : List WalletRequest) (host : Host)
      → legal ((perform_all (tauri_backend window) rs (new_desktop host)).commands) ≡ true
  unfolding IsLegal legal new_desktop opened
  session-legal rs host = (perform_all-IsLegal rs (new_desktop host) (refl, λ e. cc)).0
