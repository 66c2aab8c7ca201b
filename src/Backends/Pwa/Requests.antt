-- ===== src/Backends/Pwa/Requests.antt =====
-- What the requests to a PwaBackend leave in IndexedDB.
use widespread_logos.Prelude.{Bool, true, false, ◌||◌, List, [], ◌∷◌, Text, ◌≡◌}
use widespread_logos.Pda.{Sha256}
use widespread_logos.Registry.Client.{Indexer}
use widespread_logos.Backends.Module.{Json}
use widespread_logos.Backends.Seam.{WalletRequest, perform}
use widespread_logos.Backends.Pwa.{PwaBackend, Sequencer}
use widespread_logos.Backends.Pwa.Blob.{Idb}
use widespread_logos.Backends.Pwa.Surface.{watch_account}
use widespread_logos.Backends.Pwa.Scan.{pwa_backend}
use widespread_logos.Backends.Pwa.Watched.{Watched}

-- A request through the interface that may write to IndexedDB.
unfoldable pub is_import : WalletRequest → Bool
is_import (WalletRequest.import_blob b z) = true
is_import _ = false

-- What a PwaBackend is asked: a method of the interface, or watchAccount, which only it has.
pub data PwaRequest : Type 0 where
  asked : WalletRequest → PwaRequest
  watch : Text → Text → PwaRequest

unfoldable pub imports : List PwaRequest → Bool
unfolding is_import
imports [] = false
imports (asked r ∷ rs) = is_import r || imports rs
imports (watch label id ∷ rs) = imports rs

module _ {Host : Type 0} (idb : Idb Host) (json : Json) (sequencer : Sequencer) (sha : Sha256)
    (indexer : Indexer) (w : PwaBackend) where
  abbrev Same : Host → Host → Type 0
  Same h s = s ≡ h

  unfoldable pub respond : PwaRequest → Host → Host
  unfolding perform pwa_backend
  respond (asked r) h = perform (pwa_backend idb json sequencer sha indexer w) r h
  respond (watch label id) h = (watch_account idb label id h).1

  unfoldable pub respond_all : List PwaRequest → Host → Host
  unfolding respond
  respond_all [] h = h
  respond_all (r ∷ rs) h = respond_all rs (respond r h)
