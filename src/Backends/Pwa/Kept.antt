-- ===== src/Backends/Pwa/Kept.antt =====
-- What PwaBackend keeps, under the laws of IndexedDB.
use widespread_logos.Prelude.{ℕ, false, Text, codes, text_eq, Error, ok, err, ◌≡◌, refl, ◌∙◌}
use widespread_logos.Prelude.Tasks.{◌>>◌}
use widespread_logos.Prelude.Tasks.Inversion.{>>-inversion}
use widespread_logos.Platform.Json.{Value, arr, obj}
use widespread_logos.Backends.Module.{Json}
use widespread_logos.Backends.Pwa.Blob.{Idb, Extracted}
use widespread_logos.Backends.Pwa.Surface.{idb_set, blob_record, store_blob, store_extracted}

-- A key reads as what was last put under it; a put that fails leaves the database as it was.
pub record Laws {Host : Type 0} (idb : Idb Host) : Type 0 where
  pub get-put :
      (k : Text) (v : Value) {h after : Host}
      → idb.set_item k v h ≡ (ok tt, after)
      → idb.get_item k after ≡ ok v
  pub get-other :
      (k j : Text) (v : Value) {h after : Host}
      → idb.set_item k v h ≡ (ok tt, after)
      → text_eq k j ≡ false
      → idb.get_item j after ≡ idb.get_item j h
  pub get-failed :
      (k : Text) (v : Value) {h after : Host} {e : Error}
      → idb.set_item k v h ≡ (err e, after)
      → (j : Text) → idb.get_item j after ≡ idb.get_item j h

module _ {Host : Type 0} (idb : Idb Host) (laws : Laws idb) where
  -- The three writes of importBlob.
  stored :
      (blob : Text) (x : Extracted) (h : Host) {after : Host}
      → store_extracted idb blob x h ≡ (ok tt, after)
      → (now_ms : ℕ) × (idb.get_item (codes "blob") after ≡ ok (blob_record blob now_ms))
        × (idb.get_item (codes "accounts") after ≡ ok (arr x.accounts))
        × (idb.get_item (codes "viewkeys") after ≡ ok (obj x.view_keys))
  unfolding store_extracted store_blob idb_set
  stored blob x h kept =
      let (_, h2, writes, last) =
        >>-inversion
          (idb_set idb (codes "accounts") (arr x.accounts)
            >> idb_set idb (codes "viewkeys") (obj x.view_keys))
          (store_blob idb blob) kept in
      let (_, h1, first, second) =
        >>-inversion (idb_set idb (codes "accounts") (arr x.accounts))
          (idb_set idb (codes "viewkeys") (obj x.view_keys)) writes in
      (
        idb.clock h2,
        laws.get-put _ _ last,
        laws.get-other _ _ _ last refl ∙ laws.get-other _ _ _ second refl ∙ laws.get-put _ _ first,
        laws.get-other _ _ _ last refl ∙ laws.get-put _ _ second,
      )
