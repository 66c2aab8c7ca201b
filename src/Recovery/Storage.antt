-- ===== src/Recovery/Storage.antt =====
-- storage.ts: the storage client as the orchestration uses it, and the REST client that implements it.
-- What the node holds is a state that an upload changes.
pub mod Rest
use widespread_logos.Prelude.{Text, Bytes, Result, ok, ◌≡◌}

-- `StorageClient`, over the node's state.
pub record StorageClient (S : Type 0) : Type 0 where
  pub upload : Bytes → S → Result (Text × S)
  pub download : Text → S → Result Bytes

-- What content addressing promises: an upload can be read back under its CID, and nothing that could
-- be read before is lost.
pub record IsContentAddressed {S : Type 0} (client : StorageClient S) : Type 0 where
  pub upload-download :
      (bytes : Bytes) (s s' : S) (cid : Text)
      → client.upload bytes s ≡ ok (cid, s')
      → client.download cid s' ≡ ok bytes
  pub upload-keeps :
      (bytes : Bytes) (s s' : S) (cid other : Text) (kept : Bytes)
      → client.upload bytes s ≡ ok (cid, s')
      → client.download other s ≡ ok kept
      → client.download other s' ≡ ok kept
