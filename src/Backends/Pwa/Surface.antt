-- ===== src/Backends/Pwa/Surface.antt =====
-- PwaBackend: the methods that work on what is kept in IndexedDB, and the class as the UI sees it.
use widespread_logos.Prelude.{
  ℕ, Bool, false, ◌||◌, Option, List, [], ◌∷◌, ◌++◌, Text, codes, text_eq, Error, message,
  type_error, Result, if◌then◌else◌,
}
use widespread_logos.Prelude.Tasks.{Task, done, fail, settle, ◌>>=◌, ◌>>◌}
use widespread_logos.Platform.Json.{
  Value, undefined, null, bool, num, str, arr, obj, Values, nil, item, object, get, get?, or_else,
  truthy,
}
use widespread_logos.Pda.{bare_id}
use widespread_logos.Backends.Module.{Json, cast_list}
use widespread_logos.Backends.Seam.{LezAccount}
use widespread_logos.Backends.Pwa.Blob.{Idb, Extracted, extract, read_blob, account_value, push}

module _ {Host : Type 0} (idb : Idb Host) where
  unfoldable pub idb_get : Text → Task Host Value
  idb_get key h = (idb.get_item key h, h)

  unfoldable pub idb_set : Text → Value → Task Host (Unit {0})
  idb_set key v h = idb.set_item key v h

  -- `(await idbGet('accounts')) ?? []`
  unfoldable pub kept_accounts : Task Host Value
  unfolding idb_get
  kept_accounts = do accounts ← idb_get (codes "accounts"); done (or_else accounts (arr nil))

  unfoldable pub list_accounts : Task Host (List LezAccount)
  unfolding kept_accounts
  list_accounts = kept_accounts >>= λ accounts. settle (cast_list accounts)

-- `accts.some((a) => a.accountId === accountId)`
unfoldable pub is_text : Text → Value → Bool
is_text s (str t) = text_eq t s
is_text s undefined = false
is_text s null = false
is_text s (bool _) = false
is_text s (num _) = false
is_text s (arr _) = false
is_text s (obj _) = false

unfoldable pub some_account : Text → Values → Bool
unfolding get? is_text
some_account id nil = false
some_account id (item a vs) = is_text id (get? (codes "accountId") a) || some_account id vs

unfoldable pub blob_record : Text → ℕ → Value
blob_record blob now_ms =
    object ((codes "blobB64", str blob) ∷ (codes "importedAt", num now_ms) ∷ [])

-- The keys of an account under its bare id, or under the id as it was given.
unfoldable pub keys_of : Text → Value → Value
unfolding or_else get?
keys_of id keys = or_else (get? (bare_id id) keys) (or_else (get? id keys) null)

module _ {Host : Type 0} (idb : Idb Host) where
  unfoldable pub watch_in : Text → Text → Value → Task Host (Unit {0})
  unfolding some_account push account_value
  watch_in label id (arr vs) =
      if some_account id vs
      then done tt
      else idb_set idb (codes "accounts") (arr (push (account_value label id) vs))
  watch_in label id undefined = fail type_error
  watch_in label id null = fail type_error
  watch_in label id (bool _) = fail type_error
  watch_in label id (num _) = fail type_error
  watch_in label id (str _) = fail type_error
  watch_in label id (obj _) = fail type_error

  unfoldable pub watch_account : Text → Text → Task Host (Unit {0})
  unfolding watch_in
  watch_account label id = kept_accounts idb >>= watch_in label id

  unfoldable pub store_blob : Text → Task Host (Unit {0})
  unfolding blob_record
  store_blob blob h = idb_set idb (codes "blob") (blob_record blob (idb.clock h)) h

  unfoldable pub store_extracted : Text → Extracted → Task Host (Unit {0})
  unfolding store_blob
  store_extracted blob x =
      idb_set idb (codes "accounts") (arr x.accounts)
      >> idb_set idb (codes "viewkeys") (obj x.view_keys)
      >> store_blob blob

  unfoldable pub import_blob : Json → Text → Task Host (Unit {0})
  unfolding store_extracted
  import_blob json blob = do
    parsed ← settle (read_blob json blob)
    x ← settle (extract json parsed)
    store_extracted blob x

  unfoldable pub blob_text : Value → Task Host Value
  unfolding get truthy
  blob_text blob =
      if truthy blob
      then settle (get (codes "blobB64") blob)
      else fail (message (codes "no vault blob imported on this surface"))

  unfoldable pub export_blob : Task Host Value
  unfolding blob_text
  export_blob = idb_get idb (codes "blob") >>= blob_text

  unfoldable pub viewing_keys : Text → Task Host Value
  unfolding keys_of
  viewing_keys id = do keys ← idb_get idb (codes "viewkeys"); done (keys_of id keys)

-- The codecs of the wasm module, once it is loaded: they may throw, and find nothing.
pub record WasmCodecs : Type 0 where
  pub start : Text → Result (Unit {0})
  pub decrypt_private_output : Text → Value → Value → Text → Result (Option Text)
  pub private_account_id_b58 : Value → Value → Text → Result (Option Text)

pub record ScanAction : Type 0 where
  pub ead_borsh_hex : Text
  pub nullifier_hex : Text

pub record DecryptedNote : Type 0 where
  pub kind : Value
  pub account : Value
  pub account_id : Text

unfoldable pub no_keys : Text → Error
no_keys id =
    message (codes "no viewing keys for " ++ (id ++ codes " — import the vault blob first"))
