-- ===== src/StorageNode.antt =====
-- The storage client package (packages/storage-client/src/index.ts): an upload strategy and a client
-- over the Codex SDK. The SDK's data endpoints, `fetch` and the printing of values are parameters.
pub mod Uploads
use widespread_logos.Prelude.{
  ℕ, Bool, true, false, not, ◌||◌, Option, none, some, List, [], ◌∷◌, ◌++◌, Text, Bytes, codes,
  text_eq, Error, message, Result, ok, err, if◌then◌else◌,
}
use widespread_logos.Prelude.Errors.{◌>>=◌}
use widespread_logos.Platform.{decimal}
use widespread_logos.Platform.Json.{Value}

pub record StorageClientOptions : Type 0 where
  pub node_url : Text
  pub basic_auth : Option Text

-- A CodexError: its text, and the code that it may carry.
pub record CodexError : Type 0 where
  pub text : Text
  pub code : Option ℕ

-- `SafeValue<T>`: an error, or the data, which may be missing.
pub data SafeValue {ℓ} (Data : Type ℓ) : Type ℓ where
  failed : CodexError → SafeValue Data
  served : Option Data → SafeValue Data

-- The POST of an upload, and the response.
pub record UploadRequest : Type 0 where
  pub url : Text
  pub authorization : Option Text
  pub body : Bytes

pub record UploadResponse : Type 0 where
  pub is_ok : Bool
  pub status : ℕ
  pub text : Result Text

-- `fetch`, and `String(e)` of what it throws.
pub record Web : Type 0 where
  pub fetch : UploadRequest → Result UploadResponse
  pub show_error : Error → Text

-- `options?.auth?.basic ? {…} : {}`
unfoldable pub authorization_of : Option Text → Option Text
authorization_of none = none
authorization_of (some basic) = if text_eq basic [] then none else some (codes "Basic " ++ basic)

module _ (web : Web) where
  unfoldable pub body_read : Result Text → SafeValue Text
  body_read (err e) = failed (record { text = web.show_error e; code = none })
  body_read (ok s) = served (some s)

  unfoldable pub upload_answer : Result UploadResponse → SafeValue Text
  unfolding decimal body_read
  upload_answer (err e) = failed (record { text = web.show_error e; code = none })
  upload_answer (ok res) =
      if not res.is_ok
      then failed (record {
        text = codes "upload failed: HTTP " ++ decimal res.status;
        code = some res.status;
      })
      else body_read res.text

  -- `BytesUploadStrategy.upload`
  unfoldable pub upload_bytes : Bytes → Text → Option Text → SafeValue Text
  unfolding upload_answer authorization_of
  upload_bytes bytes url basic =
      upload_answer
        (web.fetch (record { url = url; authorization = authorization_of basic; body = bytes }))

-- The endpoints of `codex.data`. A download resolves to bytes, or to a body that cannot be read.
pub record CodexData : Type 0 where
  pub upload : (Text → Option Text → SafeValue Text) → Result (SafeValue Text)
  pub local_download : Text → Result (SafeValue (Result Bytes))
  pub network_download_stream : Text → Result (SafeValue (Result Bytes))
  pub fetch_manifest : Text → Result (SafeValue Value)
  pub cids : Result (SafeValue Value)

pub record UploadResult : Type 0 where
  pub cid : Text

-- `res.error || !res.data ? throw : {cid: res.data}`
unfoldable pub cid_of : (SafeValue Text → Text) → SafeValue Text → Result UploadResult
cid_of show (failed e) = err (message (codes "upload failed: " ++ show (failed e)))
cid_of show (served none) = err (message (codes "upload failed: " ++ show (served none)))
cid_of show (served (some s)) =
    if text_eq s []
    then err (message (codes "upload failed: " ++ show (served (some s))))
    else ok (record { cid = s })

unfoldable pub bytes_of : Text → SafeValue (Result Bytes) → Result Bytes
bytes_of refusal (failed e) = err (message refusal)
bytes_of refusal (served none) = err (message refusal)
bytes_of refusal (served (some body)) = body

unfoldable pub data_of : Text → SafeValue Value → Result (Option Value)
data_of refusal (failed e) = err (message refusal)
data_of refusal (served v) = ok v

-- `show` is JSON.stringify of a result.
module _ (web : Web) (data_api : CodexData) (show : SafeValue Text → Text) where
  unfoldable pub upload : Bytes → Result UploadResult
  unfolding upload_bytes cid_of
  upload bytes = data_api.upload (upload_bytes web bytes) >>= λ res. cid_of show res

  unfoldable pub local_download : Text → Result Bytes
  unfolding bytes_of
  local_download cid = data_api.local_download cid >>= λ res.
      bytes_of (codes "local download failed for " ++ cid) res

  unfoldable pub network_download : Text → Result Bytes
  unfolding bytes_of
  network_download cid = data_api.network_download_stream cid >>= λ res.
      bytes_of (codes "network download failed for " ++ cid) res

  unfoldable pub manifest : Text → Result (Option Value)
  unfolding data_of
  manifest cid =
      data_api.fetch_manifest cid >>= λ res. data_of (codes "manifest fetch failed for " ++ cid) res

  unfoldable pub cids : Result (Option Value)
  unfolding data_of
  cids = data_api.cids >>= λ res. data_of (codes "could not list local CIDs") res
