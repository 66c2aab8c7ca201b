-- ===== src/Recovery/Storage/Rest.antt =====
-- `RestStorageClient`: the URLs it fetches, in order. The node's answers are a function of the request;
-- `fetch` may throw.
use widespread_logos.Prelude.{
  ℕ, Bool, not, List, [], ◌∷◌, ◌++◌, Text, Bytes, codes, Result, ok, err, message, if◌then◌else◌,
}
use widespread_logos.Prelude.Errors.{◌>>=◌}
use widespread_logos.Platform.{decimal}
use widespread_logos.Platform.Json.{Value, obj, num, object, Fields, fields, spread}

pub data Method : Type 0 where
  get post : Method

pub record Request : Type 0 where
  pub method : Method
  pub url : Text
  pub body : Bytes

pub record Response : Type 0 where
  pub is_ok : Bool
  pub status : ℕ
  pub body : Bytes

-- `fetch`, as a function of the request, and what it needs of the platform: `encodeURIComponent` and
-- `(await resp.text()).trim()`.
pub record Node : Type 0 where
  pub fetch : Request → Result Response
  pub encode_component : Text → Result Text
  pub trimmed_text : Bytes → Text

module _ (n : Node) (base_url : Text) where
  unfoldable pub upload_request : Bytes → Request
  upload_request bytes = record {
    method = post;
    url = base_url ++ codes "/api/storage/v1/data";
    body = bytes;
  }

  upload_answer : Response → Result Text
  upload_answer r =
      if not r.is_ok
      then err (message (codes "storage upload failed: " ++ decimal r.status))
      else ok (n.trimmed_text r.body)

  unfoldable pub upload : Bytes → Result Text
  unfolding upload_request upload_answer
  upload bytes = n.fetch (upload_request bytes) >>= λ r. upload_answer r

  unfoldable pub get_request : Text → Request
  get_request path = record {
    method = get;
    url = base_url ++ (codes "/api/storage/v1/" ++ path);
    body = [];
  }

  unfoldable pub download_paths : Text → List Text
  download_paths c =
      (codes "data/" ++ c)
      ∷ (codes "data/" ++ (c ++ codes "/network/stream"))
      ∷ (codes "data/" ++ (c ++ codes "/network"))
      ∷ []

  -- The loop over the paths: the first answer that is ok; a fetch that throws ends it.
  unfoldable pub first_ok : Text → List Text → Result Bytes
  unfolding get_request
  first_ok cid [] = err (message (codes "storage download failed for " ++ cid))
  first_ok cid (p ∷ ps) =
      let rest = first_ok cid ps in
      n.fetch (get_request p) >>= λ r. if r.is_ok then ok r.body else rest

  unfoldable pub download : Text → Result Bytes
  unfolding download_paths first_ok
  download cid = n.encode_component cid >>= λ c. first_ok cid (download_paths c)

-- The answer to a request for persistence; its body may be no JSON.
pub record PersistenceResponse : Type 0 where
  pub is_ok : Bool
  pub status : ℕ
  pub json : Result Value

unfoldable pub json_or_empty : Result Value → Value
json_or_empty (err _) = object []
json_or_empty (ok v) = v

unfoldable pub persistence_answer : PersistenceResponse → Result Value
unfolding json_or_empty
persistence_answer r =
    if not r.is_ok
    then err (message (codes "persistence request failed: " ++ decimal r.status))
    else ok (json_or_empty r.json)

-- `post_json` is `fetch` of a POST whose body is the JSON text of the value.
unfoldable pub request_persistence :
    Node → Text → (Text → Value → Result PersistenceResponse) → Text → Fields → Result Value
unfolding persistence_answer spread
request_persistence n base_url post_json cid params = n.encode_component cid >>= λ c.
    post_json (base_url ++ (codes "/api/storage/v1/storage/request/" ++ c))
      (obj (spread (fields ((codes "tolerance", num 0) ∷ (codes "expiry", num 0) ∷ [])) params))
    >>= λ r. persistence_answer r
