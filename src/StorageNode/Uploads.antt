-- ===== src/StorageNode/Uploads.antt =====
-- What an upload that returned says of the node.
use widespread_logos.Prelude.{
  Bool, true, not, Option, none, some, [], Text, Bytes, codes, text_eq, Error, message, ◌++◌,
  Result, ok, err, if◌then◌else◌, ◌≡◌, refl, sym, ap, ◌∙◌, Bool-cases, inl, inr,
}
use widespread_logos.Prelude.Errors.{◌>>=◌, ok-inj}
use widespread_logos.Platform.{decimal}
use widespread_logos.StorageNode.{
  SafeValue, failed, served, UploadResponse, Web, authorization_of, upload_answer, body_read,
  CodexError, upload_bytes, CodexData, UploadResult, cid_of, upload,
}

-- The SDK hands an upload strategy the URL of the node's data endpoint and the credential of the
-- options, and resolves to what the strategy resolves to.
pub record RunsStrategy (data_api : CodexData) (url : Text) (basic : Option Text) : Type 0 where
  pub run-strategy :
      (strategy : Text → Option Text → SafeValue Text)
      → data_api.upload strategy ≡ ok (strategy url basic)

-- The node accepted the bytes and named the id.
abbrev pub Accepted : Web → Text → Option Text → Bytes → Text → Type 0
Accepted web url basic bytes cid =
    (res : UploadResponse) × (web.fetch
        (record { url = url; authorization = authorization_of basic; body = bytes })
      ≡ ok res)
    × (res.is_ok ≡ true)
    × (res.text ≡ ok cid)

cid_of-served :
    (show : SafeValue Text → Text) (o : SafeValue Text) {r : UploadResult}
    → cid_of show o ≡ ok r
    → o ≡ served (some r.cid)
unfolding cid_of
cid_of-served show (failed e) same = cc
cid_of-served show (served none) same = cc
cid_of-served show (served (some s)) {r} same = elim (Bool-cases (text_eq s [])) [
  | inl bare ↦ refused (sym (ap branch bare) ∙ same)
  | inr full ↦ ap (λ (x : UploadResult). served (some x.cid)) (ok-inj (sym (ap branch full) ∙ same))
]
  where
    branch : Bool → Result UploadResult
    branch b =
        if b
        then err (message (codes "upload failed: " ++ show (served (some s))))
        else ok (record { cid = s })

    refused : {A : Type 0} {e : Error} → err e ≡ ok r → A
    refused same = cc

answer-served :
    (web : Web) (o : Result UploadResponse) (cid : Text)
    → upload_answer web o ≡ served (some cid)
    → (res : UploadResponse) × (o ≡ ok res) × (res.is_ok ≡ true) × (res.text ≡ ok cid)
unfolding upload_answer body_read
answer-served web (err e) cid same = cc
answer-served web (ok res) cid same = elim (Bool-cases res.is_ok) [
  | inl fine ↦ (res, refl, fine, body-served res.text (sym (ap branch fine) ∙ same))
  | inr refused ↦ refusal (sym (ap branch refused) ∙ same)
]
  where
    branch : Bool → SafeValue Text
    branch b =
        if not b
        then failed (record {
          text = codes "upload failed: HTTP " ++ decimal res.status;
          code = some res.status;
        })
        else body_read web res.text

    refusal : {A : Type 0} {e : CodexError} → failed e ≡ served (some cid) → A
    refusal same = cc

    body-served : (t : Result Text) → body_read web t ≡ served (some cid) → t ≡ ok cid
    body-served (err e) same = cc
    body-served (ok s) same = cc

-- When an upload returns a content id, the node has answered the POST of exactly these bytes with
-- success, and its answer is that id.
pub upload-Accepted :
    (web : Web) (data_api : CodexData) (show : SafeValue Text → Text) (url : Text)
    (basic : Option Text)
    → RunsStrategy data_api url basic
    → (bytes : Bytes) {r : UploadResult} → upload web data_api show bytes ≡ ok r
    → Accepted web url basic bytes r.cid
unfolding upload upload_bytes
upload-Accepted web data_api show url basic runs bytes {r} returned = answer-served web _ r.cid (
    cid_of-served show (upload_bytes web bytes url basic) (
      ap (λ o. o >>= λ res. cid_of show res) (sym (runs.run-strategy (upload_bytes web bytes)))
      ∙ returned))
