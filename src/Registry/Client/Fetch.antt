-- ===== src/Registry/Client/Fetch.antt =====
-- fetchIdl: six URLs, one after the other. The document type, the network, encodeURIComponent and the
-- text of a thrown error are arguments.
use widespread_logos.Prelude.{
  ℕ, zero, suc, ◌≡◌, refl, Bool, some, List, [], ◌∷◌, ◌++◌, Text, codes, get_elem?, Result, ok, err,
  Error, if◌then◌else◌,
}
use widespread_logos.Prelude.Errors.{◌>>=◌}
use widespread_logos.Platform.{decimal}
use widespread_logos.Approval.Effects.{strip_slash}

pub record Answer (Doc : Type 0) : Type 0 where
  pub is_ok : Bool
  pub status : ℕ
  pub json : Result Doc

-- One round of the loop: a document, or the error that is remembered.
pub data Attempt (Doc : Type 0) : Type 0 where
  served : Doc → Attempt Doc
  failed : Text → Attempt Doc

-- `IdlFetchResult`
pub data IdlFetchResult (Doc : Type 0) : Type 0 where
  found : Doc → IdlFetchResult Doc
  not_found : Text → IdlFetchResult Doc

unfoldable pub prefix_urls : Text → Text → Text → List Text
prefix_urls base cid prefix =
    (base ++ (prefix ++ (codes "/data/" ++ cid)))
    ∷ (base ++ (prefix ++ (codes "/data/" ++ (cid ++ codes "/network/stream"))))
    ∷ (base ++ (prefix ++ (codes "/data/" ++ (cid ++ codes "/network"))))
    ∷ []

unfoldable pub idl_urls : Text → Text → List Text
idl_urls base cid =
    prefix_urls base cid (codes "/api/storage/v1") ++ prefix_urls base cid (codes "/api/codex/v1")

module _ {Doc : Type 0} (fetch : Text → Result (Answer Doc)) (text_of : Error → Text) where
  unfoldable pub json_attempt : Result Doc → Attempt Doc
  json_attempt (ok doc) = served doc
  json_attempt (err thrown) = failed (text_of thrown)

  unfoldable pub attempt : Result (Answer Doc) → Attempt Doc
  unfolding json_attempt
  attempt (err thrown) = failed (text_of thrown)
  attempt (ok r) =
      if r.is_ok then json_attempt r.json else failed (codes "HTTP " ++ decimal r.status)

  -- The loop, with the last error.
  unfoldable pub fetch_urls : Text → List Text → IdlFetchResult Doc
  fetch_urls last_err [] = not_found last_err
  fetch_urls last_err (u ∷ us) = elim (attempt (fetch u)) [
    | served doc ↦ found doc
    | failed message ↦ fetch_urls message us
  ]

  unfoldable pub fetch_idl : (Text → Result Text) → Text → Text → Result (IdlFetchResult Doc)
  fetch_idl encode_component idl_cid node_url = encode_component idl_cid >>= λ cid.
      ok (elim (fetch_urls (codes "no response") (idl_urls (strip_slash node_url) cid)) [
        | found doc ↦ found doc
        | not_found last_err ↦ not_found (
            codes "idl "
            ++ (idl_cid
                ++ (codes " not retrievable from " ++ (node_url ++ (codes ": " ++ last_err)))))
      ])

  -- A dead mirror never hides a document: when one of the URLs serves a document, the loop returns
  -- one, whatever the URLs before it answer or throw.
  pub fetch_urls-served :
      (last_err : Text) (urls : List Text) (n : ℕ) (url : Text) (doc : Doc)
      → get_elem? urls n ≡ some url
      → attempt (fetch url) ≡ served doc
      → (d : Doc) × (fetch_urls last_err urls ≡ found d)
  unfolding fetch_urls
  fetch_urls-served last_err [] zero url doc e h = cc
  fetch_urls-served last_err [] (suc n) url doc e h = cc
  fetch_urls-served last_err (u ∷ us) zero url doc e h =
      let same : u ≡ url = cc in (doc, rw (same, fetch_urls, h) refl)
  fetch_urls-served last_err (u ∷ us) (suc n) url doc e h =
      go (attempt (fetch u)) (λ message. fetch_urls-served message us n url doc e h)
    where
      go :
          (a : Attempt Doc)
          → ((message : Text) → (d : Doc) × (fetch_urls message us ≡ found d))
          → (d : Doc) × ((elim a [
            | served doc ↦ found doc
            | failed message ↦ fetch_urls message us
          ])
              ≡ found d)
      go (served d) rest = (d, refl)
      go (failed message) rest = rest message
