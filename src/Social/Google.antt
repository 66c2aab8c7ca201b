-- ===== src/Social/Google.antt =====
-- Google's sign-in (packages/wallet-ui/src/social.ts): the popup and the claims of the id_token. The
-- popup as it is seen every 400 ms, URLSearchParams, encodeURIComponent, JSON.parse and
-- decodeURIComponent(escape(s)) are parameters.
pub mod Nonce
use widespread_logos.Prelude.{
  ℕ, Option, none, some, List, [], ◌∷◌, ◌++◌, map, Text, Bytes, codes, Error, message, Result, ok,
  err, if◌then◌else◌, ◌==◌,
}
use widespread_logos.Prelude.Errors.{◌>>=◌}
use widespread_logos.Platform.{hex_byte}
use widespread_logos.Platform.Base64.{atob}
use widespread_logos.Platform.Json.{
  Value, undefined, null, bool, num, str, arr, obj, get, get?, or_else,
}
use widespread_logos.Backends.Pwa.Surface.{is_text}
use widespread_logos.Social.{SocialIdentity}

-- What the interval finds of the popup: closed, at the provider, or back with a fragment.
pub data Sight : Type 0 where
  closed elsewhere : Sight
  back : Text → Sight

-- The rounds of the interval until the promise is settled; `none` if it is pending after them.
unfoldable pub watch_popup : List Sight → Option (Result Text)
watch_popup [] = none
watch_popup (closed ∷ sights) = some (err (message (codes "sign-in window closed")))
watch_popup (elsewhere ∷ sights) = watch_popup sights
watch_popup (back [] ∷ sights) = watch_popup sights
watch_popup (back (u ∷ hash) ∷ sights) = some (ok hash)

-- `popupForFragment`: no popup if the browser blocks it.
unfoldable pub popup_for_fragment : Option (List Sight) → Option (Result Text)
unfolding watch_popup
popup_for_fragment none =
    some (err (message (codes "popup blocked — allow popups or use the extension sign-in")))
popup_for_fragment (some sights) = watch_popup sights

pub record Web : Type 0 where
  pub encode_component : Text → Result Text
  pub query : Text → Text → Option Text
  pub parse : Text → Result Value
  pub decode_escaped : Bytes → Result Text

-- The text up to the next dot.
unfoldable pub until_dot : Text → Text
until_dot [] = []
until_dot (u ∷ s) = let rest = until_dot s in if u == b'.' then [] else u ∷ rest

-- `token.split('.')[1]`
unfoldable pub second_part : Text → Text
unfolding until_dot
second_part [] = []
second_part (u ∷ s) = let rest = second_part s in if u == b'.' then until_dot s else rest

-- `payload.replace(/-/g, '+').replace(/_/g, '/')`
unfoldable pub plain_digit : ℕ → ℕ
plain_digit u = if u == b'-' then b'+' else if u == b'_' then b'/' else u

unfoldable pub hex_nonce : Bytes → Text
unfolding hex_byte
hex_nonce [] = []
hex_nonce (b ∷ bs) = hex_byte b ++ hex_nonce bs

-- `typeof v === 'string' ? v : undefined`
unfoldable pub text_only : Value → Value
text_only (str s) = str s
text_only undefined = undefined
text_only null = undefined
text_only (bool _) = undefined
text_only (num _) = undefined
text_only (arr _) = undefined
text_only (obj _) = undefined

unfoldable pub google_identity : Value → SocialIdentity
unfolding text_only get? or_else
google_identity claims = record {
  provider = codes "google";
  subject = text_only (get? (codes "sub") claims);
  display_name = or_else (get? (codes "name") claims) (get? (codes "email") claims);
}

module _ (web : Web) where
  unfoldable pub payload_claims : Text → Result Value
  unfolding plain_digit
  payload_claims [] = err (message (codes "malformed id_token"))
  payload_claims (u ∷ payload) = atob (map plain_digit (u ∷ payload)) >>= λ bytes.
      web.decode_escaped bytes >>= λ s. web.parse s

  unfoldable pub decode_jwt_payload : Text → Result Value
  unfolding second_part payload_claims
  decode_jwt_payload token = payload_claims (second_part token)

  unfoldable pub auth_url : Text → Text → Text → Result Text
  auth_url client_id redirect_uri nonce = web.encode_component client_id >>= λ id.
      web.encode_component redirect_uri >>= λ uri.
      web.encode_component (codes "openid email profile") >>= λ scope. ok (
        codes "https://accounts.google.com/o/oauth2/v2/auth?client_id="
        ++ (id
            ++ (codes "&redirect_uri="
                ++ (uri
                    ++ (codes "&response_type=id_token&scope="
                        ++ (scope ++ (codes "&nonce=" ++ nonce)))))))

  unfoldable pub checked_nonce : Text → Value → Value → Result SocialIdentity
  unfolding is_text google_identity
  checked_nonce nonce claims found =
      if is_text nonce found
      then ok (google_identity claims)
      else err (message (codes "id_token nonce mismatch"))

  unfoldable pub token_identity : Text → Text → Result SocialIdentity
  unfolding decode_jwt_payload checked_nonce get
  token_identity nonce token = decode_jwt_payload token >>= λ claims.
      get (codes "nonce") claims >>= λ found. checked_nonce nonce claims found

  unfoldable pub no_token : Option Text → Error
  no_token none = message (codes "no id_token returned")
  no_token (some e) = message e

  unfoldable pub token_found : Text → Text → Option Text → Result SocialIdentity
  unfolding token_identity no_token
  token_found nonce fragment none = err (no_token (web.query fragment (codes "error")))
  token_found nonce fragment (some []) = err (no_token (web.query fragment (codes "error")))
  token_found nonce fragment (some (u ∷ token)) = token_identity nonce (u ∷ token)

  unfoldable pub fragment_identity : Text → Text → Result SocialIdentity
  unfolding token_found
  fragment_identity nonce fragment =
      token_found nonce fragment (web.query fragment (codes "id_token"))

  unfoldable pub popup_identity : Text → Option (Result Text) → Option (Result SocialIdentity)
  unfolding fragment_identity
  popup_identity nonce none = none
  popup_identity nonce (some (err e)) = some (err e)
  popup_identity nonce (some (ok fragment)) = some (fragment_identity nonce fragment)

  -- `open_popup` opens the URL and sees what comes of it.
  unfoldable pub google_popup_sign_in :
      (Text → Option (List Sight)) → Text → Text → Bytes → Option (Result SocialIdentity)
  unfolding auth_url popup_for_fragment popup_identity hex_nonce
  google_popup_sign_in open_popup client_id redirect_uri nonce =
      elim (auth_url client_id redirect_uri (hex_nonce nonce)) [
        | err e ↦ some (err e)
        | ok url ↦ popup_identity (hex_nonce nonce) (popup_for_fragment (open_popup url))
      ]
