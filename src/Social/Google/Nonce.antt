-- ===== src/Social/Google/Nonce.antt =====
-- The nonce of Google's sign-in: what an identity that is returned rests on.
use widespread_logos.Prelude.{
  ℕ, true, Option, none, some, List, [], ◌∷◌, ◌++◌, Text, Bytes, codes, text_eq_iff, Result, ok,
  err, if◌then◌else◌, ◌≡◌, refl, sym, ap, ◌∙◌, Bool-cases, inl, inr,
}
use mathlib.Core.List.{append_assoc}
use mathlib.Core.Path.{subst}
use widespread_logos.Prelude.Errors.{◌>>=◌, ok-inj, message, >>=-eq-ok}
use widespread_logos.Platform.Json.{Value, undefined, null, bool, num, str, arr, obj, get, get?}
use widespread_logos.Backends.Pwa.Surface.{is_text}
use widespread_logos.Social.{SocialIdentity}
use widespread_logos.Social.Google.{
  Sight, closed, elsewhere, back, Web, hex_nonce, google_identity, decode_jwt_payload, auth_url,
  checked_nonce, token_identity, token_found, fragment_identity, popup_identity, watch_popup,
  popup_for_fragment, google_popup_sign_in,
}

some-inj {ℓ} : {A : Type ℓ} {a b : A} → some a ≡ some b → a ≡ b
some-inj same = cc

-- One of the rounds found the popup back with this fragment, after the sign # of its location's hash.
pub data Returned (fragment : Text) : List Sight → Type 0 where
  now : (u : ℕ) (sights : List Sight) → Returned fragment (back (u ∷ fragment) ∷ sights)
  later :
      (sight : Sight) (sights : List Sight)
      → Returned fragment sights
      → Returned fragment (sight ∷ sights)

-- A token whose payload carries the nonce, and the identity that its claims give.
pub record IsSigned (web : Web) (fragment nonce : Text) (identity : SocialIdentity) : Type 0 where
  pub token : Text
  pub in_fragment : web.query fragment (codes "id_token") ≡ some token
  pub claims : Value
  pub payload : decode_jwt_payload web token ≡ ok claims
  pub same_nonce : get? (codes "nonce") claims ≡ str nonce
  pub made : identity ≡ google_identity claims

-- The popup was opened at an address that ends in the nonce, it came back with a fragment, and the
-- token of that fragment is signed for the same nonce.
pub record IsAnswered (web : Web) (open_popup : Text → Option (List Sight)) (nonce : Text)
    (identity : SocialIdentity) : Type 0 where
  pub start : Text
  pub sights : List Sight
  pub opened : open_popup (start ++ (codes "&nonce=" ++ nonce)) ≡ some sights
  pub fragment : Text
  pub returned : Returned fragment sights
  pub signed : IsSigned web fragment nonce identity

is_text-str : (s : Text) (v : Value) → is_text s v ≡ true → v ≡ str s
unfolding is_text
is_text-str s (str t) h = ap str ((text_eq_iff t s).0 h)
is_text-str s undefined h = cc
is_text-str s null h = cc
is_text-str s (bool _) h = cc
is_text-str s (num _) h = cc
is_text-str s (arr _) h = cc
is_text-str s (obj _) h = cc

get-get? : (k : Text) (v found : Value) → get k v ≡ ok found → get? k v ≡ found
unfolding get get?
get-get? k undefined found h = cc
get-get? k null found h = cc
get-get? k (obj fs) found h = cc
get-get? k (bool _) found h = cc
get-get? k (num _) found h = cc
get-get? k (str _) found h = cc
get-get? k (arr _) found h = cc

module _ (web : Web) (fragment nonce : Text) {identity : SocialIdentity} where
  nonce-IsSigned :
      (token : Text) (claims found : Value)
      → web.query fragment (codes "id_token") ≡ some token
      → decode_jwt_payload web token ≡ ok claims
      → get (codes "nonce") claims ≡ ok found
      → checked_nonce web nonce claims found ≡ ok identity
      → IsSigned web fragment nonce identity
  unfolding checked_nonce
  nonce-IsSigned token claims found there read got h = elim (Bool-cases (is_text nonce found)) [
    | inl same ↦ record {
      token = token;
      in_fragment = there;
      claims = claims;
      payload = read;
      same_nonce = get-get? _ claims found got ∙ is_text-str nonce found same;
      made = ok-inj (sym h ∙ ap (λ b. if b then ok (google_identity claims) else refused) same);
    }
    | inr other ↦ cc (sym h ∙ ap (λ b. if b then ok (google_identity claims) else refused) other)
  ]
    where
      refused : Result SocialIdentity
      refused = err (message (codes "id_token nonce mismatch"))

  token-IsSigned :
      (token : Text)
      → web.query fragment (codes "id_token") ≡ some token
      → token_identity web nonce token ≡ ok identity
      → IsSigned web fragment nonce identity
  unfolding token_identity
  token-IsSigned token there h =
      let (claims, read, rest) =
        >>=-eq-ok (decode_jwt_payload web token)
          (λ c. get (codes "nonce") c >>= λ v. checked_nonce web nonce c v) h in
      let (found, got, checked) =
        >>=-eq-ok (get (codes "nonce") claims) (checked_nonce web nonce claims) rest in
      nonce-IsSigned token claims found there read got checked

  fragment-IsSigned :
      fragment_identity web nonce fragment ≡ ok identity → IsSigned web fragment nonce identity
  unfolding fragment_identity token_found
  fragment-IsSigned h = from (web.query fragment (codes "id_token")) refl h
    where
      from :
          (o : Option Text)
          → web.query fragment (codes "id_token") ≡ o
          → token_found web nonce fragment o ≡ ok identity
          → IsSigned web fragment nonce identity
      from none there h = cc
      from (some []) there h = cc
      from (some (u ∷ token)) there h = token-IsSigned (u ∷ token) there h

watched-Returned :
    (sights : List Sight) (fragment : Text)
    → watch_popup sights ≡ some (ok fragment)
    → Returned fragment sights
unfolding watch_popup
watched-Returned [] fragment h = cc
watched-Returned (closed ∷ sights) fragment h = cc
watched-Returned (elsewhere ∷ sights) fragment h =
    later elsewhere sights (watched-Returned sights fragment h)
watched-Returned (back [] ∷ sights) fragment h =
    later (back []) sights (watched-Returned sights fragment h)
watched-Returned (back (u ∷ hash) ∷ sights) fragment h =
    let same : fragment ≡ hash = cc in
    subst (λ t. Returned fragment (back (u ∷ t) ∷ sights)) same (now u sights)

-- The start of the address, and the nonce at its end.
auth_url-nonce :
    (web : Web) (client_id redirect_uri nonce : Text) {url : Text}
    → auth_url web client_id redirect_uri nonce ≡ ok url
    → (start : Text) × (url ≡ start ++ (codes "&nonce=" ++ nonce))
unfolding auth_url
auth_url-nonce web client_id redirect_uri nonce h =
    let (id, _, h1) = >>=-eq-ok (web.encode_component client_id) _ h in
    let (uri, _, h2) = >>=-eq-ok (web.encode_component redirect_uri) _ h1 in
    let (scope, _, h3) = >>=-eq-ok (web.encode_component (codes "openid email profile")) _ h2 in
    (
      codes "https://accounts.google.com/o/oauth2/v2/auth?client_id="
          ++ (id
              ++ (codes "&redirect_uri="
                  ++ (uri ++ (codes "&response_type=id_token&scope=" ++ scope)))),
      sym (ok-inj h3) ∙ simp append_assoc,
    )

module _ (web : Web) (open_popup : Text → Option (List Sight)) (nonce : Text)
    {identity : SocialIdentity} where
  sights-IsAnswered :
      (start : Text) (o : Option (List Sight))
      → open_popup (start ++ (codes "&nonce=" ++ nonce)) ≡ o
      → popup_identity web nonce (popup_for_fragment o) ≡ some (ok identity)
      → IsAnswered web open_popup nonce identity
  unfolding popup_for_fragment popup_identity
  sights-IsAnswered start none opened h = cc
  sights-IsAnswered start (some sights) opened h = from (watch_popup sights) refl h
    where
      from :
          (r : Option (Result Text))
          → watch_popup sights ≡ r
          → popup_identity web nonce r ≡ some (ok identity)
          → IsAnswered web open_popup nonce identity
      from none seen h = cc
      from (some (err e)) seen h = cc
      from (some (ok fragment)) seen h = record {
        start = start;
        sights = sights;
        opened = opened;
        fragment = fragment;
        returned = watched-Returned sights fragment seen;
        signed = fragment-IsSigned web fragment nonce (some-inj h);
      }

-- When Google's sign-in returns an identity: the popup was opened at an address that ends in the nonce,
-- it came back with a fragment, and the identity is made of the claims of the id_token in that fragment,
-- whose nonce is, as a text, the very nonce that was sent. A token for another nonce, or for none, gives
-- no identity.
pub google_popup_sign_in-IsAnswered :
    (web : Web) (open_popup : Text → Option (List Sight)) (client_id redirect_uri : Text)
    (nonce : Bytes) {identity : SocialIdentity}
    → google_popup_sign_in web open_popup client_id redirect_uri nonce ≡ some (ok identity)
    → IsAnswered web open_popup (hex_nonce nonce) identity
unfolding google_popup_sign_in
google_popup_sign_in-IsAnswered web open_popup client_id redirect_uri nonce {identity} h =
    from (auth_url web client_id redirect_uri (hex_nonce nonce)) refl h
  where
    from :
        (r : Result Text)
        → auth_url web client_id redirect_uri (hex_nonce nonce) ≡ r
        → elim r [
          | err e ↦ some (err e)
          | ok url ↦ popup_identity web (hex_nonce nonce) (popup_for_fragment (open_popup url))
        ]
          ≡ some (ok identity)
        → IsAnswered web open_popup (hex_nonce nonce) identity
    from (err e) made h = cc
    from (ok url) made h =
        let (start, same) = auth_url-nonce web client_id redirect_uri (hex_nonce nonce) made in
        sights-IsAnswered web open_popup (hex_nonce nonce) start (open_popup url)
          (ap open_popup (sym same)) h
