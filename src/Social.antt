-- ===== src/Social.antt =====
-- Social sign-in (packages/wallet-ui/src/social.ts): the choice of a provider and GitHub's device flow.
-- The network, the clock and Google's popup are parameters.
pub mod Ends
pub mod Google
use widespread_logos.Prelude.{
  ℕ, zero, suc, ◌+◌, ◌*◌, ◌<◌, Bool, true, false, not, ◌&&◌, Option, none, some, List, [], ◌∷◌,
  ◌++◌, Text, codes, text_eq, ltb, Error, message, Result, ok, err, if◌then◌else◌,
}
use widespread_logos.Platform.{decimal}
use widespread_logos.Platform.Json.{Value, str, undefined, get, get?, or_else}

pub record SocialProviderConfig : Type 0 where
  pub google_client_id : Option Text
  pub github_client_id : Option Text
  pub redirect_uri : Text

pub record SocialIdentity : Type 0 where
  pub provider : Text
  pub subject : Value
  pub display_name : Value

-- The answer to the request for a device code.
pub record DeviceCode : Type 0 where
  pub device_code : Text
  pub user_code : Text
  pub verification_uri : Text
  pub interval : ℕ
  pub expires_in : ℕ

pub record DeviceResponse : Type 0 where
  pub is_ok : Bool
  pub status : ℕ
  pub json : Result DeviceCode

-- The body of a poll.
pub record PollBody : Type 0 where
  pub access_token : Option Text
  pub error : Option Text

-- What the flow asks of the browser: the three requests, the clock in milliseconds and its timer.
pub record Browser (Host : Type 0) : Type 0 where
  pub device : Text → Host → Result DeviceResponse × Host
  pub poll : Text → Text → Host → Result PollBody × Host
  pub user : Text → Host → Result Value × Host
  pub now : Host → ℕ
  pub wait : ℕ → Host → Host
  pub show_code : Text → Text → Host → Host

-- `!!s`, of an optional text.
unfoldable pub present : Option Text → Bool
present none = false
present (some s) = not (text_eq s [])

unfoldable pub max : ℕ → ℕ → ℕ
max a b = if ltb a b then b else a

-- How a round of the loop ends.
pub data Round (Host : Type 0) : Type 0 where
  finished : Result SocialIdentity × Host → Round Host
  again : Host → Round Host

-- The identity of the user who authorized the device.
unfoldable pub github_identity : Value → Result SocialIdentity
unfolding get get? or_else
github_identity user = elim (get (codes "login") user) [
  | err e ↦ err e
  | ok login ↦ ok (record {
    provider = codes "github";
    subject = login;
    display_name = or_else (get? (codes "name") user) login;
  })
]

unfoldable pub user_identity : {Host : Type 0} → Result Value × Host → Result SocialIdentity × Host
unfolding github_identity
user_identity (err e, h) = (err e, h)
user_identity (ok user, h) = (github_identity user, h)

-- An error that ends the flow.
unfoldable pub is_final : Option Text → Bool
unfolding present
is_final none = false
is_final (some e) =
    present (some e)
    && not (text_eq e (codes "authorization_pending"))
    && not (text_eq e (codes "slow_down"))

unfoldable pub text_of : Option Text → Text
text_of none = []
text_of (some s) = s

module _ {Host : Type 0} (b : Browser Host) where
  unfoldable pub poll_round : Result PollBody × Host → Round Host
  unfolding present is_final user_identity text_of
  poll_round (err e, h) = finished (err e, h)
  poll_round (ok body, h) =
      if present body.access_token
      then finished (user_identity (b.user (text_of body.access_token) h))
      else if is_final body.error
      then finished (err (message (codes "device flow failed: " ++ text_of body.error)), h)
      else again h

  -- A round: the test of the clock, the wait and the poll.
  unfoldable pub round : Text → DeviceCode → ℕ → Host → Round Host
  unfolding poll_round max
  round client_id device deadline h =
      if ltb (b.now h) deadline
      then poll_round
          (b.poll client_id device.device_code (b.wait (max device.interval 5 * 1000) h))
      else finished (err (message (codes "device flow expired")), h)

  -- The loop, on fuel: `none` when the fuel is spent.
  unfoldable pub poll_loop :
      ℕ → Text → DeviceCode → ℕ → Host → Option (Result SocialIdentity × Host)
  unfolding round
  poll_loop zero client_id device deadline h = none
  poll_loop (suc fuel) client_id device deadline h = elim (round client_id device deadline h) [
    | finished r ↦ some r
    | again next ↦ poll_loop fuel client_id device deadline next
  ]

  unfoldable pub start_polling : Text → DeviceCode → Host → Option (Result SocialIdentity × Host)
  unfolding poll_loop
  start_polling client_id device h =
      let shown = b.show_code device.user_code device.verification_uri h in
      poll_loop (suc device.expires_in) client_id device (b.now shown + device.expires_in * 1000)
        shown

  unfoldable pub code_read : Text → Host → Result DeviceCode → Option (Result SocialIdentity × Host)
  unfolding start_polling
  code_read client_id h (err e) = some (err e, h)
  code_read client_id h (ok device) = start_polling client_id device h

  unfoldable pub device_answered :
      Text → Result DeviceResponse × Host → Option (Result SocialIdentity × Host)
  unfolding code_read decimal
  device_answered client_id (err e, h) = some (err e, h)
  device_answered client_id (ok res, h) =
      if not res.is_ok
      then some (err (message (codes "device code request failed: " ++ decimal res.status)), h)
      else code_read client_id h res.json

  -- `githubDeviceSignIn`
  unfoldable pub github_device_sign_in : Text → Host → Option (Result SocialIdentity × Host)
  unfolding device_answered
  github_device_sign_in client_id h = device_answered client_id (b.device client_id h)

  -- The hook of `makePopupSocialSignIn`.
  unfoldable pub social_sign_in :
      (Text → Text → Host → Result SocialIdentity × Host)
      → SocialProviderConfig
      → Text
      → Host
      → Option (Result SocialIdentity × Host)
  unfolding github_device_sign_in present text_of
  social_sign_in google cfg provider h =
      if text_eq provider (codes "google")
      then if not (present cfg.google_client_id)
        then some (err (message (codes "google sign-in not configured")), h)
        else some (google (text_of cfg.google_client_id) cfg.redirect_uri h)
      else if text_eq provider (codes "github")
      then if not (present cfg.github_client_id)
        then some (err (message (codes "github sign-in not configured")), h)
        else github_device_sign_in (text_of cfg.github_client_id) h
      else some (err (message (codes "unsupported provider " ++ provider)), h)
