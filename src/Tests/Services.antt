-- ===== src/Tests/Services.antt =====
-- The bridge of the wallet page, the device flow and an upload at concrete inputs.
use widespread_logos.Prelude.{
  ℕ, ◌+◌, true, false, none, some, List, [], ◌∷◌, ◌++◌, Text, codes, Result, ok, ◌≡◌, refl, sym, ap,
  ◌∙◌, Bytes, Option, arith,
}
use widespread_logos.Platform
use widespread_logos.Platform.{hex_byte, to_radix, pad_start}
use widespread_logos.Platform.Base64
use widespread_logos.Platform.Digits
use widespread_logos.Platform.Json.{Value, null, str, object, get, find}
use widespread_logos.Backends.Pwa.Surface.{is_text}
use widespread_logos.Social.Google
use widespread_logos.Social.Google.Nonce.{IsAnswered, google_popup_sign_in-IsAnswered}
use widespread_logos.Prelude.Tasks.{◌>>=◌, settle}
use widespread_logos.Recovery.Passkey.{
  Authenticator, Credential, prf_salt, create_passkey_with_prf, get_passkey_prf, created, asserted,
  read_prf_result, first_result,
}
use widespread_logos.Recovery.Passkey.Prf.{HasPrf, get_passkey_prf-create_passkey_with_prf}
use widespread_logos.WebBridge.{
  BridgeEvent, called, drained, received, new_bridge, bridge_run, bridge_step, call_module_async,
  drain,
}
use widespread_logos.WebBridge.Queue.{requests, bridge_run-requests}
use widespread_logos.WebBridge.Silent.{has_delivered, error_message, error_message-silent}
use widespread_logos.Social.{SocialIdentity, Browser, DeviceCode, github_device_sign_in}
use widespread_logos.Social.Ends.{Clocked, github_device_sign_in-ends}
use widespread_logos.StorageNode.{
  served, Web, CodexData, upload, upload_bytes, upload_answer, body_read, cid_of,
}
use widespread_logos.StorageNode.Uploads.{RunsStrategy, Accepted, upload-Accepted}

abbrev no_json : Value → Text
no_json v = []

abbrev two_module_calls : List BridgeEvent
two_module_calls =
    called (codes "widespread_wallet") (codes "execute") null true
    ∷ drained
    ∷ called (codes "lez_faucet") (codes "requestDrop") null true
    ∷ []

bridge_run-requests_example :
    (bridge_run no_json two_module_calls new_bridge).0
      ++ (bridge_run no_json two_module_calls new_bridge).1.outbox
    ≡ requests 0 two_module_calls
bridge_run-requests_example = bridge_run-requests no_json two_module_calls

error_message-silent_example :
    has_delivered 1
      (bridge_run no_json
        (received (error_message 1 (codes "locked")) ∷ drained ∷ [])
        (bridge_run no_json two_module_calls new_bridge).1).1.outcomes
    ≡ false
unfolding bridge_run bridge_step call_module_async drain new_bridge has_delivered
error_message-silent_example =
    error_message-silent no_json 1 (codes "locked")
      (bridge_run no_json two_module_calls new_bridge).1 (drained ∷ []) (omega arith) refl

-- A browser whose host is its clock; nobody authorizes the device.
abbrev a_device : DeviceCode
a_device = record {
  device_code = codes "d";
  user_code = codes "WDJB-MJHT";
  verification_uri = codes "https://github.com/login/device";
  interval = 5;
  expires_in = 900;
}

abbrev idle_browser : Browser ℕ
idle_browser = record {
  device = λ id h. (ok (record { is_ok = true; status = 200; json = ok a_device }), h);
  poll = λ id code h.
      (ok (record { access_token = none; error = some (codes "authorization_pending") }), h + 40);
  user = λ token h. (ok null, h);
  now = λ h. h;
  wait = λ ms h. h + ms;
  show_code = λ code uri h. h;
}

abbrev idle_clock : Clocked idle_browser
idle_clock = record { wait-now = λ ms h. omega arith; poll-now = λ id code h. omega arith }

github_device_sign_in-ends_example :
    (r : Result SocialIdentity × ℕ) × (github_device_sign_in idle_browser (codes "Iv1.8a61") 0
      ≡ some r)
github_device_sign_in-ends_example =
    github_device_sign_in-ends idle_browser idle_clock (codes "Iv1.8a61") 0

-- A node that names every upload alike.
abbrev naming_web : Web
naming_web = record {
  fetch = λ request. ok (record { is_ok = true; status = 200; text = ok (codes "zDv1") });
  show_error = λ e. [];
}

abbrev node_data : CodexData
node_data = record {
  upload = λ strategy. ok (strategy (codes "http://localhost:8080/data") none);
  local_download = λ cid. ok (served none);
  network_download_stream = λ cid. ok (served none);
  fetch_manifest = λ cid. ok (served none);
  cids = ok (served none);
}

abbrev node_runs : RunsStrategy node_data (codes "http://localhost:8080/data") none
node_runs = record { run-strategy = λ strategy. refl }

upload-Accepted_example :
    Accepted naming_web (codes "http://localhost:8080/data") none (1 ∷ 2 ∷ []) (codes "zDv1")
unfolding upload upload_bytes upload_answer body_read cid_of
upload-Accepted_example =
    upload-Accepted naming_web node_data (λ v. []) (codes "http://localhost:8080/data") none
      node_runs (1 ∷ 2 ∷ []) {r = record { cid = codes "zDv1" }} refl

-- A device whose passkeys have the PRF of their id and the salt.
abbrev joining : Authenticator ℕ
joining = record {
  create =
      λ o h. (ok (some (record { raw_id = 7 ∷ []; prf_first = some (7 ∷ o.prf_salt) })), h + 1);
  get = λ o h. (
    ok (some (record { raw_id = o.allowed; prf_first = some (o.allowed ++ o.prf_salt) })),
    h + 1,
  );
}

same-credential :
    {c d : Credential} {h after : ℕ}
    → ◌≡◌ {A = Result (Option Credential) × ℕ} (ok (some c), h) (ok (some d), after)
    → c ≡ d
same-credential made = cc

some-inj : {a b : Bytes} → some a ≡ some b → a ≡ b
some-inj same = cc

joining_prf : HasPrf joining
joining_prf = record {
  prf = λ id salt. id ++ salt;
  create-prf = λ o h {cred} {after} {first} made given.
      sym (some-inj (ap (λ (c : Credential). c.prf_first) (same-credential made) ∙ given))
      ∙ ap (λ (c : Credential). c.raw_id ++ o.prf_salt) (same-credential made);
  get-prf = λ o h {cred} {after} {first} made given.
      sym (some-inj (ap (λ (c : Credential). c.prf_first) (same-credential made) ∙ given));
}

get_passkey_prf-create_passkey_with_prf_example : 7 ∷ prf_salt ≡ 7 ∷ prf_salt
unfolding create_passkey_with_prf get_passkey_prf created asserted read_prf_result first_result
    ◌>>=◌ settle
get_passkey_prf-create_passkey_with_prf_example =
    get_passkey_prf-create_passkey_with_prf joining joining_prf [] [] (codes "ada") (codes "Ada") 0
      {r = record { credential_id = 7 ∷ []; prf_output = 7 ∷ prf_salt }} refl [] 5 refl

-- A popup that is back in its second round with a token for the nonce 0a.
abbrev google_claims : Value
google_claims = object ((codes "nonce", str (codes "0a")) ∷ (codes "sub", str (codes "7")) ∷ [])

abbrev google_web : Google.Web
google_web = record {
  encode_component = λ s. ok s;
  query = λ fragment key. some (codes "h.e30.s");
  parse = λ s. ok google_claims;
  decode_escaped = λ bytes. ok [];
}

abbrev google_popup : Text → Option (List Google.Sight)
google_popup url = some (Google.elsewhere ∷ Google.back (codes "#id_token=h.e30.s") ∷ [])

google_popup_sign_in-IsAnswered_example :
    IsAnswered google_web google_popup
      (Google.hex_nonce (10 ∷ []))
      (Google.google_identity google_claims)
unfolding Google.google_popup_sign_in Google.auth_url Google.popup_for_fragment Google.watch_popup
    Google.popup_identity Google.fragment_identity Google.token_found Google.token_identity
    Google.decode_jwt_payload Google.payload_claims Google.second_part Google.until_dot
    Google.plain_digit Google.checked_nonce Google.hex_nonce get find is_text hex_byte to_radix
    pad_start Digits.digits Platform.digit Base64.atob Base64.read_sextets Base64.unpadded
    Base64.drop_pad Base64.drop_blanks Base64.is_blank Base64.pack Base64.index64
google_popup_sign_in-IsAnswered_example =
    google_popup_sign_in-IsAnswered google_web google_popup (codes "c") (codes "https://w/")
      (10 ∷ []) refl
