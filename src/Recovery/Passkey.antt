-- ===== src/Recovery/Passkey.antt =====
-- The passkey ceremonies (packages/recovery/src/passkey.ts). The authenticator, reached through
-- navigator.credentials, is a parameter; random bytes are arguments.
pub mod Prf
use widespread_logos.Prelude.{
  ℕ, Bool, true, false, ◌&&◌, Option, none, some, List, [], ◌∷◌, Text, Bytes, codes, message,
  Result, ok, err,
}
use widespread_logos.Prelude.Tasks.{Task, fail, settle, ◌>>=◌}
use widespread_logos.Utf8.{utf8_encode}

pub record PasskeyResult : Type 0 where
  pub credential_id : Bytes
  pub prf_output : Bytes

-- A credential that the browser returned, with the PRF result among its extension results.
pub record Credential : Type 0 where
  pub raw_id : Bytes
  pub prf_first : Option Bytes

-- `publicKey` of a creation: the fields that are not the same in every call.
pub record CreationOptions : Type 0 where
  pub challenge : Bytes
  pub user_id : Bytes
  pub user_name : Text
  pub display_name : Text
  pub prf_salt : Bytes

-- `publicKey` of an assertion.
pub record RequestOptions : Type 0 where
  pub challenge : Bytes
  pub allowed : Bytes
  pub prf_salt : Bytes

-- navigator.credentials: no credential if the user cancels.
pub record Authenticator (Host : Type 0) : Type 0 where
  pub create : CreationOptions → Host → Result (Option Credential) × Host
  pub get : RequestOptions → Host → Result (Option Credential) × Host

-- What `passkeyPrfSupported` looks at.
pub record Context : Type 0 where
  pub has_navigator : Bool
  pub has_create : Bool
  pub has_public_key_credential : Bool

unfoldable pub passkey_prf_supported : Context → Bool
passkey_prf_supported c = c.has_navigator && c.has_create && c.has_public_key_credential

unfoldable pub prf_salt : Bytes
unfolding utf8_encode
prf_salt = utf8_encode (codes "widespread-vault-v1")

unfoldable pub first_result : Option Bytes → Result Bytes
first_result none =
    err (message (codes "passkey did not return a PRF result (unsupported authenticator?)"))
first_result (some first) = ok first

unfoldable pub read_prf_result : Credential → Result Bytes
unfolding first_result
read_prf_result cred = first_result cred.prf_first

module _ {Host : Type 0} (authenticator : Authenticator Host) where
  unfoldable pub created : Option Credential → Task Host PasskeyResult
  unfolding read_prf_result
  created none = fail (message (codes "passkey creation cancelled"))
  created (some cred) = settle (read_prf_result cred) >>= λ output.
      settle (ok (record { credential_id = cred.raw_id; prf_output = output }))

  unfoldable pub create_passkey_with_prf : Bytes → Bytes → Text → Text → Task Host PasskeyResult
  unfolding created prf_salt
  create_passkey_with_prf challenge user_id user_name display_name =
      authenticator.create (record {
        challenge = challenge;
        user_id = user_id;
        user_name = user_name;
        display_name = display_name;
        prf_salt = prf_salt;
      })
      >>= created

  unfoldable pub asserted : Option Credential → Task Host Bytes
  unfolding read_prf_result
  asserted none = fail (message (codes "passkey assertion cancelled"))
  asserted (some cred) = settle (read_prf_result cred)

  unfoldable pub get_passkey_prf : Bytes → Bytes → Task Host Bytes
  unfolding asserted prf_salt
  get_passkey_prf challenge credential_id =
      authenticator.get
        (record { challenge = challenge; allowed = credential_id; prf_salt = prf_salt })
      >>= asserted
