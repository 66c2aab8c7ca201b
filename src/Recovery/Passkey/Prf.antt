-- ===== src/Recovery/Passkey/Prf.antt =====
-- The PRF output is the same at every ceremony with a passkey.
use widespread_logos.Prelude.{Option, none, some, Text, Bytes, ok, ◌≡◌, refl, sym, ap, ◌∙◌}
use widespread_logos.Prelude.Errors.{ok-inj}
use widespread_logos.Prelude.Tasks.{fail, settle}
use widespread_logos.Prelude.Tasks.Inversion.{>>=-inversion, settle-inversion}
use widespread_logos.Recovery.Passkey.{
  PasskeyResult, Credential, CreationOptions, RequestOptions, Authenticator, prf_salt, first_result,
  read_prf_result, created, create_passkey_with_prf, asserted, get_passkey_prf,
}

-- WebAuthn's PRF extension: the result, where there is one, is a function of the credential and the
-- salt; an assertion is made with the credential that was allowed.
pub record HasPrf {Host : Type 0} (authenticator : Authenticator Host) : Type 0 where
  pub prf : Bytes → Bytes → Bytes
  pub create-prf :
      (o : CreationOptions) (h : Host) {cred : Credential} {after : Host} {first : Bytes}
      → authenticator.create o h ≡ (ok (some cred), after)
      → cred.prf_first ≡ some first
      → first ≡ prf cred.raw_id o.prf_salt
  pub get-prf :
      (o : RequestOptions) (h : Host) {cred : Credential} {after : Host} {first : Bytes}
      → authenticator.get o h ≡ (ok (some cred), after)
      → cred.prf_first ≡ some first
      → first ≡ prf o.allowed o.prf_salt

first_result-ok : (o : Option Bytes) {b : Bytes} → first_result o ≡ ok b → o ≡ some b
unfolding first_result
first_result-ok none same = cc
first_result-ok (some first) same = ap some (ok-inj same)

module _ {Host : Type 0} (authenticator : Authenticator Host) where
  created-prf :
      (o : Option Credential) (h : Host) {r : PasskeyResult} {after : Host}
      → created authenticator o h ≡ (ok r, after)
      → (cred : Credential) × (o ≡ some cred)
        × (r.credential_id ≡ cred.raw_id)
        × (cred.prf_first ≡ some r.prf_output)
  unfolding created fail read_prf_result
  created-prf none h returned = cc
  created-prf (some cred) h {r} returned =
      let (output, middle, was_read, last) =
        >>=-inversion (settle (first_result cred.prf_first))
          (λ output. settle (ok (record { credential_id = cred.raw_id; prf_output = output })))
          returned in
      let result : record { credential_id = cred.raw_id; prf_output = output } ≡ r =
        ok-inj (settle-inversion _ last).0 in
      (
        cred,
        refl,
        ap (λ (x : PasskeyResult). x.credential_id) (sym result),
        first_result-ok cred.prf_first (settle-inversion _ was_read).0
            ∙ ap (λ (x : PasskeyResult). some x.prf_output) result,
      )

  asserted-prf :
      (o : Option Credential) (h : Host) {b : Bytes} {after : Host}
      → asserted authenticator o h ≡ (ok b, after)
      → (cred : Credential) × (o ≡ some cred) × (cred.prf_first ≡ some b)
  unfolding asserted fail read_prf_result
  asserted-prf none h returned = cc
  asserted-prf (some cred) h returned =
      (cred, refl, first_result-ok cred.prf_first (settle-inversion _ returned).0)

  -- If the PRF of the authenticator is a function of the credential and the salt, then a passkey that
  -- was created gives the secret of its creation at every later ceremony that returns, in whatever
  -- state the device is then.
  pub get_passkey_prf-create_passkey_with_prf :
      HasPrf authenticator
      → (challenge user_id : Bytes) (user_name display_name : Text) (h : Host) {r : PasskeyResult}
        {after : Host}
      → create_passkey_with_prf authenticator challenge user_id user_name display_name h
        ≡ (ok r, after)
      → (other : Bytes) (later : Host) {secret : Bytes} {last : Host}
      → get_passkey_prf authenticator other r.credential_id later ≡ (ok secret, last)
      → secret ≡ r.prf_output
  unfolding create_passkey_with_prf get_passkey_prf
  get_passkey_prf-create_passkey_with_prf laws challenge user_id user_name display_name h {r} made
        other later asked =
      let (o, h1, answered, kept) =
        >>=-inversion (authenticator.create _) (created authenticator) made in
      let (cred, there, same_id, output) = created-prf o h1 kept in
      let (p, h2, found, read) =
        >>=-inversion (authenticator.get _) (asserted authenticator) asked in
      let (used, here, secret_part) = asserted-prf p h2 read in
      laws.get-prf _ later (found ∙ ap (λ x. (ok x, h2)) here) secret_part
      ∙ ap (λ id. laws.prf id prf_salt) same_id
      ∙ sym (laws.create-prf _ h (answered ∙ ap (λ x. (ok x, h1)) there) output)
