-- ===== src/Onboarding/Flows/Alone.antt =====
-- What the passkey does on a device that keeps no share.
use widespread_logos.Prelude.{
  ◌≡◌, ◌≢◌, refl, inr, Option, none, some, Text, Bytes, codes, Result, ok,
}
use widespread_logos.Prelude.Errors.{>>=-eq-ok}
use widespread_logos.Recovery.Crypto.{Crypto}
use widespread_logos.Recovery.Storage.{StorageClient}
use widespread_logos.Recovery.Enroll.{PointerResolver, recover}
use widespread_logos.Recovery.Enroll.Recovers.{recover-alone}
use widespread_logos.Recovery.Vault.{opened_kit, pointer_of, locate_blob, recover_vault}
use widespread_logos.Onboarding.Flows.{
  Wallet, secret, secret_bytes, ImportBlob, recover_with, credential, with_passkey,
  recover_wallet_with_passkey,
}

module _ (c : Crypto) {S : Type 0} (client : StorageClient S) (st : S) where
  recover_vault-alone :
      (prf : Option Bytes) (r : Option PointerResolver) (out : Bytes × Option Text)
      → recover_vault c client
          (record { prf_output = prf; kit = none; paired_device_share = none })
          r
          st
        ≢ ok out
  unfolding recover_vault opened_kit
  recover_vault-alone prf r out h =
      let (ptr, e1, h1) = >>=-eq-ok (pointer_of c none prf) _ h in
      let (cid, e2, h2) = >>=-eq-ok (locate_blob r ptr none) _ h1 in
      let (key, e3, h3) =
        >>=-eq-ok
          (recover c client (record { prf_output = prf; kit = none; paired_device_share = none }) r
            st)
          _ h2 in
      recover-alone c client (record { prf_output = prf; kit = none; paired_device_share = none }) r
        st key refl (inr refl) e3

  recover_with-alone :
      (import_blob : ImportBlob) (prf : Option Bytes) (resolve : PointerResolver) (w w' : Wallet)
      → secret (codes "sDev") w.secrets ≡ none
      → recover_with c client import_blob prf none resolve w st ≢ ok w'
  unfolding recover_with secret_bytes
  recover_with-alone import_blob prf resolve w w' absent h =
      let (out, e, rest) =
        >>=-eq-ok
          (recover_vault c client
            (record { prf_output = prf; kit = none; paired_device_share = none }) (some resolve) st)
          _ (rw absent at h) in
      recover_vault-alone prf (some resolve) out e

  with_passkey-alone :
      (import_blob : ImportBlob) (ask : Bytes → Result Bytes) (found : Option Bytes)
      (resolve : PointerResolver) (w w' : Wallet)
      → secret (codes "sDev") w.secrets ≡ none
      → with_passkey c client import_blob ask found resolve w st ≢ ok w'
  unfolding with_passkey
  with_passkey-alone import_blob ask none resolve w w' absent h = cc
  with_passkey-alone import_blob ask (some id) resolve w w' absent h =
      let (prf, e, rest) = >>=-eq-ok (ask id) _ h in
      recover_with-alone import_blob (some prf) resolve w w' absent rest

  -- On a device whose secrets hold no device share, a recovery with the passkey restores no wallet,
  -- whatever the passkey, the chain, the storage and the backend answer.
  pub recover_wallet_with_passkey-alone :
      (import_blob : Option ImportBlob) (ask : Bytes → Result Bytes) (id : Option Bytes)
      (resolve : PointerResolver) (w w' : Wallet)
      → secret (codes "sDev") w.secrets ≡ none
      → recover_wallet_with_passkey c client import_blob ask id resolve w st ≢ ok w'
  unfolding recover_wallet_with_passkey
  recover_wallet_with_passkey-alone none ask id resolve w w' absent h = cc
  recover_wallet_with_passkey-alone (some import_blob) ask id resolve w w' absent h =
      let (found, e, rest) = >>=-eq-ok (credential c client id w) _ h in
      with_passkey-alone import_blob ask found resolve w w' absent rest
