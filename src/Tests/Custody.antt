-- ===== src/Tests/Custody.antt =====
-- An enrolment and an onboarding on the concrete platform.
use widespread_logos.Prelude.{
  ◌≤◌, ◌≡◌, ◌≢◌, refl, Option, none, some, List, [], ◌∷◌, ◌++◌, Text, Bytes, codes, replicate,
  Result, ok, arith, inr, length,
}
use widespread_logos.Prelude.Errors.{◌>>=◌}
use widespread_logos.Platform.Base64.{btoa, atob, atob-btoa}
use widespread_logos.Recovery.Sealing.{KitContents, seal_kit, open_kit, open_kit-seal_kit, truthy}
use widespread_logos.Recovery.Enroll.{Draws, EnrollResult, sealed, enroll, recover, segment_0}
use widespread_logos.Recovery.Enroll.Recovers.{
  IsDrawn, Made, made, enrolled, wrapped, enroll-uploads, recover-enroll-kit,
  recover-enroll-passkey, recover-alone,
}
use widespread_logos.Recovery.Vault.{onboard_vault, recover_vault, recover_vault-onboard_vault}
use widespread_logos.Onboarding.Flows.{Wallet, ImportBlob, secret, recover_wallet_with_passkey}
use widespread_logos.Onboarding.Flows.Alone.{recover_wallet_with_passkey-alone}
use widespread_logos.Tests.World.{all_ltb-All, crypto, store, store-IsContentAddressed}

abbrev draws : Draws
draws = record {
  vault_key = replicate 32 3;
  split_seed = [];
  wrap_nonce = replicate 12 1;
  blob_nonce = replicate 12 2;
  kit_salt = replicate 16 4;
  kit_nonce = replicate 12 5;
}

draws-IsDrawn : IsDrawn draws
draws-IsDrawn = record {
  vault_key = refl;
  key_bytes = all_ltb-All 256 (replicate 32 3) refl;
  wrap_nonce = refl;
  blob_nonce = refl;
  kit_salt = refl;
  kit_nonce = refl;
}

abbrev prf : Bytes
prf = replicate 32 6

long_enough : 16 ≤ length prf
long_enough = omega arith

abbrev passphrase : Text
passphrase = codes "correct horse"

here-Made : Made crypto prf draws
here-Made = made crypto prf draws draws-IsDrawn long_enough

abbrev result : EnrollResult
result = enrolled crypto store prf passphrase draws here-Made (codes "z")

abbrev after : List Bytes
after = wrapped crypto store prf passphrase draws here-Made ∷ []

enrolled_here : enroll crypto store prf passphrase draws [] ≡ ok (result, after)
enrolled_here = enroll-uploads crypto store prf passphrase draws [] after (codes "z") here-Made refl

recover-enroll-kit_example :
    recover crypto store
      (record {
        prf_output = none;
        kit = some (sealed result.kit_bytes passphrase);
        paired_device_share = none;
      })
      none
      after
    ≡ ok result.vault_key
recover-enroll-kit_example =
    recover-enroll-kit crypto store store-IsContentAddressed prf passphrase draws [] after result
      draws-IsDrawn long_enough (λ e. cc) enrolled_here

abbrev pointed : Text → Result (Option Text)
pointed ptr = ok (some (codes "z:zz"))

recover-enroll-passkey_example :
    recover crypto store
      (record { prf_output = some prf; kit = none; paired_device_share = some result.s_dev })
      (some pointed)
      after
    ≡ ok result.vault_key
unfolding segment_0
recover-enroll-passkey_example =
    recover-enroll-passkey crypto store store-IsContentAddressed prf passphrase draws [] after
      result pointed (codes "z:zz") draws-IsDrawn long_enough (λ e. cc) enrolled_here refl refl

recover-alone_example :
    recover crypto store
      (record { prf_output = some prf; kit = none; paired_device_share = none })
      (some pointed)
      after
    ≢ ok result.vault_key
recover-alone_example =
    recover-alone crypto store
      (record { prf_output = some prf; kit = none; paired_device_share = none }) (some pointed)
      after result.vault_key refl (inr refl)

abbrev backup : Bytes
backup = draws.blob_nonce ++ crypto.encrypt draws.vault_key draws.blob_nonce (1 ∷ 2 ∷ 3 ∷ 4 ∷ [])

recover_vault-onboard_vault_example :
    (onboard_vault crypto store prf passphrase (btoa (1 ∷ 2 ∷ 3 ∷ 4 ∷ [])) draws [] >>= λ done.
    recover_vault crypto store
      (record {
        prf_output = none;
        kit = some (done.0.enrolled.kit_bytes, passphrase);
        paired_device_share = none;
      })
      none
      done.1)
    ≡ ok (draws.vault_key, some (btoa (1 ∷ 2 ∷ 3 ∷ 4 ∷ [])))
recover_vault-onboard_vault_example =
    recover_vault-onboard_vault crypto store store-IsContentAddressed prf passphrase
      (1 ∷ 2 ∷ 3 ∷ 4 ∷ []) draws [] after (after ++ backup ∷ []) (codes "z") (codes "zz") here-Made
      draws-IsDrawn refl refl (all_ltb-All 256 (1 ∷ 2 ∷ 3 ∷ 4 ∷ []) refl) (λ e. cc) (λ e. cc)

abbrev kit_here : KitContents
kit_here = record {
  s_rec = codes "c2hhcmU=";
  ptr = codes "ab";
  wk_id = codes "a2V5";
  share_cid = codes "z";
  blob_cid = some [];
}

open_kit-seal_kit_example :
    open_kit crypto (seal_kit crypto kit_here passphrase draws.kit_salt draws.kit_nonce) passphrase
    ≡ ok (record {
      s_rec = kit_here.s_rec;
      ptr = kit_here.ptr;
      wk_id = kit_here.wk_id;
      share_cid = kit_here.share_cid;
      blob_cid = truthy kit_here.blob_cid;
    })
open_kit-seal_kit_example =
    open_kit-seal_kit crypto kit_here passphrase draws.kit_salt draws.kit_nonce refl refl

atob-btoa_example : atob (btoa (1 ∷ 2 ∷ 255 ∷ 0 ∷ [])) ≡ ok (1 ∷ 2 ∷ 255 ∷ 0 ∷ [])
atob-btoa_example = atob-btoa (1 ∷ 2 ∷ 255 ∷ 0 ∷ []) (all_ltb-All 256 (1 ∷ 2 ∷ 255 ∷ 0 ∷ []) refl)

abbrev new_device : Wallet
new_device = record { secrets = []; imported = [] }

abbrev accepts : ImportBlob
accepts blob = ok tt

abbrev asked_prf : Bytes → Result Bytes
asked_prf id = ok prf

recover_wallet_with_passkey-alone_example :
    recover_wallet_with_passkey crypto store
      (some accepts)
      asked_prf
      (some (1 ∷ []))
      pointed
      new_device
      after
    ≢ ok new_device
unfolding secret
recover_wallet_with_passkey-alone_example =
    recover_wallet_with_passkey-alone crypto store after (some accepts) asked_prf (some (1 ∷ []))
      pointed new_device new_device refl
