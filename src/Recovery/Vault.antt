-- ===== src/Recovery/Vault.antt =====
-- enroll.ts: onboardVault and recoverVault, which also back up the wallet's blob under the vault key.
use widespread_logos.Prelude.{
  ◌≡◌, ◌≢◌, refl, Option, none, some, [], ◌∷◌, ◌++◌, Text, Bytes, All, Result, ok, arith,
}
use widespread_logos.Prelude.Errors.{◌>>=◌}
use widespread_logos.Utf8.RoundTrip.{IsByte}
use widespread_logos.Platform.Base64.{btoa}
use widespread_logos.Recovery.Crypto.{Crypto, derive_from_prf, split_vault_key}
use widespread_logos.Recovery.Sealing.{
  KitContents, seal_kit, open_kit, open_kit-seal_kit, wrap_share, unwrap_share-wrap_share,
  seal_blob, open_blob, seal_blob-btoa, open_blob-encrypt, truthy,
}
use widespread_logos.Recovery.Storage.{StorageClient, IsContentAddressed}
use widespread_logos.Recovery.Enroll.{
  Draws, EnrollResult, PointerResolver, kit_contents, KitFactor, opened, resolved, second_segment,
  recover, from_kit, with_prf, listed, stored_share,
}
use widespread_logos.Recovery.Enroll.Recovers.{
  IsDrawn, Made, from_contents-made, locate-some, truthy-some, combined_key-two,
}

pub record OnboardResult : Type 0 where
  pub enrolled : EnrollResult
  pub blob_cid : Text
  pub pointer_value : Text

-- A sealed kit with its passphrase: the only form of kit that `recoverVault` takes.
pub record VaultFactors : Type 0 where
  pub prf_output : Option Bytes
  pub kit : Option (Bytes × Text)
  pub paired_device_share : Option Bytes

unfoldable pub opened_kit : Crypto → Option (Bytes × Text) → Result (Option KitContents)
opened_kit c none = ok none
opened_kit c (some (bytes, passphrase)) = open_kit c bytes passphrase >>= λ k. ok (some k)

-- `contents?.ptr ?? (prfOutput ? (await deriveFromPrf(prfOutput)).ptr : undefined)`
unfoldable pub pointer_of : Crypto → Option KitContents → Option Bytes → Result (Option Text)
pointer_of c (some k) prf = ok (some k.ptr)
pointer_of c none none = ok none
pointer_of c none (some prf) = derive_from_prf c prf >>= λ d. ok (some d.ptr)

unfoldable pub kit_blob : Option KitContents → Option Text
kit_blob none = none
kit_blob (some k) = truthy k.blob_cid

-- `if (!blobCid && ptr && resolver) …`
unfoldable pub locate_blob :
    Option PointerResolver → Option Text → Option Text → Result (Option Text)
locate_blob r ptr (some cid) = ok (some cid)
locate_blob r ptr none = resolved r ptr >>= λ v. ok (truthy (second_segment v))

unfoldable pub kit_factor : Option KitContents → Option KitFactor
kit_factor none = none
kit_factor (some k) = some (opened k)

module _ (c : Crypto) {S : Type 0} (client : StorageClient S) where
  unfoldable pub onboard_vault : Bytes → Text → Text → Draws → S → Result (OnboardResult × S)
  onboard_vault prf passphrase blob d st = split_vault_key c d.split_seed d.vault_key >>= λ s.
      derive_from_prf c prf >>= λ k.
      client.upload (wrap_share c s.s_id k.wk_id d.wrap_nonce) st >>= λ up1.
      seal_blob c blob d.vault_key d.blob_nonce >>= λ backup. client.upload backup up1.1 >>= λ up2.
      ok (
        record {
          enrolled = record {
            kit_bytes =
                seal_kit c (kit_contents s k up1.0 (some up2.0)) passphrase d.kit_salt d.kit_nonce;
            s_dev = s.s_dev;
            vault_key = d.vault_key;
            ptr = k.ptr;
            share_cid = up1.0;
          };
          blob_cid = up2.0;
          pointer_value = up1.0 ++ (b':' ∷ up2.0);
        },
        up2.1,
      )

  unfoldable pub opened_backup : Bytes → Option Text → S → Result (Bytes × Option Text)
  opened_backup key none st = ok (key, none)
  opened_backup key (some cid) st =
      client.download cid st >>= λ bytes. open_blob c bytes key >>= λ blob. ok (key, some blob)

  unfoldable pub recover_vault :
      VaultFactors → Option PointerResolver → S → Result (Bytes × Option Text)
  unfolding kit_blob kit_factor
  recover_vault f r st = opened_kit c f.kit >>= λ contents.
      pointer_of c contents f.prf_output >>= λ ptr. locate_blob r ptr (kit_blob contents) >>= λ cid.
      recover c client
        (record {
          prf_output = f.prf_output;
          kit = kit_factor contents;
          paired_device_share = f.paired_device_share;
        })
        r st
      >>= λ key. opened_backup key cid st

-- An onboarding whose two uploads succeed.
module _ (c : Crypto) {S : Type 0} (client : StorageClient S) (laws : IsContentAddressed client)
    (prf : Bytes) (passphrase : Text) (text : Bytes) (d : Draws) (st st1 st2 : S)
    (share_cid blob_cid : Text) (m : Made c prf d) (g : IsDrawn d)
    (e1 : client.upload (wrap_share c m.shares.s_id m.derived.wk_id d.wrap_nonce) st
      ≡ ok (share_cid, st1))
    (e2 : client.upload (d.blob_nonce ++ c.encrypt d.vault_key d.blob_nonce text) st1
      ≡ ok (blob_cid, st2)) where
  abbrev onboarded : OnboardResult
  onboarded = record {
    enrolled = record {
      kit_bytes =
          seal_kit c (kit_contents m.shares m.derived share_cid (some blob_cid)) passphrase
            d.kit_salt d.kit_nonce;
      s_dev = m.shares.s_dev;
      vault_key = d.vault_key;
      ptr = m.derived.ptr;
      share_cid = share_cid;
    };
    blob_cid = blob_cid;
    pointer_value = share_cid ++ (b':' ∷ blob_cid);
  }

  pub onboard_vault-uploads :
      All IsByte text → onboard_vault c client prf passphrase (btoa text) d st ≡ ok (onboarded, st2)
  unfolding onboard_vault
  onboard_vault-uploads bytes =
      rw
        (
          m.split_ok,
          m.derive_ok,
          e1,
          seal_blob-btoa c text d.vault_key d.blob_nonce g.vault_key bytes,
          e2,
        )
        refl

  -- The contents of the kit, once it is open.
  abbrev contents : KitContents
  contents = kit_contents m.shares m.derived share_cid (some blob_cid)

  opened_kit-onboard :
      blob_cid ≢ []
      → opened_kit c (some (onboarded.enrolled.kit_bytes, passphrase)) ≡ ok (some contents)
  unfolding opened_kit kit_contents
  opened_kit-onboard ne =
      rw
        (
          open_kit-seal_kit c contents passphrase d.kit_salt d.kit_nonce g.kit_salt g.kit_nonce,
          truthy-some blob_cid ne,
        )
        refl

  recover-contents :
      share_cid ≢ []
      → recover c client
          (record { prf_output = none; kit = some (opened contents); paired_device_share = none })
          none
          st2
        ≡ ok d.vault_key
  unfolding recover from_kit with_prf listed stored_share
  recover-contents ne =
      let kept =
        laws.upload-keeps _ st1 st2 blob_cid share_cid _ e2
          (laws.upload-download _ st st1 share_cid e1) in
      rw
        (
          from_contents-made c prf d m share_cid (some blob_cid) g,
          truthy-some share_cid ne,
          locate-some none (some m.derived.ptr) share_cid ne,
          kept,
          unwrap_share-wrap_share c m.shares.s_id m.derived.wk_id d.wrap_nonce g.wrap_nonce,
        )
        (combined_key-two c prf d m 2 0 m.shares.s_rec m.shares.s_id g refl refl (omega arith))

  -- When both uploads of an onboarding succeed, with two CIDs that are not empty and storage that is
  -- content-addressed, the kit and its passphrase recover the vault key and the blob, byte for byte,
  -- with nothing else left and no read of the chain. The random bytes have the sizes that are drawn.
  pub recover_vault-onboard_vault :
      All IsByte text
      → share_cid ≢ []
      → blob_cid ≢ []
      → (onboard_vault c client prf passphrase (btoa text) d st >>= λ done.
          recover_vault c client
            (record {
              prf_output = none;
              kit = some (done.0.enrolled.kit_bytes, passphrase);
              paired_device_share = none;
            })
            none
            done.1)
        ≡ ok (d.vault_key, some (btoa text))
  unfolding recover_vault pointer_of locate_blob opened_backup kit_contents
  recover_vault-onboard_vault bytes ne1 ne2 =
      rw
        (
          onboard_vault-uploads bytes,
          opened_kit-onboard ne2,
          truthy-some blob_cid ne2,
          recover-contents ne1,
          laws.upload-download _ st1 st2 blob_cid e2,
          open_blob-encrypt c text d.vault_key d.blob_nonce g.vault_key g.blob_nonce,
        )
        refl
