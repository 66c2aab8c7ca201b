-- ===== src/Recovery/Enroll.antt =====
-- enroll.ts: enrolment and recovery. The bytes that the browser draws are an argument of enrolment.
pub mod Recovers
use widespread_logos.Prelude.{
  ℕ, ◌+◌, ◌<◌, ◌≤◌, ◌≡◌, refl, true, false, not, Option, none, some, List, [], ◌∷◌, ◌++◌, Text,
  Bytes, codes, length, Result, ok, err, message, ◌==◌, ltb, if◌then◌else◌,
}
use widespread_logos.Prelude.Errors.{◌>>=◌}
use widespread_logos.Platform.Base64.{btoa, atob}
use widespread_logos.Recovery.Crypto.{
  Crypto, import_key, Derived, derive_from_prf, ShareSet, split_vault_key, combine_shares,
}
use widespread_logos.Recovery.Sealing.{
  KitContents, seal_kit, open_kit, wrap_share, unwrap_share, seal_blob, open_blob, truthy,
}
use widespread_logos.Recovery.Storage.{StorageClient}

pub record Draws : Type 0 where
  pub vault_key : Bytes
  pub split_seed : Bytes
  pub wrap_nonce : Bytes
  pub blob_nonce : Bytes
  pub kit_salt : Bytes
  pub kit_nonce : Bytes

pub record EnrollResult : Type 0 where
  pub kit_bytes : Bytes
  pub s_dev : Bytes
  pub vault_key : Bytes
  pub ptr : Text
  pub share_cid : Text

-- `PointerResolver`: a read of the chain.
abbrev pub PointerResolver : Type 0
PointerResolver = Text → Result (Option Text)

unfoldable pub kit_contents : ShareSet → Derived → Text → Option Text → KitContents
unfolding btoa
kit_contents s k share_cid blob_cid = record {
  s_rec = btoa s.s_rec;
  ptr = k.ptr;
  wk_id = btoa k.wk_id;
  share_cid = share_cid;
  blob_cid = blob_cid;
}

-- The first segment of `${shareCid}:${blobCid}`, and the second.
unfoldable pub segment_0 : Text → Text
segment_0 [] = []
segment_0 (u ∷ s) = if u == b':' then [] else u ∷ segment_0 s

unfoldable pub segment_1 : Text → Option Text
unfolding segment_0
segment_1 [] = none
segment_1 (u ∷ s) = if u == b':' then some (segment_0 s) else segment_1 s

pub data KitFactor : Type 0 where
  sealed : Bytes → Text → KitFactor
  opened : KitContents → KitFactor

pub record Factors : Type 0 where
  pub prf_output : Option Bytes
  pub kit : Option KitFactor
  pub paired_device_share : Option Bytes

-- The local variables of `recover`.
pub record Known : Type 0 where
  pub s_rec : Option Bytes
  pub ptr : Option Text
  pub share_cid : Option Text
  pub wk_id : Option Bytes

unfoldable pub from_contents : KitContents → Result Known
from_contents k = atob k.s_rec >>= λ s. atob k.wk_id >>= λ raw. import_key raw >>= λ wk.
    ok (record {
      s_rec = some s;
      ptr = some k.ptr;
      share_cid = truthy (some k.share_cid);
      wk_id = some wk;
    })

unfoldable pub from_kit : Crypto → Option KitFactor → Result Known
from_kit c none = ok (record { s_rec = none; ptr = none; share_cid = none; wk_id = none })
from_kit c (some (sealed bytes passphrase)) = open_kit c bytes passphrase >>= λ k. from_contents k
from_kit c (some (opened k)) = from_contents k

-- `a ??= b`
unfoldable pub keep {ℓ} : {A : Type ℓ} → Option A → A → Option A
keep none b = some b
keep (some a) b = some a

unfoldable pub with_prf : Crypto → Option Bytes → Known → Result Known
with_prf c none k = ok k
with_prf c (some prf) k = derive_from_prf c prf >>= λ d. ok (record {
  s_rec = k.s_rec;
  ptr = keep k.ptr d.ptr;
  share_cid = k.share_cid;
  wk_id = keep k.wk_id d.wk_id;
})

-- The pointer's value, when there is a pointer (not the empty text) and a resolver.
unfoldable pub resolved : Option PointerResolver → Option Text → Result (Option Text)
resolved none ptr = ok none
resolved (some r) none = ok none
resolved (some r) (some []) = ok none
resolved (some r) (some (u ∷ s)) = r (u ∷ s)

unfoldable pub first_segment : Option Text → Option Text
unfolding segment_0
first_segment none = none
first_segment (some v) = some (segment_0 v)

unfoldable pub second_segment : Option Text → Option Text
unfolding segment_1
second_segment none = none
second_segment (some v) = segment_1 v

-- `if (!shareCid && ptr && resolver) …`
unfoldable pub locate : Option PointerResolver → Option Text → Option Text → Result (Option Text)
locate r ptr (some (u ∷ s)) = ok (some (u ∷ s))
locate r ptr none = resolved r ptr >>= λ v. ok (truthy (first_segment v))
locate r ptr (some []) = resolved r ptr >>= λ v. ok (truthy (first_segment v))

unfoldable pub listed : Option Bytes → List Bytes
listed none = []
listed (some b) = b ∷ []

unfoldable pub combined_key : Crypto → List Bytes → Result Bytes
combined_key c shares =
    if ltb (length shares) 2
    then err (
        message (
          codes
            "unrecoverable: fewer than two factors remain (need passkey, kit, or a paired device)"))
    else combine_shares c shares

module _ (c : Crypto) {S : Type 0} (client : StorageClient S) where
  unfoldable pub enroll : Bytes → Text → Draws → S → Result (EnrollResult × S)
  enroll prf passphrase d st = split_vault_key c d.split_seed d.vault_key >>= λ s.
      derive_from_prf c prf >>= λ k.
      client.upload (wrap_share c s.s_id k.wk_id d.wrap_nonce) st >>= λ up. ok (
        record {
          kit_bytes = seal_kit c (kit_contents s k up.0 none) passphrase d.kit_salt d.kit_nonce;
          s_dev = s.s_dev;
          vault_key = d.vault_key;
          ptr = k.ptr;
          share_cid = up.0;
        },
        up.1,
      )

  -- The share that storage holds, when its CID and its key are known.
  unfoldable pub stored_share : Option Text → Option Bytes → S → Result (Option Bytes)
  stored_share none wk st = ok none
  stored_share (some cid) none st = ok none
  stored_share (some cid) (some wk) st =
      client.download cid st >>= λ w. unwrap_share c w wk >>= λ s. ok (some s)

  unfoldable pub recover : Factors → Option PointerResolver → S → Result Bytes
  recover f r st = from_kit c f.kit >>= λ k0. with_prf c f.prf_output k0 >>= λ k.
      locate r k.ptr k.share_cid >>= λ cid. stored_share cid k.wk_id st >>= λ s_id.
      combined_key c (listed k.s_rec ++ (listed f.paired_device_share ++ listed s_id))
