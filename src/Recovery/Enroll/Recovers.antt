-- ===== src/Recovery/Enroll/Recovers.antt =====
-- What the enrolment of a wallet leaves behind is enough to recover its vault key.
use widespread_logos.Prelude.{
  ℕ, ◌<◌, ◌≤◌, ◌≡◌, ◌≢◌, ◌⊎◌, inl, inr, refl, sym, ap, ◌∙◌, true, Option, none, some, List, [], ◌∷◌,
  ◌++◌, Text, Bytes, length, All, Result, ok, err, ltb, arith, get_elem?,
}
use mathlib.Core.Path.{subst}
use widespread_logos.Prelude.Errors.{◌>>=◌, >>=-eq-ok}
use widespread_logos.Utf8.RoundTrip.{IsByte}
use widespread_logos.Platform.Base64.{atob-btoa}
use widespread_logos.Recovery.Crypto.{
  Crypto, import_key-32, Derived, derive_from_prf, derive_from_prf-long, ShareSet, split_vault_key,
  split_vault_key-long, combine_shares,
}
use widespread_logos.Recovery.Sealing.{
  seal_kit, open_kit-seal_kit, wrap_share, unwrap_share-wrap_share, truthy,
}
use widespread_logos.Recovery.Storage.{StorageClient, IsContentAddressed}
use widespread_logos.Recovery.Enroll.{
  Draws, EnrollResult, PointerResolver, kit_contents, sealed, Factors, Known, from_contents,
  from_kit, with_prf, keep, locate, resolved, first_segment, segment_0, listed, enroll,
  stored_share, combined_key, recover,
}

-- The sizes of the arrays that `getRandomValues` fills.
pub record IsDrawn (d : Draws) : Type 0 where
  pub vault_key : length d.vault_key ≡ 32
  pub key_bytes : All IsByte d.vault_key
  pub wrap_nonce : length d.wrap_nonce ≡ 12
  pub blob_nonce : length d.blob_nonce ≡ 12
  pub kit_salt : length d.kit_salt ≡ 16
  pub kit_nonce : length d.kit_nonce ≡ 12

-- What an enrolment did: the shares, the derived key, and the share that storage holds.
pub record Made (c : Crypto) (prf : Bytes) (d : Draws) : Type 0 where
  pub shares : ShareSet
  pub derived : Derived
  pub split_ok : split_vault_key c d.split_seed d.vault_key ≡ ok shares
  pub parts : c.split d.split_seed d.vault_key 3 2 ≡ shares.s_id ∷ shares.s_dev ∷ shares.s_rec ∷ []
  pub derive_ok : derive_from_prf c prf ≡ ok derived
  pub pointer : derived.ptr ≢ []
  pub key_length : length derived.wk_id ≡ 32
  pub key_bytes : All IsByte derived.wk_id

pub made : (c : Crypto) (prf : Bytes) (d : Draws) → IsDrawn d → 16 ≤ length prf → Made c prf d
made c prf d g h =
    let (s, e, parts) =
      split_vault_key-long c d.split_seed d.vault_key (rw g.vault_key (omega arith)) in
    let (k, f, pointer, size, bytes) = derive_from_prf-long c prf h in
    record {
      shares = s;
      derived = k;
      split_ok = e;
      parts = parts;
      derive_ok = f;
      pointer = pointer;
      key_length = size;
      key_bytes = bytes;
    }

module _ (c : Crypto) (prf : Bytes) (d : Draws) (m : Made c prf d) where
  share_bytes : IsDrawn d → All IsByte m.shares.s_rec
  share_bytes g =
      let all : All (All IsByte) (m.shares.s_id ∷ m.shares.s_dev ∷ m.shares.s_rec ∷ []) =
        subst (λ xs. All (All IsByte) xs) m.parts
          (c.split_bytes d.split_seed d.vault_key g.key_bytes) in
      all.1.1.0

  -- Two different shares give the key.
  pub combined_key-two :
      (i j : ℕ) (s t : Bytes)
      → IsDrawn d
      → get_elem? (m.shares.s_id ∷ m.shares.s_dev ∷ m.shares.s_rec ∷ []) i ≡ some s
      → get_elem? (m.shares.s_id ∷ m.shares.s_dev ∷ m.shares.s_rec ∷ []) j ≡ some t
      → i ≢ j
      → combined_key c (s ∷ t ∷ []) ≡ ok d.vault_key
  unfolding combined_key combine_shares
  combined_key-two i j s t g e f ne =
      c.combine-two d.split_seed d.vault_key i j (rw g.vault_key (omega arith)) (rw m.parts e)
        (rw m.parts f) ne

  -- What a kit's contents give.
  pub from_contents-made :
      (share_cid : Text) (blob_cid : Option Text)
      → IsDrawn d
      → from_contents (kit_contents m.shares m.derived share_cid blob_cid)
        ≡ ok (record {
          s_rec = some m.shares.s_rec;
          ptr = some m.derived.ptr;
          share_cid = truthy (some share_cid);
          wk_id = some m.derived.wk_id;
        })
  unfolding from_contents kit_contents
  from_contents-made share_cid blob_cid g =
      rw
        (
          atob-btoa m.shares.s_rec (share_bytes g),
          atob-btoa m.derived.wk_id m.key_bytes,
          import_key-32 m.derived.wk_id m.key_length,
        )
        refl

pub truthy-some : (s : Text) → s ≢ [] → truthy (some s) ≡ some s
unfolding truthy
truthy-some [] ne = absurd (ne refl)
truthy-some (u ∷ s) ne = refl

pub locate-some :
    (r : Option PointerResolver) (ptr : Option Text) (cid : Text)
    → cid ≢ []
    → locate r ptr (some cid) ≡ ok (some cid)
unfolding locate
locate-some r ptr [] ne = absurd (ne refl)
locate-some r ptr (u ∷ s) ne = refl

pub locate-resolve :
    (r : PointerResolver) (ptr v : Text)
    → ptr ≢ []
    → r ptr ≡ ok (some v)
    → locate (some r) (some ptr) none ≡ ok (truthy (some (segment_0 v)))
unfolding locate resolved first_segment
locate-resolve r [] v ne h = absurd (ne refl)
locate-resolve r (u ∷ s) v ne h = rw h refl

-- A successful call followed by a step that cannot fail.
pub ok-inversion {ℓ κ} :
    {A : Type ℓ} {B : Type κ} (u : Result A) (f : A → B) {b : B}
    → (u >>= λ a. ok (f a)) ≡ ok b
    → (a : A) × (u ≡ ok a) × (f a ≡ b)
ok-inversion (ok a) f h = (a, refl, cc)
ok-inversion (err e) f h = cc

module _ (c : Crypto) {S : Type 0} (client : StorageClient S) (prf : Bytes) (passphrase : Text)
    (d : Draws) where
  -- What an enrolment returns after its upload.
  abbrev pub enrolled : Made c prf d → Text → EnrollResult
  enrolled m cid = record {
    kit_bytes =
        seal_kit c (kit_contents m.shares m.derived cid none) passphrase d.kit_salt d.kit_nonce;
    s_dev = m.shares.s_dev;
    vault_key = d.vault_key;
    ptr = m.derived.ptr;
    share_cid = cid;
  }

  abbrev pub wrapped : Made c prf d → Bytes
  wrapped m = wrap_share c m.shares.s_id m.derived.wk_id d.wrap_nonce

  -- An enrolment succeeds as soon as its upload does.
  pub enroll-uploads :
      (st st' : S) (cid : Text) (m : Made c prf d)
      → client.upload (wrapped m) st ≡ ok (cid, st')
      → enroll c client prf passphrase d st ≡ ok (enrolled m cid, st')
  unfolding enroll
  enroll-uploads st st' cid m e = rw (m.split_ok, m.derive_ok, e) refl

  pub enroll-inversion :
      (st st' : S) (res : EnrollResult) (m : Made c prf d)
      → enroll c client prf passphrase d st ≡ ok (res, st')
      → (client.upload (wrapped m) st ≡ ok (res.share_cid, st')) × (res ≡ enrolled m res.share_cid)
  unfolding enroll
  enroll-inversion st st' res m h =
      let then_upload : (client.upload (wrapped m) st >>= λ up. ok (enrolled m up.0, up.1))
          ≡ ok (res, st') =
        rw (m.split_ok, m.derive_ok) at h in
      let (up, e, f) = ok-inversion (client.upload (wrapped m) st) _ then_upload in
      let cid : up.0 ≡ res.share_cid = ap (λ p. (p.0).share_cid) f in
      let state : up.1 ≡ st' = ap (λ p. p.1) f in
      (e ∙ ap ok (λ i. (cid i, state i)), sym (ap (λ p. p.0) f) ∙ ap (enrolled m) cid)

module _ (c : Crypto) {S : Type 0} (client : StorageClient S) (laws : IsContentAddressed client)
    (prf : Bytes) (passphrase : Text) (d : Draws) (st st' : S) (res : EnrollResult) where
  -- The share that an enrolment stored is read back and unwrapped.
  pub stored_share-enroll :
      (m : Made c prf d)
      → IsDrawn d
      → enroll c client prf passphrase d st ≡ ok (res, st')
      → stored_share c client (some res.share_cid) (some m.derived.wk_id) st'
        ≡ ok (some m.shares.s_id)
  unfolding stored_share
  stored_share-enroll m g h =
      let (e, same) = enroll-inversion c client prf passphrase d st st' res m h in
      rw
        (
          laws.upload-download (wrapped c client prf passphrase d m) st st' res.share_cid e,
          unwrap_share-wrap_share c m.shares.s_id m.derived.wk_id d.wrap_nonce g.wrap_nonce,
        )
        refl

  pub from_kit-enroll :
      (m : Made c prf d)
      → IsDrawn d
      → res.share_cid ≢ []
      → enroll c client prf passphrase d st ≡ ok (res, st')
      → from_kit c (some (sealed res.kit_bytes passphrase))
        ≡ ok (record {
          s_rec = some m.shares.s_rec;
          ptr = some m.derived.ptr;
          share_cid = some res.share_cid;
          wk_id = some m.derived.wk_id;
        })
  unfolding from_kit kit_contents truthy
  from_kit-enroll m g ne h =
      let (e, same) = enroll-inversion c client prf passphrase d st st' res m h in
      let kit : res.kit_bytes
          ≡ seal_kit c (kit_contents m.shares m.derived res.share_cid none) passphrase d.kit_salt
              d.kit_nonce =
        ap (λ r. r.kit_bytes) same in
      rw
        (
          kit,
          open_kit-seal_kit c (kit_contents m.shares m.derived res.share_cid none) passphrase
              d.kit_salt d.kit_nonce g.kit_salt g.kit_nonce,
        )
        (from_contents-made c prf d m res.share_cid none g ∙ rw (truthy-some res.share_cid ne) refl)

  -- After an enrolment that succeeded with a CID that is not empty, over content-addressed storage and
  -- with a passkey output of 16 bytes or more, the kit and its passphrase recover the vault key, with
  -- nothing else left and no read of the chain.
  pub recover-enroll-kit :
      IsDrawn d
      → 16 ≤ length prf
      → res.share_cid ≢ []
      → enroll c client prf passphrase d st ≡ ok (res, st')
      → recover c client
          (record {
            prf_output = none;
            kit = some (sealed res.kit_bytes passphrase);
            paired_device_share = none;
          })
          none
          st'
        ≡ ok res.vault_key
  unfolding recover with_prf listed
  recover-enroll-kit g size ne h =
      let m = made c prf d g size in
      let (e, same) = enroll-inversion c client prf passphrase d st st' res m h in
      rw
        (
          from_kit-enroll m g ne h,
          locate-some none (some m.derived.ptr) res.share_cid ne,
          stored_share-enroll m g h,
          combined_key-two c prf d m 2 0 m.shares.s_rec m.shares.s_id g refl refl (omega arith),
        )
        (sym (ap (λ r. ok r.vault_key) same))

  -- After such an enrolment the passkey and the paired device recover the vault key, once the chain
  -- resolves the pointer to a text whose first segment is the CID of the share.
  pub recover-enroll-passkey :
      (resolve : PointerResolver) (v : Text)
      → IsDrawn d
      → 16 ≤ length prf
      → res.share_cid ≢ []
      → enroll c client prf passphrase d st ≡ ok (res, st')
      → resolve res.ptr ≡ ok (some v)
      → segment_0 v ≡ res.share_cid
      → recover c client
          (record { prf_output = some prf; kit = none; paired_device_share = some res.s_dev })
          (some resolve)
          st'
        ≡ ok res.vault_key
  unfolding recover with_prf from_kit keep listed
  recover-enroll-passkey resolve v g size ne h found first =
      let m = made c prf d g size in
      let (e, same) = enroll-inversion c client prf passphrase d st st' res m h in
      let device : res.s_dev ≡ m.shares.s_dev = ap (λ r. r.s_dev) same in
      let pointer : res.ptr ≡ m.derived.ptr = ap (λ r. r.ptr) same in
      rw
        (
          m.derive_ok,
          ← pointer,
          locate-resolve resolve res.ptr v (rw pointer m.pointer) found,
          first,
          truthy-some res.share_cid ne,
          stored_share-enroll m g h,
          device,
          combined_key-two c prf d m 1 0 m.shares.s_dev m.shares.s_id g refl refl (omega arith),
        )
        (sym (ap (λ r. ok r.vault_key) same))

combined_key-short :
    (c : Crypto) (xs : List Bytes) (key : Bytes) → length xs < 2 → combined_key c xs ≢ ok key
unfolding combined_key
combined_key-short c xs key h e =
    let short : ltb (length xs) 2 ≡ true = ground arith in let failed = rw short at e in cc

listed-one : (a b : Option Bytes) → (a ≡ none) ⊎ (b ≡ none) → length (listed a ++ listed b) < 2
unfolding listed
listed-one none none h = omega arith
listed-one none (some b) h = omega arith
listed-one (some a) none h = omega arith
listed-one (some a) (some b) (inl e) = cc
listed-one (some a) (some b) (inr e) = cc

stored_share-keyless :
    (c : Crypto) {S : Type 0} (client : StorageClient S) (cid : Option Text) (st : S)
    (s : Option Bytes)
    → stored_share c client cid none st ≡ ok s
    → s ≡ none
unfolding stored_share
stored_share-keyless c client none st s h = cc
stored_share-keyless c client (some cid) st s h = cc

abbrev nothing_known : Known
nothing_known = record { s_rec = none; ptr = none; share_cid = none; wk_id = none }

ok-injective {ℓ} : {A : Type ℓ} {a b : A} → ok a ≡ ok b → a ≡ b
ok-injective e = cc

-- Without a kit, the passkey's output is where the key of the stored share comes from.
with_prf-keyless :
    (c : Crypto) (prf : Option Bytes) (k0 k : Known)
    → from_kit c none ≡ ok k0
    → with_prf c prf k0 ≡ ok k
    → (k.s_rec ≡ none) × (prf ≡ none → k.wk_id ≡ none)
unfolding from_kit with_prf
with_prf-keyless c none k0 k e h =
    let start : nothing_known ≡ k = ok-injective e ∙ ok-injective h in
    (sym (ap (λ x. x.s_rec) start), λ _. sym (ap (λ x. x.wk_id) start))
with_prf-keyless c (some prf) k0 k e h =
    let (d, eq, same) = ok-inversion (derive_from_prf c prf) _ h in
    let start : nothing_known ≡ k0 = ok-injective e in
    (sym (ap (λ x. x.s_rec) start ∙ ap (λ x. x.s_rec) same), λ no_prf. cc)

-- A recovery without a kit and without either the passkey or the paired device finds fewer than two
-- shares: it returns no key, whatever storage and the chain answer.
pub recover-alone :
    (c : Crypto) {S : Type 0} (client : StorageClient S) (f : Factors) (r : Option PointerResolver)
    (st : S) (key : Bytes)
    → f.kit ≡ none
    → (f.prf_output ≡ none) ⊎ (f.paired_device_share ≡ none)
    → recover c client f r st ≢ ok key
unfolding recover listed
recover-alone c client f r st key k alone h =
    let (k0, e0, h0) = >>=-eq-ok (from_kit c f.kit) _ h in
    let (k1, e1, h1) = >>=-eq-ok (with_prf c f.prf_output k0) _ h0 in
    let (cid, e2, h2) = >>=-eq-ok (locate r k1.ptr k1.share_cid) _ h1 in
    let (s_id, e3, h3) = >>=-eq-ok (stored_share c client cid k1.wk_id st) _ h2 in
    let (no_rec, no_key) = with_prf-keyless c f.prf_output k0 k1 (rw k at e0) e1 in
    combined_key-short c (listed k1.s_rec ++ (listed f.paired_device_share ++ listed s_id)) key
      (rw no_rec (
        listed-one f.paired_device_share s_id (elim alone [
          | inl no_prf ↦ inr (stored_share-keyless c client cid st s_id (rw (no_key no_prf) at e3))
          | inr no_device ↦ inl no_device
        ])))
      h3
