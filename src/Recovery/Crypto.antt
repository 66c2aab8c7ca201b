-- ===== src/Recovery/Crypto.antt =====
-- What the recovery package takes from others: the browser's Web Crypto (AES-GCM, HKDF, PBKDF2,
-- SHA-256), shamir-secret-sharing, and the JSON text of a kit's payload. A CryptoKey is its raw bytes;
-- random bytes are arguments of the operations that draw them.
use widespread_logos.Prelude.{
  ℕ, ◌+◌, ◌<◌, ◌≡◌, ◌≢◌, ◌≤◌, refl, false, arith, ◌++◌, ◌-◌, ap, length-append, length-replicate,
  ◌^◌, type_error, Option, some, List, [], ◌∷◌, Text, Bytes, codes, length, get_elem?, All, ◌||◌,
  Result, ok, err, operation_error, message, ◌==◌, ltb, if◌then◌else◌, replicate,
}
use widespread_logos.Prelude.Errors.{◌>>=◌}
use widespread_logos.Utf8.{utf8_encode, IsPlain}
use widespread_logos.Utf8.RoundTrip.{IsByte}
use widespread_logos.Platform.{hex_byte, pad_start, to_radix}
use widespread_logos.Pda.{Sha256}

-- What a kit's JSON text says: `RecoveryKitContents & { v: number }`, with the two members that older
-- kits lack.
pub record Payload : Type 0 where
  pub v : ℕ
  pub s_rec : Text
  pub ptr : Text
  pub wk_id : Text
  pub share_cid : Option Text
  pub blob_cid : Option Text

pub record Crypto : Type 0 where
  pub sha256 : Sha256
  -- AES-GCM with a key, a nonce and a text; decryption fails on a wrong tag.
  pub encrypt : Bytes → Bytes → Bytes → Bytes
  pub decrypt : Bytes → Bytes → Bytes → Result Bytes
  pub decrypt-encrypt :
      (key nonce text : Bytes) → decrypt key nonce (encrypt key nonce text) ≡ ok text
  pub length-encrypt : (key nonce text : Bytes) → length (encrypt key nonce text) ≡ length text + 16
  -- HKDF-SHA-256 over a secret, a salt and an info text, to a number of bytes.
  pub hkdf : Bytes → Bytes → Bytes → ℕ → Bytes
  pub length-hkdf : (secret salt info : Bytes) → length (hkdf secret salt info 32) ≡ 32
  pub hkdf_bytes : (secret salt info : Bytes) → All IsByte (hkdf secret salt info 32)
  -- PBKDF2-SHA-256 over a passphrase, a salt and a number of rounds: an AES-256 key.
  pub pbkdf2 : Bytes → Bytes → ℕ → Bytes
  -- The shares of a secret (with the randomness drawn, their number and the threshold).
  pub split : Bytes → Bytes → ℕ → ℕ → List Bytes
  pub combine : List Bytes → Result Bytes
  pub length-split : (seed key : Bytes) → length (split seed key 3 2) ≡ 3
  pub split_bytes : (seed key : Bytes) → All IsByte key → All (All IsByte) (split seed key 3 2)
  pub combine-two :
      (seed key : Bytes) (i j : ℕ) {s t : Bytes}
      → 0 < length key
      → get_elem? (split seed key 3 2) i ≡ some s
      → get_elem? (split seed key 3 2) j ≡ some t
      → i ≢ j
      → combine (s ∷ t ∷ []) ≡ ok key
  -- JSON.stringify and JSON.parse of a payload; the text has no lone surrogate and no mark in front.
  pub stringify : Payload → Text
  pub parse : Text → Result Payload
  pub parse-stringify : (p : Payload) → p.v < 2 ^ 53 → parse (stringify p) ≡ ok p
  pub IsPlain-stringify : (p : Payload) → IsPlain (stringify p)

-- `crypto.subtle.importKey('raw', key, { name: 'AES-GCM' }, …)` takes 16, 24 or 32 bytes.
unfoldable pub import_key : Bytes → Result Bytes
import_key raw =
    if (length raw == 16) || (length raw == 24) || (length raw == 32)
    then ok raw
    else err operation_error

-- `deriveFromPrf` and its result: the pointer and the key that wraps the identity share.
pub record Derived : Type 0 where
  pub ptr : Text
  pub wk_id : Bytes

hex_text : Bytes → Text
unfolding hex_byte
hex_text [] = []
hex_text (b ∷ bs) = hex_byte b ++ hex_text bs

hkdf_info : Crypto → Bytes → Text → Bytes
hkdf_info c prf info = c.hkdf prf (replicate 32 0) (utf8_encode info) 32

unfoldable pub derive_from_prf : Crypto → Bytes → Result Derived
unfolding hex_text hkdf_info
derive_from_prf c prf =
    if ltb (length prf) 16
    then err (message (codes "prf output too short"))
    else import_key (hkdf_info c prf (codes "wsp-wrap")) >>= λ wk. ok (record {
      ptr = hex_text (c.sha256.digest (hkdf_info c prf (codes "wsp-ptr")));
      wk_id = wk;
    })

-- shares.ts
pub record ShareSet : Type 0 where
  pub s_id : Bytes
  pub s_dev : Bytes
  pub s_rec : Bytes

-- `const [sId, sDev, sRec] = …`; a share that is not there is `undefined`, which its first use throws.
unfoldable pub share_set : List Bytes → Result ShareSet
share_set (a ∷ b ∷ d ∷ rest) = ok (record { s_id = a; s_dev = b; s_rec = d })
share_set [] = err type_error
share_set (a ∷ []) = err type_error
share_set (a ∷ b ∷ []) = err type_error

unfoldable pub split_vault_key : Crypto → Bytes → Bytes → Result ShareSet
unfolding share_set
split_vault_key c seed key =
    if ltb (length key) 16
    then err (message (codes "vault key too short"))
    else share_set (c.split seed key 3 2)

unfoldable pub combine_shares : Crypto → List Bytes → Result Bytes
combine_shares c shares =
    if ltb (length shares) 2
    then err (message (codes "need at least two shares"))
    else c.combine shares

-- A pointer is not the empty text.
hex_text-ne-nil : (bs : Bytes) → 0 < length bs → hex_text bs ≢ []
unfolding hex_text hex_byte pad_start
hex_text-ne-nil [] h e = absurd (omega arith)
hex_text-ne-nil (b ∷ bs) h e =
    let digits = to_radix 16 b in
    let size = ap length e in
    absurd (
      omega (
        arith,
        size,
        length-append (hex_byte b) (hex_text bs),
        length-append (replicate (2 - length digits) b'0') digits,
        length-replicate {A = ℕ} (2 - length digits) b'0',
      ))

-- What the key derivation gives for an output that is long enough.
pub import_key-32 : (raw : Bytes) → length raw ≡ 32 → import_key raw ≡ ok raw
unfolding import_key
import_key-32 raw h = rw h refl

pub derive_from_prf-long :
    (c : Crypto) (prf : Bytes)
    → 16 ≤ length prf
    → (k : Derived) × (derive_from_prf c prf ≡ ok k)
      × (k.ptr ≢ [])
      × (length k.wk_id ≡ 32)
      × All IsByte k.wk_id
unfolding derive_from_prf hkdf_info
derive_from_prf-long c prf h =
    let long : ltb (length prf) 16 ≡ false = ground arith in
    let info = utf8_encode (codes "wsp-wrap") in
    let size = c.length-hkdf prf (replicate 32 0) info in
    (
      record {
        ptr = hex_text (c.sha256.digest (hkdf_info c prf (codes "wsp-ptr")));
        wk_id = c.hkdf prf (replicate 32 0) info 32;
      },
      rw (long, import_key-32 _ size) refl,
      hex_text-ne-nil (c.sha256.digest (hkdf_info c prf (codes "wsp-ptr")))
          (rw (c.sha256.length_digest (hkdf_info c prf (codes "wsp-ptr"))) (omega arith)),
      size,
      c.hkdf_bytes prf (replicate 32 0) info,
    )

-- The three shares of a key that is long enough.
pub split_vault_key-long :
    (c : Crypto) (seed key : Bytes)
    → 16 ≤ length key
    → (s : ShareSet) × (split_vault_key c seed key ≡ ok s)
      × (c.split seed key 3 2 ≡ s.s_id ∷ s.s_dev ∷ s.s_rec ∷ [])
unfolding split_vault_key
split_vault_key-long c seed key h =
    let long : ltb (length key) 16 ≡ false = ground arith in
    let (s, e, parts) = three (c.split seed key 3 2) (c.length-split seed key) in
    (s, rw (long, e) refl, parts)
  where
    three :
        (xs : List Bytes)
        → length xs ≡ 3
        → (s : ShareSet) × (share_set xs ≡ ok s) × (xs ≡ s.s_id ∷ s.s_dev ∷ s.s_rec ∷ [])
    three [] e = cc
    three (a ∷ []) e = absurd (omega (arith, e))
    three (a ∷ b ∷ []) e = absurd (omega (arith, e))
    three (a ∷ b ∷ d ∷ []) e = (record { s_id = a; s_dev = b; s_rec = d }, refl, refl)
    three (a ∷ b ∷ d ∷ x ∷ xs) e = absurd (omega (arith, e))
