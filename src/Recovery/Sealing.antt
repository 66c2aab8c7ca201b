-- ===== src/Recovery/Sealing.antt =====
-- kit.ts and blob.ts: the sealed kit, the wrapped share and the sealed vault blob. The arrays that
-- `out.set` fills side by side are the concatenation of their parts.
use widespread_logos.Prelude.{
  ℕ, ◌+◌, ◌≡◌, refl, sym, ap, ◌∙◌, false, not, ◌||◌, Option, none, some, [], ◌∷◌, ◌++◌, Text, Bytes,
  codes, take, drop, length, Result, ok, err, message, ◌==◌, ltb, leb, text_eq, if◌then◌else◌,
  arith, length-append, take-append, drop-append, All,
}
use mathlib.Core.List.{append_assoc}
use widespread_logos.Prelude.Errors.{◌>>=◌}
use widespread_logos.Utf8.{utf8_encode, utf8_decode}
use widespread_logos.Utf8.RoundTrip.{utf8_decode-utf8_encode, IsByte}
use widespread_logos.Platform.{decimal}
use widespread_logos.Platform.Base64.{btoa, atob, atob-btoa}
use widespread_logos.Recovery.Crypto.{Crypto, Payload, import_key, import_key-32}

pub record KitContents : Type 0 where
  pub s_rec : Text
  pub ptr : Text
  pub wk_id : Text
  pub share_cid : Text
  pub blob_cid : Option Text

unfoldable pub magic : Bytes
unfolding utf8_encode
magic = utf8_encode (codes "WSPK1")

unfoldable pub passphrase_key : Crypto → Text → Bytes → Bytes
passphrase_key c passphrase salt = c.pbkdf2 (utf8_encode passphrase) salt 600000

-- `{ v: 1, ...contents }`
unfoldable pub payload_of : KitContents → Payload
payload_of k = record {
  v = 1;
  s_rec = k.s_rec;
  ptr = k.ptr;
  wk_id = k.wk_id;
  share_cid = some k.share_cid;
  blob_cid = k.blob_cid;
}

unfoldable pub seal_kit : Crypto → KitContents → Text → Bytes → Bytes → Bytes
unfolding magic passphrase_key payload_of
seal_kit c k passphrase salt nonce =
    magic
    ++ (salt
        ++ (nonce
            ++ c.encrypt (passphrase_key c passphrase salt) nonce
                (utf8_encode (c.stringify (payload_of k)))))

-- `s ?? ''` and `s || undefined`
unfoldable pub or_empty : Option Text → Text
or_empty none = []
or_empty (some s) = s

unfoldable pub truthy : Option Text → Option Text
truthy none = none
truthy (some []) = none
truthy (some (u ∷ s)) = some (u ∷ s)

bad_version : ℕ → Text
unfolding decimal
bad_version v = codes "unsupported kit version " ++ decimal v

unfoldable pub contents_of : Payload → Result KitContents
unfolding or_empty truthy bad_version
contents_of p =
    if not (p.v == 1)
    then err (message (bad_version p.v))
    else ok (record {
      s_rec = p.s_rec;
      ptr = p.ptr;
      wk_id = p.wk_id;
      share_cid = or_empty p.share_cid;
      blob_cid = truthy p.blob_cid;
    })

-- `MAGIC.every((b, i) => kitBytes[i] === b)` on bytes that are long enough.
unfoldable pub open_kit : Crypto → Bytes → Text → Result KitContents
unfolding magic passphrase_key contents_of
open_kit c kit passphrase =
    if ltb (length kit) (length magic + 28) || not (text_eq (take (length magic) kit) magic)
    then err (message (codes "not a Widespread recovery kit"))
    else c.decrypt (passphrase_key c passphrase (take 16 (drop (length magic) kit)))
        (take 12 (drop (length magic + 16) kit)) (drop (length magic + 28) kit)
      >>= λ payload. c.parse (utf8_decode payload) >>= λ p. contents_of p

unfoldable pub wrap_share : Crypto → Bytes → Bytes → Bytes → Bytes
wrap_share c s_id wk_id nonce = nonce ++ c.encrypt wk_id nonce s_id

unfoldable pub unwrap_share : Crypto → Bytes → Bytes → Result Bytes
unwrap_share c wrapped wk_id = c.decrypt wk_id (take 12 wrapped) (drop 12 wrapped)

unfoldable pub seal_blob : Crypto → Text → Bytes → Bytes → Result Bytes
seal_blob c blob vault_key iv =
    import_key vault_key >>= λ key. atob blob >>= λ text. ok (iv ++ c.encrypt key iv text)

unfoldable pub open_blob : Crypto → Bytes → Bytes → Result Text
open_blob c sealed vault_key =
    if leb (length sealed) 12
    then err (message (codes "sealed blob too short"))
    else import_key vault_key >>= λ key.
        c.decrypt key (take 12 sealed) (drop 12 sealed) >>= λ text. ok (btoa text)

-- Three runs side by side are cut where they end.
module _ (a b rest : Bytes) where
  cut_front : take (length a) (a ++ (b ++ rest)) ≡ a
  cut_front = take-append a _ _ refl

  cut_middle : (n k : ℕ) → n ≡ length a → k ≡ length b → take k (drop n (a ++ (b ++ rest))) ≡ b
  cut_middle n k e f = rw (drop-append a (b ++ rest) n e) (take-append b rest k f)

  cut_end : (n : ℕ) → n ≡ length a + length b → drop n (a ++ (b ++ rest)) ≡ rest
  cut_end n e =
      ap (drop n) (sym (append_assoc a b rest))
      ∙ drop-append (a ++ b) rest n (e ∙ sym (length-append a b))

-- A kit that was sealed with a salt of 16 bytes and a nonce of 12 opens under its passphrase to its
-- contents; an empty CID of the blob comes back as none.
pub open_kit-seal_kit :
    (c : Crypto) (k : KitContents) (passphrase : Text) (salt nonce : Bytes)
    → length salt ≡ 16
    → length nonce ≡ 12
    → open_kit c (seal_kit c k passphrase salt nonce) passphrase
      ≡ ok (record {
        s_rec = k.s_rec;
        ptr = k.ptr;
        wk_id = k.wk_id;
        share_cid = k.share_cid;
        blob_cid = truthy k.blob_cid;
      })
unfolding open_kit seal_kit
open_kit-seal_kit c k passphrase salt nonce hs hn =
    let key = passphrase_key c passphrase salt in
    let text = utf8_encode (c.stringify (payload_of k)) in
    let sealed = c.encrypt key nonce text in
    let size : ltb (length (seal_kit c k passphrase salt nonce)) (length magic + 28) ≡ false =
      ground (arith, length-append salt (nonce ++ sealed), length-append nonce sealed) in
    let read : utf8_decode text ≡ c.stringify (payload_of k) =
      utf8_decode-utf8_encode _ (c.IsPlain-stringify (payload_of k)) in
    rw
      (
        size,
        take-append salt (nonce ++ sealed) 16 (sym hs),
        cut_middle salt nonce sealed 16 12 (sym hs) (sym hn),
        cut_end salt nonce sealed 28 (omega arith),
        c.decrypt-encrypt key nonce text,
        read,
        c.parse-stringify (payload_of k) (omega arith),
      )
      refl

-- A wrapped share is unwrapped by the key that wrapped it.
pub unwrap_share-wrap_share :
    (c : Crypto) (s_id wk_id nonce : Bytes)
    → length nonce ≡ 12
    → unwrap_share c (wrap_share c s_id wk_id nonce) wk_id ≡ ok s_id
unfolding unwrap_share wrap_share
unwrap_share-wrap_share c s_id wk_id nonce h =
    rw
      (
        unwrap_share,
        take-append nonce (c.encrypt wk_id nonce s_id) 12 (sym h),
        drop-append nonce (c.encrypt wk_id nonce s_id) 12 (sym h),
      )
      (c.decrypt-encrypt wk_id nonce s_id)

-- A blob under a vault key of 32 bytes is sealed, and what was sealed opens to it.
module _ (c : Crypto) (text vault_key iv : Bytes) (hk : length vault_key ≡ 32) where
  pub seal_blob-btoa :
      All IsByte text
      → seal_blob c (btoa text) vault_key iv ≡ ok (iv ++ c.encrypt vault_key iv text)
  unfolding seal_blob
  seal_blob-btoa hb = rw (import_key-32 vault_key hk, atob-btoa text hb) refl

  pub open_blob-encrypt :
      length iv ≡ 12 → open_blob c (iv ++ c.encrypt vault_key iv text) vault_key ≡ ok (btoa text)
  unfolding open_blob
  open_blob-encrypt hi =
      let size : leb (length (iv ++ c.encrypt vault_key iv text)) 12 ≡ false = ground (
        arith,
        length-append iv (c.encrypt vault_key iv text),
        c.length-encrypt vault_key iv text,
      ) in
      rw
        (
          size,
          take-append iv (c.encrypt vault_key iv text) 12 (sym hi),
          drop-append iv (c.encrypt vault_key iv text) 12 (sym hi),
          import_key-32 vault_key hk,
          c.decrypt-encrypt vault_key iv text,
        )
        refl

-- A blob that is sealed under a vault key of 32 bytes opens to itself, byte for byte.
pub open_blob-seal_blob :
    (c : Crypto) (text vault_key iv : Bytes)
    → All IsByte text
    → length vault_key ≡ 32
    → length iv ≡ 12
    → (seal_blob c (btoa text) vault_key iv >>= λ sealed. open_blob c sealed vault_key)
      ≡ ok (btoa text)
open_blob-seal_blob c text vault_key iv hb hk hi =
    rw (seal_blob-btoa c text vault_key iv hk hb) (open_blob-encrypt c text vault_key iv hk hi)
