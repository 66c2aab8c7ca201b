-- ===== src/Backends/Pwa/Vault.antt =====
-- A vault blob, as the worker serializes it, and what importBlob is to extract from it.
use widespread_logos.Prelude.{
  ℕ, Option, none, some, List, [], ◌∷◌, ◌++◌, map, Text, codes, All, Result, ok, ◌≡◌, refl, ap, sym,
  ◌∙◌,
}
use mathlib.Core.List.{append-nil, append_assoc}
use widespread_logos.Prelude.{text_eq_ne, ◌≢◌}
use widespread_logos.Prelude.Errors.{◌>>=◌}
use widespread_logos.Platform.{to_radix, pad_start}
use widespread_logos.Platform.Json.{
  Value, nil, item, undefined, null, num, str, arr, obj, Fields, empty, array, object, find,
  set_field, get, get?, or_else, truthy,
}
use widespread_logos.Platform.Json.Entries.{find-set_field, find-set_other}
use widespread_logos.Pda.{bare_id}
use widespread_logos.Backends.Module.{Json}
use widespread_logos.Backends.Pwa.Blob.{
  Extracted, extract, extract_from, iterated, variant_of, viewing_of, hex_keys, hex_value_text,
  hex_elements, hex_element, first_of, add_variant, add_account, add_keys, account_value, push,
  label_of, view_record,
}
use widespread_logos.Backends.Pwa.Surface.{keys_of}

-- The four kinds of account in the key chain.
pub data Variant : Type 0 where
  public private imported_public imported_private : Variant

abbrev pub variant_name : Variant → Text
variant_name public = codes "Public"
variant_name private = codes "Private"
variant_name imported_public = codes "ImportedPublic"
variant_name imported_private = codes "ImportedPrivate"

-- The keys of an account, as bytes.
pub record ViewKeys : Type 0 where
  pub d : List ℕ
  pub z : List ℕ
  pub npk : List ℕ
  pub vpk : List ℕ

pub record Held : Type 0 where
  pub variant : Variant
  pub id : Text
  pub keys : Option ViewKeys

abbrev pub byte_array : List ℕ → Value
byte_array bytes = arr (array (map (λ n. num n) bytes))

abbrev pub key_data : ViewKeys → Value
key_data k = object (
    (
      codes "private_key_holder",
      object (
          (
            codes "viewing_secret_key",
            object ((codes "d", byte_array k.d) ∷ (codes "z", byte_array k.z) ∷ []),
          )
          ∷ []),
    )
    ∷ (codes "nullifier_public_key", byte_array k.npk)
    ∷ (codes "viewing_public_key", byte_array k.vpk)
    ∷ [])

abbrev pub account_fields : Text → Option ViewKeys → Value
account_fields id none = object ((codes "account_id", str id) ∷ [])
account_fields id (some k) = object (
    (codes "account_id", str id)
    ∷ (codes "data", object ((codes "value", arr (item (key_data k) nil)) ∷ []))
    ∷ [])

abbrev pub held_value : Held → Value
held_value a = object ((variant_name a.variant, account_fields a.id a.keys) ∷ [])

abbrev pub vault_value : Value → List Held → Value
vault_value labels held = object (
    (codes "key_chain", object ((codes "accounts", arr (array (map held_value held))) ∷ []))
    ∷ (codes "labels", labels)
    ∷ [])

-- The bytes in hex, two digits each.
abbrev pub hex_bytes : List ℕ → Text
hex_bytes [] = []
hex_bytes (n ∷ bytes) = pad_start 2 (to_radix 16 n) ++ hex_bytes bytes

abbrev pub keys_value : ViewKeys → Value
keys_value k = object (
    (codes "dHex", str (hex_bytes k.d))
    ∷ (codes "zHex", str (hex_bytes k.z))
    ∷ (codes "npkHex", str (hex_bytes k.npk))
    ∷ (codes "vpkHex", str (hex_bytes k.vpk))
    ∷ [])

abbrev keys_or_null : Option ViewKeys → Value
keys_or_null none = null
keys_or_null (some k) = keys_value k

abbrev pub held_keys : Held → Value
held_keys a = keys_or_null a.keys

abbrev pub AreDistinct : List Held → Type 0
AreDistinct [] = Unit {0}
AreDistinct (a ∷ held) = All (λ b. b.id ≢ a.id) held × AreDistinct held

put_keys : Text → Option ViewKeys → Fields → Fields
put_keys id none fs = fs
put_keys id (some k) fs = set_field id (keys_value k) fs

pub held_fields : List Held → Fields → Fields
held_fields [] fs = fs
held_fields (a ∷ held) fs = held_fields held (put_keys a.id a.keys fs)

push-array : (w : Value) (vs : List Value) → push w (array vs) ≡ array (vs ++ w ∷ [])
unfolding push
push-array w [] = refl
push-array w (v ∷ vs) = ap (item v) (push-array w vs)

hex_elements-bytes :
    (bytes : List ℕ) → hex_elements (array (map (λ n. num n) bytes)) ≡ ok (hex_bytes bytes)
unfolding hex_elements hex_element
hex_elements-bytes [] = refl
hex_elements-bytes (n ∷ bytes) = rw (hex_elements-bytes bytes) refl

hex_keys-bytes :
    (k : ViewKeys)
    → hex_keys (byte_array k.d) (byte_array k.z) (byte_array k.npk) (byte_array k.vpk)
      ≡ ok (some (keys_value k))
unfolding hex_keys hex_value_text view_record
hex_keys-bytes k =
    rw
      (
        hex_elements-bytes k.d,
        hex_elements-bytes k.z,
        hex_elements-bytes k.npk,
        hex_elements-bytes k.vpk,
      )
      refl

some_keys : Option ViewKeys → Option Value
some_keys none = none
some_keys (some k) = some (keys_value k)

viewing_of-held :
    (id : Text) (k : Option ViewKeys) → viewing_of (account_fields id k) ≡ ok (some_keys k)
unfolding viewing_of get? find first_of truthy some_keys
viewing_of-held id none = refl
viewing_of-held id (some k) = hex_keys-bytes k

variant_of-held : (a : Held) → variant_of (held_value a) ≡ ok (account_fields a.id a.keys)
unfolding variant_of get get? find or_else
variant_of-held a = from a.variant a.keys
  where
    from :
        (v : Variant) (k : Option ViewKeys)
        → variant_of (object ((variant_name v, account_fields a.id k) ∷ []))
          ≡ ok (account_fields a.id k)
    from public none = refl
    from public (some k) = refl
    from private none = refl
    from private (some k) = refl
    from imported_public none = refl
    from imported_public (some k) = refl
    from imported_private none = refl
    from imported_private (some k) = refl

abbrev pub held_extracted : Json → Value → List Held → Extracted
held_extracted json labels held = record {
  accounts = array (map (λ a. account_value (label_of json labels a.id) a.id) held);
  view_keys = held_fields held empty;
}

module _ (json : Json) (labels : Value) where
  listed : Held → Value
  listed a = account_value (label_of json labels a.id) a.id

  add_keys-some :
      (id : Text) (k : Option ViewKeys) (fs : Fields)
      → add_keys id (some_keys k) fs ≡ put_keys id k fs
  unfolding add_keys some_keys put_keys
  add_keys-some id none fs = refl
  add_keys-some id (some k) fs = refl

  add_account-held :
      (id : Text) (k : Option ViewKeys) (seen : List Value) (fs : Fields)
      → add_account json labels id
          (account_fields id k)
          (record { accounts = array seen; view_keys = fs })
        ≡ ok (record {
          accounts = array (seen ++ account_value (label_of json labels id) id ∷ []);
          view_keys = put_keys id k fs;
        })
  unfolding add_account
  add_account-held id k seen fs =
      ap
        (λ (r : Result (Option Value)). r >>= λ keys. ok (record {
          accounts = push (account_value (label_of json labels id) id) (array seen);
          view_keys = add_keys id keys fs;
        }))
        (viewing_of-held id k)
      ∙ rw (push-array, add_keys-some id k fs) refl

  add_variant-held :
      (id : Text) (k : Option ViewKeys) (seen : List Value) (fs : Fields)
      → add_variant json labels
          (get? (codes "account_id") (account_fields id k))
          (account_fields id k)
          (record { accounts = array seen; view_keys = fs })
        ≡ ok (record {
          accounts = array (seen ++ account_value (label_of json labels id) id ∷ []);
          view_keys = put_keys id k fs;
        })
  unfolding add_variant get? find
  add_variant-held id none seen fs = add_account-held id none seen fs
  add_variant-held id (some k) seen fs = add_account-held id (some k) seen fs

  extract_from-held :
      (held : List Held) (seen : List Value) (fs : Fields)
      → extract_from json labels
          (array (map held_value held))
          (record { accounts = array seen; view_keys = fs })
        ≡ ok
            (record { accounts = array (seen ++ map listed held); view_keys = held_fields held fs })
  unfolding extract_from listed held_fields
  extract_from-held [] seen fs = rw (append-nil seen) refl
  extract_from-held (a ∷ held) seen fs =
      let start = let x : Extracted = record { accounts = array seen; view_keys = fs } in x in
      ap
        (λ (r : Result Value). r >>= λ variant.
          add_variant json labels (get? (codes "account_id") variant) variant start >>= λ y.
          extract_from json labels (array (map held_value held)) y)
        (variant_of-held a)
      ∙ ap
          (λ (r : Result Extracted).
            r >>= λ y. extract_from json labels (array (map held_value held)) y)
          (add_variant-held a.id a.keys seen fs)
      ∙ extract_from-held held (seen ++ listed a ∷ []) (put_keys a.id a.keys fs)
      ∙ ap
          (λ vs. ok (record {
            accounts = array vs;
            view_keys = held_fields held (put_keys a.id a.keys fs);
          }))
          (append_assoc seen (listed a ∷ []) (map listed held))

  -- importBlob extracts the accounts of a vault, in their order, and their keys.
  pub extract-vault_value :
      (held : List Held)
      → extract json (vault_value labels held) ≡ ok (held_extracted json labels held)
  unfolding extract iterated get get? find or_else listed
  extract-vault_value held = extract_from-held held [] empty

-- The keys of an account whose id no other account has.
held_fields-other :
    (id : Text) (held : List Held) (fs : Fields)
    → All (λ b. b.id ≢ id) held
    → find id (held_fields held fs) ≡ find id fs
unfolding held_fields put_keys
held_fields-other id [] fs apart = refl
held_fields-other id (b ∷ held) fs (p, apart) =
    held_fields-other id held (put_keys b.id b.keys fs) apart ∙ one b.keys
  where
    one : (k : Option ViewKeys) → find id (put_keys b.id k fs) ≡ find id fs
    one none = refl
    one (some k) = find-set_other b.id id (keys_value k) fs (text_eq_ne b.id id p)

-- What is found under the id of an account.
found_keys : Option ViewKeys → Value
found_keys none = undefined
found_keys (some k) = keys_value k

keys_of-found :
    (id : Text) (k : Option ViewKeys) (fs : Fields)
    → bare_id id ≡ id
    → find id fs ≡ found_keys k
    → keys_of id (obj fs) ≡ keys_or_null k
unfolding keys_of or_else get? found_keys
keys_of-found id none fs bare found = rw (bare, found) refl
keys_of-found id (some k) fs bare found = rw (bare, found) refl

held-from :
    (held : List Held) (fs : Fields)
    → AreDistinct held
    → All (λ a. bare_id a.id ≡ a.id) held
    → All (λ a. find a.id fs ≡ undefined) held
    → All (λ a. keys_of a.id (obj (held_fields held fs)) ≡ held_keys a) held
unfolding held_fields put_keys found_keys
held-from [] fs distinct bare absent = tt
held-from (a ∷ held) fs (apart, distinct) (p, bare) (q, absent) = (
  keys_of-found a.id a.keys _ p (held_fields-other a.id held _ apart ∙ put a.keys),
  held-from held (put_keys a.id a.keys fs) distinct bare (still held apart absent),
)
  where
    put : (k : Option ViewKeys) → find a.id (put_keys a.id k fs) ≡ found_keys k
    put none = q
    put (some k) = find-set_field a.id (keys_value k) fs

    one :
        (k : Option ViewKeys) (b : Held)
        → b.id ≢ a.id
        → find b.id (put_keys a.id k fs) ≡ find b.id fs
    one none b h = refl
    one (some k) b h =
        find-set_other a.id b.id (keys_value k) fs (text_eq_ne a.id b.id (λ e. h (sym e)))

    still :
        (rest : List Held)
        → All (λ b. b.id ≢ a.id) rest
        → All (λ b. find b.id fs ≡ undefined) rest
        → All (λ b. find b.id (put_keys a.id a.keys fs) ≡ undefined) rest
    still [] hs ks = tt
    still (b ∷ rest) (h, hs) (k, ks) = (one a.keys b h ∙ k, still rest hs ks)

pub held-keys_of :
    (held : List Held)
    → AreDistinct held
    → All (λ a. bare_id a.id ≡ a.id) held
    → All (λ a. keys_of a.id (obj (held_fields held empty)) ≡ held_keys a) held
unfolding find
held-keys_of held distinct bare = held-from held empty distinct bare (all_absent held)
  where
    all_absent : (rest : List Held) → All (λ b. find b.id empty ≡ undefined) rest
    all_absent [] = tt
    all_absent (b ∷ rest) = (refl, all_absent rest)
