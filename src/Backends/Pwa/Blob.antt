-- ===== src/Backends/Pwa/Blob.antt =====
-- PwaBackend: what it keeps in IndexedDB (the watched accounts, the viewing keys and the blob), and
-- importBlob, which reads them from a vault blob. IndexedDB, the JSON reader and printer and the clock
-- are parameters.
use widespread_logos.Prelude.{
  ℕ, ◌+◌, Bool, true, false, ◌&&◌, ◌||◌, Option, none, some, [], ◌∷◌, ◌++◌, take, Text, codes,
  text_eq, type_error, Result, ok, err, if◌then◌else◌,
}
use widespread_logos.Prelude.Errors.{◌>>=◌}
use widespread_logos.Platform.{decimal, to_radix, pad_start}
use widespread_logos.Platform.Base64.{atob}
use widespread_logos.Platform.Json.{
  Value, set_field, undefined, null, bool, num, str, arr, obj, Values, nil, item, Fields, empty,
  field, object, get, get?, or_else, truthy, to_text,
}
use widespread_logos.Utf8.{utf8_decode}
use widespread_logos.Backends.Module.{Json}

-- `idbGet` and `idbSet`: a missing key reads as undefined; a promise that is rejected is `err`.
pub record Idb (Host : Type 0) : Type 0 where
  pub get_item : Text → Host → Result Value
  pub set_item : Text → Value → Host → Result (Unit {0}) × Host
  pub clock : Host → ℕ

-- `v?.[0]`
unfoldable pub first_of : Value → Value
first_of (arr (item v vs)) = v
first_of (arr nil) = undefined
first_of (str []) = undefined
first_of (str (u ∷ s)) = str (u ∷ [])
first_of undefined = undefined
first_of null = undefined
first_of (bool _) = undefined
first_of (num _) = undefined
first_of (obj _) = undefined

-- `b.toString(16).padStart(2, '0')`
unfoldable pub hex_element : Value → Result Text
unfolding to_radix pad_start to_text
hex_element undefined = err type_error
hex_element null = err type_error
hex_element (bool b) = ok (pad_start 2 (to_text (bool b)))
hex_element (num n) = ok (pad_start 2 (to_radix 16 n))
hex_element (str s) = ok (pad_start 2 s)
hex_element (arr vs) = ok (pad_start 2 (to_text (arr vs)))
hex_element (obj fs) = ok (pad_start 2 (to_text (obj fs)))

unfoldable pub hex_elements : Values → Result Text
hex_elements nil = ok []
hex_elements (item v vs) = hex_element v >>= λ h. hex_elements vs >>= λ rest. ok (h ++ rest)

chars : Text → Values
chars [] = nil
chars (u ∷ s) = item (str (u ∷ [])) (chars s)

-- `hex` of a value of the blob.
unfoldable pub hex_value_text : Value → Result Text
hex_value_text (str s) = ok s
hex_value_text (arr vs) = hex_elements vs
hex_value_text undefined = ok []
hex_value_text null = ok []
hex_value_text (bool _) = ok []
hex_value_text (num _) = ok []
hex_value_text (obj _) = ok []

starts : Text → Text → Bool
starts [] s = true
starts (p ∷ ps) [] = false
starts (p ∷ ps) (u ∷ s) = text_eq (p ∷ []) (u ∷ []) && starts ps s

-- `s.includes(part)`
unfoldable pub contains : Text → Text → Bool
unfolding starts
contains part [] = starts part []
contains part (u ∷ s) = starts part (u ∷ s) || contains part s

-- The elements of an array, with their indices as keys.
unfoldable pub indexed : ℕ → Values → Fields
unfolding decimal
indexed i nil = empty
indexed i (item v vs) = field (decimal i) v (indexed (i + 1) vs)

-- `Object.entries(v ?? {})`
unfoldable pub entries : Value → Fields
unfolding chars indexed
entries (obj fs) = fs
entries (arr vs) = indexed 0 vs
entries (str s) = indexed 0 (chars s)
entries undefined = empty
entries null = empty
entries (bool _) = empty
entries (num _) = empty

module _ (json : Json) where
  -- The key of the first label that mentions the account.
  unfoldable pub label_key : Text → Fields → Option Text
  unfolding contains
  label_key id empty = none
  label_key id (field k v fs) = if contains id (json.stringify v) then some k else label_key id fs

  unfoldable pub label_of : Value → Text → Text
  unfolding label_key entries
  label_of labels id = elim (label_key id (entries labels)) [ none ↦ take 8 id | some k ↦ k ]

-- The account of an entry: its first variant that is there.
unfoldable pub variant_of : Value → Result Value
unfolding get get? or_else
variant_of entry = get (codes "Public") entry >>= λ public. ok (
    or_else public (
      or_else (get? (codes "Private") entry)
        (or_else (get? (codes "ImportedPublic") entry) (get? (codes "ImportedPrivate") entry))))

unfoldable pub view_record : Text → Text → Text → Text → Value
view_record d z npk vpk = object (
    (codes "dHex", str d)
    ∷ (codes "zHex", str z)
    ∷ (codes "npkHex", str npk)
    ∷ (codes "vpkHex", str vpk)
    ∷ [])

unfoldable pub hex_keys : Value → Value → Value → Value → Result (Option Value)
unfolding hex_value_text view_record
hex_keys d z npk vpk = hex_value_text d >>= λ d_hex. hex_value_text z >>= λ z_hex.
    hex_value_text npk >>= λ npk_hex.
    hex_value_text vpk >>= λ vpk_hex. ok (some (view_record d_hex z_hex npk_hex vpk_hex))

-- The viewing keys of an account that has them all.
unfoldable pub viewing_of : Value → Result (Option Value)
unfolding get? truthy first_of hex_keys
viewing_of variant =
    let kc = first_of (get? (codes "value") (get? (codes "data") variant)) in
    let vsk = get? (codes "viewing_secret_key") (get? (codes "private_key_holder") kc) in
    let d = get? (codes "d") vsk in
    let z = get? (codes "z") vsk in
    let npk = get? (codes "nullifier_public_key") kc in
    let vpk = get? (codes "viewing_public_key") kc in
    if truthy d && truthy z && truthy npk && truthy vpk then hex_keys d z npk vpk else ok none

unfoldable pub push : Value → Values → Values
push w nil = item w nil
push w (item v vs) = item v (push w vs)

pub record Extracted : Type 0 where
  pub accounts : Values
  pub view_keys : Fields

unfoldable pub account_value : Text → Text → Value
account_value label id = object ((codes "label", str label) ∷ (codes "accountId", str id) ∷ [])

unfoldable pub add_keys : Text → Option Value → Fields → Fields
unfolding set_field
add_keys id none fs = fs
add_keys id (some keys) fs = set_field id keys fs

module _ (json : Json) (labels : Value) where
  -- The rest of a round of the loop, once the id is known to be a text.
  unfoldable pub add_account : Text → Value → Extracted → Result Extracted
  unfolding label_of viewing_of add_keys push account_value
  add_account id variant x = viewing_of variant >>= λ keys. ok (record {
    accounts = push (account_value (label_of json labels id) id) x.accounts;
    view_keys = add_keys id keys x.view_keys;
  })

  unfoldable pub add_variant : Value → Value → Extracted → Result Extracted
  unfolding add_account
  add_variant (str id) variant x = add_account id variant x
  add_variant undefined variant x = ok x
  add_variant null variant x = ok x
  add_variant (bool _) variant x = ok x
  add_variant (num _) variant x = ok x
  add_variant (arr _) variant x = ok x
  add_variant (obj _) variant x = ok x

  -- The loop over the accounts of the key chain.
  unfoldable pub extract_from : Values → Extracted → Result Extracted
  unfolding variant_of add_variant get?
  extract_from nil x = ok x
  extract_from (item entry vs) x = variant_of entry >>= λ variant.
      add_variant (get? (codes "account_id") variant) variant x >>= λ y. extract_from vs y

-- What `for … of` runs over.
unfoldable pub iterated : Value → Result Values
unfolding chars
iterated (arr vs) = ok vs
iterated (str s) = ok (chars s)
iterated undefined = err type_error
iterated null = err type_error
iterated (bool _) = err type_error
iterated (num _) = err type_error
iterated (obj _) = err type_error

unfoldable pub extract : Json → Value → Result Extracted
unfolding extract_from iterated get get? or_else
extract json parsed = get (codes "key_chain") parsed >>= λ chain.
    iterated (or_else (get? (codes "accounts") chain) (arr nil)) >>= λ accounts.
    extract_from json (get? (codes "labels") parsed) accounts
      (record { accounts = nil; view_keys = empty })

-- The parsed blob.
unfoldable pub read_blob : Json → Text → Result Value
unfolding utf8_decode
read_blob json blob = atob blob >>= λ bytes. json.parse (utf8_decode bytes)
