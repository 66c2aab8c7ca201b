-- ===== src/Pda.antt =====
-- packages/wallet-ui/src/pda.ts: account ids and program-derived addresses. SHA-256 is an argument.
pub mod Base58
use widespread_logos.Prelude.{
  ℕ, zero, suc, ◌+◌, ◌-◌, ◌%◌, ◌≡◌, Bool, true, false, ◌&&◌, ◌||◌, not, Option, none, some, List,
  [], ◌∷◌, ◌++◌, Text, Bytes, codes, text_eq, length, take, drop, replicate, All, Result, ok, err,
  message, range_error, ltb, leb, ◌==◌, if◌then◌else◌,
}
use widespread_logos.Prelude.Errors.{◌>>=◌}
use widespread_logos.Utf8.{utf8_encode}
use widespread_logos.Utf8.RoundTrip.{IsByte}
use widespread_logos.Platform.{hex_value, parse_hex}
use widespread_logos.Pda.Base58.{base58_encode, base58_decode}

-- `out.set(src, offset)` on a Uint8Array.
unfoldable pub set_bytes : Bytes → ℕ → Bytes → Result Bytes
set_bytes src offset out =
    if leb (offset + length src) (length out)
    then ok (take offset out ++ (src ++ drop (offset + length src) out))
    else err range_error

unfoldable pub pda_prefix : Bytes
unfolding utf8_encode
pda_prefix = utf8_encode (codes "/LEE/v0.2/AccountId/PDA/") ++ replicate 8 0

seed_too_long : Text → Text
seed_too_long s = codes "seed '" ++ (s ++ codes "' exceeds 32 bytes")

-- `seedFromStr`
unfoldable pub seed_from_str : Text → Result Bytes
unfolding seed_too_long
seed_from_str s =
    let src = utf8_encode s in
    if ltb 32 (length src)
    then err (message (seed_too_long s))
    else ok (src ++ replicate (32 - length src) 0)

unfoldable pub is_hex : Text → Bool
unfolding hex_value
is_hex [] = true
is_hex (u ∷ s) = elim (hex_value u) [ none ↦ false | some _ ↦ is_hex s ]

-- `for (…) out[i] = parseInt(h.slice(i * 2, i * 2 + 2), 16)`
unfoldable pub hex_pairs : Text → Bytes
unfolding parse_hex
hex_pairs [] = []
hex_pairs (u ∷ []) = []
hex_pairs (u ∷ v ∷ s) = parse_hex (u ∷ v ∷ []) ∷ hex_pairs s

unfoldable pub strip_0x : Text → Text
strip_0x [] = []
strip_0x (a ∷ []) = a ∷ []
strip_0x (a ∷ b ∷ s) = if a == b'0' && b == b'x' then s else a ∷ b ∷ s

unfoldable pub hex_to_bytes : Text → Result Bytes
unfolding strip_0x is_hex hex_pairs
hex_to_bytes hex =
    let h = strip_0x hex in
    if not (length h % 2 == 0) || not (is_hex h)
    then err (message (codes "bad hex"))
    else ok (hex_pairs h)

starts_with : Text → Text → Bool
starts_with [] s = true
starts_with (p ∷ ps) [] = false
starts_with (p ∷ ps) (u ∷ s) = u == p && starts_with ps s

-- `id.replace(/^(Public|Private)\//, '')`
unfoldable pub bare_id : Text → Text
unfolding starts_with
bare_id id =
    if starts_with (codes "Public/") id
    then drop 7 id
    else if starts_with (codes "Private/") id
    then drop 8 id
    else id

-- `/^[0-9a-fA-F]{64}$/`
unfoldable pub is_hex64 : Text → Bool
unfolding is_hex
is_hex64 s = length s == 64 && is_hex s

unfoldable pub check_32 : Bytes → Result Bytes
check_32 b =
    if length b == 32 then ok b else err (message (codes "account id must decode to 32 bytes"))

unfoldable pub account_id_bytes : Text → Result Bytes
unfolding bare_id is_hex64 hex_to_bytes base58_decode check_32
account_id_bytes id =
    let bare = bare_id id in
    if is_hex64 bare then hex_to_bytes bare else base58_decode bare >>= check_32

-- `seeds.map(seedFromStr)`
unfoldable pub seeds_from_strs : List Text → Result (List Bytes)
unfolding seed_from_str
seeds_from_strs [] = ok []
seeds_from_strs (s ∷ ss) = seed_from_str s >>= λ b. seeds_from_strs ss >>= λ bs. ok (b ∷ bs)

unfoldable pub flat : List Bytes → Bytes
flat [] = []
flat (b ∷ bs) = b ++ flat bs

-- The digest that the browser computes: 32 bytes for any input.
pub record Sha256 : Type 0 where
  pub digest : Bytes → Bytes
  pub length_digest : (b : Bytes) → length (digest b) ≡ 32
  pub digest_bytes : (b : Bytes) → All IsByte (digest b)

-- One seed stands for itself; several are hashed together.
unfoldable pub combined : Sha256 → List Bytes → Bytes
unfolding flat
combined sha [] = sha.digest []
combined sha (s ∷ []) = s
combined sha (s ∷ t ∷ ss) = sha.digest (flat (s ∷ t ∷ ss))

unfoldable pub pda_input : Bytes → Bytes → Result Bytes
unfolding set_bytes
pda_input program seed = set_bytes pda_prefix 0 (replicate 96 0) >>= λ a.
    set_bytes program 32 a >>= λ b. set_bytes seed 64 b

unfoldable pub pda_of : Sha256 → Bytes → List Bytes → Result Text
pda_of sha program seeds =
    pda_input program (combined sha seeds) >>= λ input. ok (base58_encode (sha.digest input))

unfoldable pub compute_public_pda : Sha256 → Text → List Text → Result Text
compute_public_pda sha program_id [] =
    account_id_bytes program_id >>= λ _. err (message (codes "PDA requires at least one seed"))
compute_public_pda sha program_id (s ∷ ss) = account_id_bytes program_id >>= λ program.
    seeds_from_strs (s ∷ ss) >>= λ seeds. pda_of sha program seeds
