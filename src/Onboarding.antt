-- ===== src/Onboarding.antt =====
-- packages/wallet-ui/src/onboarding.ts: the on-chain pointer of a wallet. The backend's read of an
-- account is an argument: the base64 of its data, none for an account that is not there or a read that
-- failed.
pub mod Pointer
pub mod Flows
use widespread_logos.Prelude.{
  ℕ, ◌+◌, ◌-◌, Option, none, some, List, [], ◌∷◌, ◌++◌, Text, Bytes, codes, ℤ, pos, negsuc, ◌+ℤ◌,
  to_int32, length, take, drop, Bool, true, false, ltb, Result, ok, err, if◌then◌else◌,
}
use widespread_logos.Prelude.Errors.{◌>>=◌}
use widespread_logos.Utf8.{utf8_encode, utf8_decode}
use widespread_logos.Platform.Base64.{atob}
use widespread_logos.Risc0.{word_le, words_to_hex}
use widespread_logos.Approval.Gate.{Account}
use widespread_logos.Pda.{Sha256, compute_public_pda}

-- A 32-character prefix, so that it fits a seed.
unfoldable pub pointer_key : Text → Text
pointer_key ptr = take 32 ptr

-- `data.length < 36 + len`, where `len` may be negative.
unfoldable pub too_short : ℕ → ℤ → Bool
too_short size (pos len) = ltb size (36 + len)
too_short size (negsuc len) = ltb (size + len) 35

-- `data.slice(36, 36 + len)` of data that is long enough: a negative end counts from the end of the
-- data, and an end at or before 36 leaves nothing.
unfoldable pub value_slice : Bytes → ℤ → Bytes
value_slice bytes (pos len) = take len (drop 36 bytes)
value_slice bytes (negsuc len) =
    if ltb len 36 then [] else take (length bytes + 35 - len - 36) (drop 36 bytes)

unfoldable pub length_field : Bytes → ℤ
unfolding word_le
length_field [] = pos 0
length_field (a ∷ []) = to_int32 (word_le a 0 0 0)
length_field (a ∷ b ∷ []) = to_int32 (word_le a b 0 0)
length_field (a ∷ b ∷ c ∷ []) = to_int32 (word_le a b c 0)
length_field (a ∷ b ∷ c ∷ d ∷ rest) = to_int32 (word_le a b c d)

-- The value of a PointerRecord: the publisher's 32 bytes, then a borsh string.
unfoldable pub record_value : Bytes → Option Text
record_value bytes =
    if ltb (length bytes) 36
    then none
    else let len = length_field (drop 32 bytes) in
      if too_short (length bytes) len then none else some (utf8_decode (value_slice bytes len))

-- `backend.accountRead`, when the backend has it.
abbrev pub AccountRead : Type 0
AccountRead = Text → Option Text

unfoldable pub account_value : Option Text → Result (Option Text)
account_value none = ok none
account_value (some []) = ok none
account_value (some (u ∷ s)) = atob (u ∷ s) >>= λ bytes. ok (record_value bytes)

unfoldable pub pointer_seeds : Text → List Text
pointer_seeds ptr = codes "ptr" ∷ pointer_key ptr ∷ []

unfoldable pub resolve_pointer : Sha256 → Option AccountRead → Text → Text → Result (Option Text)
resolve_pointer sha none program ptr = ok none
resolve_pointer sha (some account_read) program ptr =
    compute_public_pda sha program (pointer_seeds ptr) >>= λ pda.
    account_value (account_read (codes "Public/" ++ pda))

-- `for (let i = 0; i < b.length; i += 4) words.push(…)`
unfoldable pub chunk_words : Bytes → List ℕ
unfolding word_le
chunk_words [] = []
chunk_words (a ∷ []) = word_le a 0 0 0 ∷ []
chunk_words (a ∷ b ∷ []) = word_le a b 0 0 ∷ []
chunk_words (a ∷ b ∷ c ∷ []) = word_le a b c 0 ∷ []
chunk_words (a ∷ b ∷ c ∷ d ∷ rest) = word_le a b c d ∷ chunk_words rest

unfoldable pub text_words : Text → List ℕ
text_words s = length (utf8_encode s) ∷ chunk_words (utf8_encode s)

unfoldable pub publish_data_hex : Text → Text → Text
publish_data_hex key value = words_to_hex (0 ∷ (text_words key ++ text_words value))

pub record PointerCall : Type 0 where
  pub program : Text
  pub instruction_data_hex : Text
  pub accounts : List Account

unfoldable pub publish_pointer : Sha256 → Text → Text → Text → Text → Result PointerCall
publish_pointer sha program publisher ptr value =
    compute_public_pda sha program (pointer_seeds ptr) >>= λ pda. ok (record {
      program = program;
      instruction_data_hex = publish_data_hex (pointer_key ptr) value;
      accounts =
          record { account = codes "Public/" ++ pda; program_account_id = program }
          ∷ record { account = publisher; program_account_id = program }
          ∷ [];
    })
