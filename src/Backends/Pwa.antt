-- ===== src/Backends/Pwa.antt =====
-- PwaBackend (packages/wallet-ui/src/pwa-backend.ts): its options, the reads of the sequencer and the
-- faucet's state. The sequencer is a function of the URL and the account id.
pub mod Faucet
pub mod Blob
pub mod Surface
pub mod Scan
pub mod Vault
pub mod Kept
pub mod Watched
pub mod Requests
use widespread_logos.Prelude.{
  ℕ, ◌+◌, Bool, true, false, not, ◌||◌, Option, none, some, List, [], ◌∷◌, ◌++◌, map, Text, Bytes,
  codes, text_eq, ltb, ◌==◌, length, if◌then◌else◌, ℤ, pos, Error, message, Result, ok, err,
}
use widespread_logos.Prelude.Errors.{◌>>=◌}
use widespread_logos.Platform.{decimal, hex_byte}
use widespread_logos.Platform.Base64.{btoa}
use widespread_logos.Platform.BigNumber.{big_int, big_text, big_div, big_less}
use widespread_logos.Registry.Client.{pair_bytes, or_else}

pub record PwaBackendOptions : Type 0 where
  pub sequencer_url : Option Text
  pub zone : Option Text
  pub registry_program : Option Text
  pub wasm_url : Option Text

-- `new UnsupportedSurfaceError(op)`
unfoldable pub unsupported : Text → Error
unsupported op = message (
    op
    ++ codes
        " requires a signing surface — open the wallet in the browser extension, Logos Basecamp, or the desktop app to send transactions.")

-- `ZONE_SEQUENCERS[zone]`
unfoldable pub zone_sequencers : Text → Option Text
zone_sequencers zone_name =
    if text_eq zone_name (codes "lez") || text_eq zone_name (codes "lez-testnet")
    then some (codes "https://testnet.lez.logos.co")
    else none

unfoldable pub pinata_account : Text
pinata_account = codes "EfQhKQAkX2FJiwNii2WFQsGndjvF1Mzd7RuVe7QdPLw7"

abbrev pub pinata_prize : ℕ
pinata_prize = 150

abbrev pub max_supported_difficulty : ℕ
max_supported_difficulty = 3

-- A field that holds an array of bytes or a text.
pub data NumbersOrText : Type 0 where
  numbers : Bytes → NumbersOrText
  text : Text → NumbersOrText

-- A field that holds a number or a text.
pub data NumberOrText : Type 0 where
  number : ℕ → NumberOrText
  text : Text → NumberOrText

pub record FlatAccount : Type 0 where
  pub program_owner : Option NumbersOrText
  pub balance : Option NumberOrText
  pub data_of : Option NumbersOrText
  pub nonce : Option ℕ

-- The body of an answer of the sequencer.
pub record RpcBody : Type 0 where
  pub result : Option FlatAccount
  pub error : Option Text

-- The request that is posted, and the body of the answer.
abbrev pub Sequencer : Type 0
Sequencer = Text → Text → Text → Result RpcBody

pub record PwaBackend : Type 0 where
  pub sequencer : Text
  pub registry_program : Option Text
  pub wasm_url : Option Text

unfoldable pub no_zone : Option Text → Text
no_zone none = codes "undefined"
no_zone (some z) = z

-- The sequencer of the options: the URL that is given, or the zone's.
unfoldable pub sequencer_of : Option Text → Option Text → Result Text
unfolding zone_sequencers no_zone or_else
sequencer_of (some url) zone_name = ok url
sequencer_of none zone_name = elim (zone_sequencers (or_else zone_name (codes "lez"))) [
  | some url ↦ ok url
  | none ↦ err (
      message (
        codes "unknown zone '" ++ (no_zone zone_name ++ codes "' — pass an explicit sequencerUrl")))
]

-- The constructor.
unfoldable pub new_backend : PwaBackendOptions → Result PwaBackend
unfolding sequencer_of
new_backend opts = sequencer_of opts.sequencer_url opts.zone >>= λ url.
    ok (record {
      sequencer = url;
      registry_program = opts.registry_program;
      wasm_url = opts.wasm_url;
    })

-- `hex`
unfoldable pub hex : Option NumbersOrText → Text
unfolding hex_byte
hex none = []
hex (some (NumbersOrText.text s)) = s
hex (some (numbers [])) = []
hex (some (numbers (b ∷ bs))) = hex_byte b ++ hex (some (numbers bs))

unfoldable pub hex_numbers : Bytes → Text
unfolding hex_byte
hex_numbers [] = []
hex_numbers (b ∷ bs) = hex_byte b ++ hex_numbers bs

-- `String(balance ?? '0')`
unfoldable pub balance_text : Option NumberOrText → Text
unfolding decimal
balance_text none = codes "0"
balance_text (some (number n)) = decimal n
balance_text (some (NumberOrText.text s)) = s

-- The data of an account, as bytes.
unfoldable pub data_bytes : Option NumbersOrText → Bytes
unfolding pair_bytes
data_bytes none = []
data_bytes (some (numbers bs)) = bs
data_bytes (some (NumbersOrText.text s)) = pair_bytes s

pub record AccountReading : Type 0 where
  pub data_b64 : Text
  pub program_owner : Text
  pub balance : Text
  pub nonce : ℕ

-- An account that does not exist reads as one whose fields are all absent.
unfoldable pub flat : Option FlatAccount → FlatAccount
flat none = record { program_owner = none; balance = none; data_of = none; nonce = none }
flat (some a) = a

module _ (sequencer : Sequencer) (w : PwaBackend) where
  -- `rpc`
  unfoldable pub rpc : Text → Text → Result (Option FlatAccount)
  rpc method account_id = sequencer w.sequencer method account_id >>= λ body. elim (body.error) [
    | some m ↦ err (message (method ++ (codes ": " ++ m)))
    | none ↦ ok body.result
  ]

  unfoldable pub get_account : Text → Result (Option FlatAccount)
  unfolding rpc
  get_account account_id = rpc (codes "getAccount") account_id

  unfoldable pub balance : Text → Result Text
  unfolding get_account flat balance_text
  balance account = get_account account >>= λ a. ok (balance_text (flat a).balance)

  unfoldable pub account_read : Text → Result AccountReading
  unfolding get_account flat balance_text hex data_bytes
  account_read account = get_account account >>= λ a.
      let f = flat a in
      ok (record {
        data_b64 = btoa (data_bytes f.data_of);
        program_owner = hex f.program_owner;
        balance = balance_text f.balance;
        nonce = elim (f.nonce) [ none ↦ 0 | some n ↦ n ];
      })
