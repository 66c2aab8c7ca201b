-- ===== src/Provider.antt =====
-- The provider SDK of a page (sdk/provider/src/index.ts): WidespreadLezProvider over one of its two
-- bridges. A bridge's `call` is an argument here; Extension and Module have the two bridges.
pub mod Extension
pub mod Module
pub mod Events
pub mod Settles
pub mod Once
use widespread_logos.Prelude.{
  ℕ, Bool, true, false, not, ◌&&◌, Option, none, some, List, [], ◌∷◌, map, Text, codes, text_eq,
  ltb, Error, message, Result, ok, err, if◌then◌else◌,
}
use widespread_logos.Prelude.Tasks.{Task, done, settle, ◌>>=◌, ◌>>◌}
use widespread_logos.Platform.Json.{
  Value, undefined, null, bool, num, str, arr, obj, Values, nil, item, object, array, get, get?,
  or_else, to_text,
}
use widespread_logos.Backends.Pwa.Surface.{is_text}
use widespread_logos.Backends.Seam.{AccountPair, account_pair, text_option}

pub record DappInfo : Type 0 where
  pub name : Option Text
  pub url : Option Text
  pub icon : Option Text

pub record ProgramCallSpec : Type 0 where
  pub program : Text
  pub instruction_data_hex : Text
  pub accounts : List AccountPair
  pub payer : Option Text

pub record PrivateDestination : Type 0 where
  pub npk : Value
  pub vpk : Value
  pub identifier : Value

pub record TransferSpec : Type 0 where
  pub from : Text
  pub to : Option Text
  pub to_private : Option PrivateDestination
  pub amount : Text

pub data LezEvent : Type 0 where
  accounts_changed tx_pending tx_confirmed : LezEvent

unfoldable pub event_name : LezEvent → Text
event_name accounts_changed = codes "accountsChanged"
event_name tx_pending = codes "txPending"
event_name tx_confirmed = codes "txConfirmed"

-- The handler that `on` registers: it is called with the data of a message that has the mark of the
-- bridge (`target` or `type`) and the name of the event.
unfoldable pub heard : Text → Text → LezEvent → Value → Option Value
unfolding event_name is_text get?
heard key mark event d =
    if is_text mark (get? key d) && is_text (event_name event) (get? (codes "event") d)
    then some (get? (codes "data") d)
    else none

unfoldable pub extension_heard : LezEvent → Value → Option Value
unfolding heard
extension_heard event d = heard (codes "target") (codes "wsp-lez-event") event d

unfoldable pub module_heard : LezEvent → Value → Option Value
unfolding heard
module_heard event d = heard (codes "type") (codes "wsp-module-event") event d

-- `bridge.call`
abbrev pub BridgeCall : Type 0 → Type 0
BridgeCall Host = Text → Value → Host → Result Value × Host

-- What the page sees of the provider: an event that it dispatches on the window, or a request that it
-- hands to the bridge.
pub data Entry : Type 0 where
  dispatched : LezEvent → Value → Entry
  requested : Text → Value → Entry

-- The provider, what it has dispatched and requested, the latest first, and the wallet.
pub record Session (Host : Type 0) : Type 0 where
  pub connected : Bool
  pub trace : List Entry
  pub host : Host

unfoldable pub destination : Option PrivateDestination → Value
destination none = undefined
destination (some d) =
    object ((codes "npk", d.npk) ∷ (codes "vpk", d.vpk) ∷ (codes "identifier", d.identifier) ∷ [])

-- The specs, as the values that an event carries.
unfoldable pub transfer_value : TransferSpec → Value
unfolding destination
transfer_value t = object (
    (codes "from", str t.from)
    ∷ (codes "to", text_option t.to)
    ∷ (codes "toPrivate", destination t.to_private)
    ∷ (codes "amount", str t.amount)
    ∷ [])

unfoldable pub call_value : ProgramCallSpec → Value
call_value c = object (
    (codes "program", str c.program)
    ∷ (codes "instructionDataHex", str c.instruction_data_hex)
    ∷ (codes "accounts", arr (array (map account_pair c.accounts)))
    ∷ (codes "payer", text_option c.payer)
    ∷ [])

-- `Array.isArray(out) ? out : (out.accounts ?? [])`
unfoldable pub accounts_of : Value → Result Value
unfolding get? or_else
accounts_of (arr vs) = ok (arr vs)
accounts_of undefined = get (codes "accounts") undefined
accounts_of null = get (codes "accounts") null
accounts_of (obj fs) = ok (or_else (get? (codes "accounts") (obj fs)) (arr nil))
accounts_of (bool _) = ok (arr nil)
accounts_of (num _) = ok (arr nil)
accounts_of (str _) = ok (arr nil)

-- `accounts.length > 0`: accounts is an array or a text; no other value has a length here.
unfoldable pub has_length : Value → Bool
has_length (arr nil) = false
has_length (arr (item v vs)) = true
has_length (str s) = not (text_eq s [])
has_length undefined = false
has_length null = false
has_length (bool _) = false
has_length (num _) = false
has_length (obj _) = false

module _ {Host : Type 0} (bridge : BridgeCall Host) where
  unfoldable pub call : Text → Value → Task (Session Host) Value
  call op params s =
      let (answer, host) = bridge op params s.host in
      (answer, record s { trace = requested op params ∷ s.trace; host = host })

  unfoldable pub emit : LezEvent → Value → Task (Session Host) (Unit {0})
  emit event detail s = (ok tt, record s { trace = dispatched event detail ∷ s.trace })

  unfoldable pub set_connected : Bool → Task (Session Host) (Unit {0})
  set_connected b s = (ok tt, record s { connected = b })

  unfoldable pub connect : DappInfo → Option Text → Task (Session Host) Value
  unfolding call accounts_of set_connected has_length
  connect info zone_name = do
    out ← call (codes "lez_requestAccounts") (object ((codes "zone", text_option zone_name) ∷ []))
    accounts ← settle (accounts_of out)
    set_connected (has_length accounts)
    done accounts

  unfoldable pub get_accounts : Task (Session Host) Value
  unfolding call accounts_of
  get_accounts = do out ← call (codes "lez_accounts") (object []); settle (accounts_of out)

  unfoldable pub get_balance : Text → Task (Session Host) Text
  unfolding call to_text
  get_balance account = do
    out ← call (codes "lez_getBalance") (object ((codes "account", str account) ∷ []))
    done (to_text out)

  unfoldable pub confirm_hash : Value → Task (Session Host) (Unit {0})
  unfolding emit
  confirm_hash hash = emit tx_confirmed (object ((codes "hash", hash) ∷ []))

  unfoldable pub transfer_params : TransferSpec → Value
  transfer_params t = object (
      (codes "from", str t.from)
      ∷ (codes "to", text_option t.to)
      ∷ (codes "amount", str t.amount)
      ∷ [])

  unfoldable pub transfer : TransferSpec → Task (Session Host) Value
  unfolding call emit transfer_value transfer_params confirm_hash
  transfer t = do
    emit tx_pending (transfer_value t)
    hash ← call (codes "lez_sendTransaction") (transfer_params t)
    confirm_hash hash
    done hash

  unfoldable pub propose_transaction : ProgramCallSpec → Task (Session Host) Value
  unfolding call emit call_value confirm_hash
  propose_transaction c = do
    emit tx_pending (call_value c)
    hash ← call (codes "lez_programCall") (call_value c)
    confirm_hash hash
    done hash

  unfoldable pub faucet_info : Task (Session Host) Value
  unfolding call
  faucet_info = call (codes "lez_faucetInfo") (object [])

  unfoldable pub faucet_claim : Text → Task (Session Host) Value
  unfolding call emit confirm_hash get
  faucet_claim account = do
    emit tx_pending (object ((codes "faucet", str account) ∷ []))
    out ← call (codes "lez_faucetClaim") (object ((codes "account", str account) ∷ []))
    hash ← settle (get (codes "tx_hash") out)
    confirm_hash hash
    done out
