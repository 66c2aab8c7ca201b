-- ===== src/WebBridge.antt =====
-- The bridge that the QML shell injects into the wallet page (web/wallet/src/bridge.js): calls wait in
-- an outbox that the shell drains, and are answered by messages. JSON.stringify is a parameter; the id
-- of a request also names the callback that it was given.
pub mod Queue
pub mod Silent
use widespread_logos.Prelude.{
  ℕ, ◌+◌, Bool, true, false, not, ◌||◌, Option, none, some, List, [], ◌∷◌, ◌++◌, Text, codes,
  text_eq, if◌then◌else◌, map,
}
use widespread_logos.Platform.{decimal}
use widespread_logos.Platform.Json.{
  Value, undefined, null, bool, num, str, arr, obj, get?, truthy, to_text, array, nil,
}
use widespread_logos.Backends.Pwa.Surface.{is_text}

pub record Outgoing : Type 0 where
  pub request_id : ℕ
  pub program : Text
  pub method : Text
  pub args : Value

-- A slot of `pending`, and whether a callback waits for its promise.
pub record Slot : Type 0 where
  pub request_id : ℕ
  pub has_callback : Bool

-- What becomes of a promise, for those who wait for it.
pub data Outcome : Type 0 where
  delivered : ℕ → Text → Outcome
  rejected : ℕ → Text → Outcome

pub record BridgeState : Type 0 where
  pub seq : ℕ
  pub outbox : List Outgoing
  pub pending : List Slot
  pub outcomes : List Outcome

unfoldable pub new_bridge : BridgeState
new_bridge = record { seq = 0; outbox = []; pending = []; outcomes = [] }

-- `args || []`
unfoldable pub args_of : Value → Value
unfolding truthy
args_of args = if truthy args then args else arr nil

-- `callModuleAsync`
unfoldable pub call_module_async : Text → Text → Value → Bool → BridgeState → BridgeState
unfolding args_of
call_module_async program method args has_callback b = record b {
  seq = b.seq + 1;
  outbox =
      b.outbox
      ++ record { request_id = b.seq + 1; program = program; method = method; args = args_of args }
        ∷ [];
  pending = record { request_id = b.seq + 1; has_callback = has_callback } ∷ b.pending;
}

-- `drain`
unfoldable pub drain : BridgeState → List Outgoing × BridgeState
drain b = (b.outbox, record b { outbox = [] })

-- `pending[d.requestId]`
unfoldable pub find_slot : Text → List Slot → Option Slot
unfolding decimal
find_slot key [] = none
find_slot key (s ∷ ss) = if text_eq (decimal s.request_id) key then some s else find_slot key ss

-- `delete pending[d.requestId]`
unfoldable pub delete_slot : Text → List Slot → List Slot
unfolding decimal
delete_slot key [] = []
delete_slot key (s ∷ ss) =
    let rest = delete_slot key ss in if text_eq (decimal s.request_id) key then rest else s ∷ rest

-- `v !== undefined && v !== null`
unfoldable pub is_present : Value → Bool
is_present undefined = false
is_present null = false
is_present (bool _) = true
is_present (num _) = true
is_present (str _) = true
is_present (arr _) = true
is_present (obj _) = true

-- `typeof r === 'string' ? r : JSON.stringify(r)`
unfoldable pub callback_text : (Value → Text) → Value → Text
callback_text stringify (str s) = s
callback_text stringify undefined = stringify undefined
callback_text stringify null = stringify null
callback_text stringify (bool b) = stringify (bool b)
callback_text stringify (num n) = stringify (num n)
callback_text stringify (arr vs) = stringify (arr vs)
callback_text stringify (obj fs) = stringify (obj fs)

-- The promise of a slot is settled: the callback hears only of a result.
unfoldable pub outcome_of : (Value → Text) → Slot → Value → List Outcome
unfolding is_present callback_text to_text get?
outcome_of stringify s d =
    if is_present (get? (codes "error") d)
    then rejected s.request_id (to_text (get? (codes "error") d)) ∷ []
    else if s.has_callback
    then delivered s.request_id (callback_text stringify (get? (codes "result") d)) ∷ []
    else []

unfoldable pub answer_slot : (Value → Text) → Text → Value → Option Slot → BridgeState → BridgeState
unfolding delete_slot outcome_of
answer_slot stringify key d none b = b
answer_slot stringify key d (some s) b = record b {
  pending = delete_slot key b.pending;
  outcomes = outcome_of stringify s d ++ b.outcomes;
}

unfoldable pub answer_request : (Value → Text) → Text → Value → BridgeState → BridgeState
unfolding find_slot answer_slot
answer_request stringify key d b = answer_slot stringify key d (find_slot key b.pending) b

-- The listener of the page.
unfoldable pub on_message : (Value → Text) → Value → BridgeState → BridgeState
unfolding answer_request is_text get? to_text
on_message stringify d b =
    if is_text (codes "logos_response") (get? (codes "type") d)
    then answer_request stringify (to_text (get? (codes "requestId") d)) d b
    else b

-- What happens on the page.
pub data BridgeEvent : Type 0 where
  called : Text → Text → Value → Bool → BridgeEvent
  drained : BridgeEvent
  received : Value → BridgeEvent

module _ (stringify : Value → Text) where
  unfoldable pub bridge_step : BridgeEvent → BridgeState → List Outgoing × BridgeState
  unfolding call_module_async drain on_message
  bridge_step (called program method args cb) b = ([], call_module_async program method args cb b)
  bridge_step drained b = drain b
  bridge_step (received d) b = ([], on_message stringify d b)

  -- All that the shell collects, and the bridge afterwards.
  unfoldable pub bridge_run : List BridgeEvent → BridgeState → List Outgoing × BridgeState
  unfolding bridge_step
  bridge_run [] b = ([], b)
  bridge_run (e ∷ es) b =
      let (now, next) = bridge_step e b in
      let (later, last) = bridge_run es next in (now ++ later, last)
