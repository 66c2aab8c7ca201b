-- ===== src/Provider/Module.antt =====
-- moduleBridge: a call over the host's `callModuleAsync`, and the choice of a bridge.
use widespread_logos.Prelude.{
  Bool, true, false, Option, none, some, [], ◌∷◌, Text, codes, message, Result, ok, err,
  if◌then◌else◌,
}
use widespread_logos.Platform.Json.{Value, str, object, get, truthy, to_text, or_else}
use widespread_logos.Backends.Module.{Json, Callback, called, threw, threw_value, CallModule, Logos}
use widespread_logos.Provider.{BridgeCall}

-- What the callback makes of the module's answer: a text that does not parse, or that has no `error`
-- to read, is the answer itself.
unfoldable pub parsed_answer : Text → Value → Result Value → Result Value
unfolding truthy to_text
parsed_answer raw parsed (err _) = ok (str raw)
parsed_answer raw parsed (ok e) = if truthy e then err (message (to_text e)) else ok parsed

unfoldable pub module_answer : Json → Text → Result Value
unfolding parsed_answer get
module_answer json raw = elim (json.parse raw) [
  | err _ ↦ ok (str raw)
  | ok parsed ↦ parsed_answer raw parsed (get (codes "error") parsed)
]

unfoldable pub module_promise : Json → Callback → Result Value
unfolding module_answer to_text
module_promise json (called raw) = module_answer json raw
module_promise json (threw e) = err e
module_promise json (threw_value v) = err (message (to_text v))

unfoldable pub module_call : {Host : Type 0} → Json → CallModule Host → BridgeCall Host
unfolding module_promise or_else
module_call json call_async op params host =
    let (answer, after) =
      call_async (codes "widespread_wallet") (codes "callPluginMethod")
        (str op ∷ str (json.stringify (or_else params (object []))) ∷ []) host in
    (module_promise json answer, after)

unfoldable pub module_bridge :
    {Host : Type 0} → Json → Option (Logos Host) → Option (BridgeCall Host)
unfolding module_call
module_bridge json none = none
module_bridge json (some logos) = elim (logos.call_module_async) [
  | none ↦ none
  | some call_async ↦ some (module_call json call_async)
]

-- `moduleBridge() ?? extensionBridge()`, and the constructor's error when there is none.
unfoldable pub chosen_bridge :
    {Host : Type 0} → Option (BridgeCall Host) → Option (BridgeCall Host) → Result (BridgeCall Host)
chosen_bridge (some b) extension = ok b
chosen_bridge none (some b) = ok b
chosen_bridge none none =
    err (message (codes "wsp-lez: no wallet transport (extension or Logos module) detected"))

unfoldable pub is_available :
    {Host : Type 0} → Option (BridgeCall Host) → Option (BridgeCall Host) → Bool
is_available (some b) extension = true
is_available none (some b) = true
is_available none none = false
