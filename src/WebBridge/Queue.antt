-- ===== src/WebBridge/Queue.antt =====
-- The outbox of the bridge as a queue, and what an answer with an error leaves.
use widespread_logos.Prelude.{
  ℕ, ◌+◌, Option, none, some, List, [], ◌∷◌, ◌++◌, Text, codes, ◌≡◌, refl, ap, sym, ◌∙◌, Bool-cases,
  inl, inr,
}
use mathlib.Core.List.{append_assoc, append-nil}
use widespread_logos.Platform.Json.{Value, get?}
use widespread_logos.Backends.Pwa.Surface.{is_text}
use widespread_logos.WebBridge.{
  Outgoing, Slot, BridgeState, new_bridge, args_of, call_module_async, drain, answer_slot,
  answer_request, on_message, BridgeEvent, called, drained, received, bridge_step, bridge_run,
}

-- The requests that events make on a bridge that has given out `seq` ids.
unfoldable pub requests : ℕ → List BridgeEvent → List Outgoing
requests seq [] = []
requests seq (called program method args cb ∷ es) =
    record { request_id = seq + 1; program = program; method = method; args = args_of args }
    ∷ requests (seq + 1) es
requests seq (drained ∷ es) = requests seq es
requests seq (received d ∷ es) = requests seq es

module _ (stringify : Value → Text) where
  answer-queue :
      (key : Text) (d : Value) (o : Option Slot) (b : BridgeState)
      → ((answer_slot stringify key d o b).outbox ≡ b.outbox)
        × ((answer_slot stringify key d o b).seq ≡ b.seq)
  unfolding answer_slot
  answer-queue key d none b = (refl, refl)
  answer-queue key d (some s) b = (refl, refl)

  message-queue :
      (d : Value) (b : BridgeState)
      → ((on_message stringify d b).outbox ≡ b.outbox) × ((on_message stringify d b).seq ≡ b.seq)
  unfolding on_message answer_request
  message-queue d b = elim (Bool-cases (is_text (codes "logos_response") (get? (codes "type") d))) [
    | inl mine ↦ rw mine (answer-queue _ d _ b)
    | inr other ↦ rw other (refl, refl)
  ]

  run-queue :
      (es : List BridgeEvent) (b : BridgeState)
      → (bridge_run stringify es b).0 ++ (bridge_run stringify es b).1.outbox
        ≡ b.outbox ++ requests b.seq es
  unfolding bridge_run bridge_step requests call_module_async drain
  run-queue [] b = sym (append-nil b.outbox)
  run-queue (called program method args cb ∷ es) b =
      run-queue es (call_module_async program method args cb b) ∙ append_assoc b.outbox _ _
  run-queue (drained ∷ es) b =
      append_assoc b.outbox _ _
      ∙ ap (λ queue. b.outbox ++ queue) (run-queue es (record b { outbox = [] }))
  run-queue (received d ∷ es) b =
      run-queue es (on_message stringify d b)
      ∙ ap (λ queue. queue ++ requests (on_message stringify d b).seq es) (message-queue d b).0
      ∙ ap (λ seq. b.outbox ++ requests seq es) (message-queue d b).1

  -- What the shell has drained, followed by what still waits in the outbox, is the list of the calls
  -- in the order in which the page made them: none is lost, repeated or overtaken.
  pub bridge_run-requests :
      (es : List BridgeEvent)
      → (bridge_run stringify es new_bridge).0 ++ (bridge_run stringify es new_bridge).1.outbox
        ≡ requests 0 es
  unfolding new_bridge
  bridge_run-requests es = run-queue es new_bridge
