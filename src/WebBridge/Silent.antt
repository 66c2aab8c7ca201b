-- ===== src/WebBridge/Silent.antt =====
-- What an answer with an error leaves of a call: nobody hears of it.
use widespread_logos.Prelude.{
  ℕ, ◌+◌, ◌≤◌, ◌==◌, ==_iff, ◌||◌, Bool, true, false, Option, none, some, List, [], ◌∷◌, ◌++◌, Text,
  codes, text_eq, text_eq_refl, text_eq_ne, if◌then◌else◌, ◌≡◌, refl, ap, sym, ◌∙◌, arith,
  Bool-cases, inl, inr,
}
use widespread_logos.Platform.{decimal}
use widespread_logos.Platform.Decimal.{decimal-inj}
use widespread_logos.Platform.Json.{Value, get?, str, object, num, find, to_text}
use widespread_logos.Backends.Pwa.Surface.{is_text}
use widespread_logos.WebBridge.{
  Slot, Outcome, delivered, rejected, BridgeState, call_module_async, drain, find_slot, delete_slot,
  is_present, outcome_of, answer_slot, answer_request, on_message, BridgeEvent, called, drained,
  received, bridge_step, bridge_run,
}

-- The callback of a request has been called.
unfoldable pub has_delivered : ℕ → List Outcome → Bool
has_delivered n [] = false
has_delivered n (delivered m s ∷ os) = (m == n) || has_delivered n os
has_delivered n (rejected m s ∷ os) = has_delivered n os

-- A request that is no longer pending, and whose callback has not been called.
abbrev IsSilent : ℕ → BridgeState → Type 0
IsSilent n b =
    (n ≤ b.seq) × (find_slot (decimal n) b.pending ≡ none) × (has_delivered n b.outcomes ≡ false)

find_slot-delete_slot : (key : Text) (ss : List Slot) → find_slot key (delete_slot key ss) ≡ none
unfolding find_slot delete_slot
find_slot-delete_slot key [] = refl
find_slot-delete_slot key (s ∷ ss) = elim (Bool-cases (text_eq (decimal s.request_id) key)) [
  | inl same ↦ rw same (find_slot-delete_slot key ss)
  | inr other ↦ rw (other, other) (find_slot-delete_slot key ss)
]

still-absent :
    (key gone : Text) (ss : List Slot)
    → find_slot gone ss ≡ none
    → find_slot gone (delete_slot key ss) ≡ none
unfolding find_slot delete_slot
still-absent key gone [] h = refl
still-absent key gone (s ∷ ss) h = ground (arith, still-absent key gone ss)

some-ne-none : {A B : Type 0} {a : A} → some a ≡ none → B
some-ne-none same = cc

some-inj : {A : Type 0} {a b : A} → some a ≡ some b → a ≡ b
some-inj same = cc

found-apart :
    (key gone : Text) (ss : List Slot) {s : Slot}
    → find_slot gone ss ≡ none
    → find_slot key ss ≡ some s
    → text_eq (decimal s.request_id) gone ≡ false
unfolding find_slot
found-apart key gone [] h found = cc
found-apart key gone (t ∷ ss) {s} h found =
    elim (Bool-cases (text_eq (decimal t.request_id) gone)) [
      | inl same ↦ some-ne-none (sym (ap (λ b. if b then some t else find_slot gone ss) same) ∙ h)
      | inr other ↦ elim (Bool-cases (text_eq (decimal t.request_id) key)) [
        | inl here ↦
            ap (λ i. text_eq (decimal i) gone)
              (ap (λ (x : Slot). x.request_id)
                (some-inj (sym found ∙ ap (λ b. if b then some t else find_slot key ss) here)))
            ∙ other
        | inr later ↦
            found-apart key gone ss
              (ap (λ b. if b then some t else find_slot gone ss) (sym other) ∙ h)
              (ap (λ b. if b then some t else find_slot key ss) (sym later) ∙ found)
      ]
    ]

numbers-apart : (m n : ℕ) → text_eq (decimal m) (decimal n) ≡ false → (m == n) ≡ false
numbers-apart m n apart = elim (Bool-cases (m == n)) [
  | inl same ↦ true-ne-false (
      sym (text_eq_refl (decimal m))
      ∙ ap (λ i. text_eq (decimal m) (decimal i)) ((==_iff m n).0 same)
      ∙ apart)
  | inr other ↦ other
]
  where
    true-ne-false : {A : Type 0} → true ≡ false → A
    true-ne-false same = cc

outcome-quiet :
    (stringify : Value → Text) (n : ℕ) (d : Value) (s : Slot) (os : List Outcome)
    → has_delivered n os ≡ false
    → text_eq (decimal s.request_id) (decimal n) ≡ false
    → has_delivered n (outcome_of stringify s d ++ os) ≡ false
unfolding has_delivered outcome_of
outcome-quiet stringify n d s os quiet apart =
    elim (Bool-cases (is_present (get? (codes "error") d))) [
      | inl failed ↦ rw failed quiet
      | inr fine ↦ elim (Bool-cases s.has_callback) [
        | inl waits ↦ rw (fine, waits, numbers-apart s.request_id n apart) quiet
        | inr nobody ↦ rw (fine, nobody) quiet
      ]
    ]

answer-IsSilent :
    (stringify : Value → Text) (n : ℕ) (key : Text) (d : Value) (b : BridgeState) (o : Option Slot)
    → find_slot key b.pending ≡ o
    → IsSilent n b
    → IsSilent n (answer_slot stringify key d o b)
unfolding answer_slot
answer-IsSilent stringify n key d b none found h = h
answer-IsSilent stringify n key d b (some s) found (given, gone, quiet) = (
  given,
  still-absent key (decimal n) b.pending gone,
  outcome-quiet stringify n d s b.outcomes quiet (found-apart key (decimal n) b.pending gone found),
)

message-IsSilent :
    (stringify : Value → Text) (n : ℕ) (d : Value) (b : BridgeState)
    → IsSilent n b
    → IsSilent n (on_message stringify d b)
unfolding on_message answer_request
message-IsSilent stringify n d b h =
    elim (Bool-cases (is_text (codes "logos_response") (get? (codes "type") d))) [
      | inl mine ↦ rw mine (answer-IsSilent stringify n _ d b _ refl h)
      | inr other ↦ rw other h
    ]

step-IsSilent :
    (stringify : Value → Text) (n : ℕ) (e : BridgeEvent) (b : BridgeState)
    → IsSilent n b
    → IsSilent n (bridge_step stringify e b).1
unfolding bridge_step call_module_async drain find_slot
step-IsSilent stringify n (called program method args cb) b (given, gone, quiet) = (
  omega arith,
  ap
        (λ x.
          if x
          then some (record { request_id = b.seq + 1; has_callback = cb })
          else find_slot (decimal n) b.pending)
        (text_eq_ne (decimal (b.seq + 1)) (decimal n)
          (λ same. let number : b.seq + 1 ≡ n = decimal-inj _ _ same in omega arith))
      ∙ gone,
  quiet,
)
step-IsSilent stringify n drained b h = h
step-IsSilent stringify n (received d) b h = message-IsSilent stringify n d b h

run-IsSilent :
    (stringify : Value → Text) (n : ℕ) (es : List BridgeEvent) (b : BridgeState)
    → IsSilent n b
    → IsSilent n (bridge_run stringify es b).1
unfolding bridge_run
run-IsSilent stringify n [] b h = h
run-IsSilent stringify n (e ∷ es) b h =
    run-IsSilent stringify n es (bridge_step stringify e b).1 (step-IsSilent stringify n e b h)

-- The answer of the shell to a request that failed.
abbrev pub error_message : ℕ → Text → Value
error_message n text = object (
    (codes "type", str (codes "logos_response"))
    ∷ (codes "requestId", num n)
    ∷ (codes "error", str text)
    ∷ [])

error-IsSilent :
    (stringify : Value → Text) (n : ℕ) (text : Text) (b : BridgeState) (o : Option Slot)
    → find_slot (decimal n) b.pending ≡ o
    → n ≤ b.seq
    → has_delivered n b.outcomes ≡ false
    → IsSilent n (answer_slot stringify (decimal n) (error_message n text) o b)
unfolding answer_slot outcome_of is_present get? find has_delivered
error-IsSilent stringify n text b none found given quiet = (given, found, quiet)
error-IsSilent stringify n text b (some s) found given quiet =
    (given, find_slot-delete_slot (decimal n) b.pending, quiet)

-- When the shell answers a request with an error, the callback of the request is not called, neither
-- then nor later, whatever else happens on the page: the caller waits for ever.
pub error_message-silent :
    (stringify : Value → Text) (n : ℕ) (text : Text) (b : BridgeState) (later : List BridgeEvent)
    → n ≤ b.seq
    → has_delivered n b.outcomes ≡ false
    → has_delivered n (bridge_run stringify (received (error_message n text) ∷ later) b).1.outcomes
      ≡ false
unfolding bridge_run bridge_step on_message answer_request is_text get? find to_text
error_message-silent stringify n text b later given quiet =
    (run-IsSilent stringify n later
      (answer_slot stringify (decimal n) (error_message n text) (find_slot (decimal n) b.pending) b)
      (error-IsSilent stringify n text b _ refl given quiet)).2
