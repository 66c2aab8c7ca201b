-- ===== src/Approval/Gate.antt =====
-- GatedBackend: the two gated operations. The state is the session store and, newest first, what went
-- to the user and to the inner backend. A call is given what its environment decides: the readings of
-- the clock, the effect that `describeCall` finds and the answer of the confirm hook.
pub mod Invariant
pub mod Prompts
use widespread_logos.Prelude.{
  ℕ, ◌+◌, ◌*◌, Bool, true, false, Option, none, some, List, [], ◌∷◌, ◌++◌, Text, codes, Result, ok,
  err, Error, message,
}
use widespread_logos.Approval.Sessions.{Grants, get, set}
use widespread_logos.Approval.Effects.{CallEffect, transfer_effect}

pub record Account : Type 0 where
  pub account : Text
  pub program_account_id : Text

pub data Request : Type 0 where
  transfer : Text → Text → Text → Request
  program_call : Text → Text → List Account → Option Text → Request

-- `asked q e yes t`: the effect `e` of the request was shown and answered, at the time t;
-- `sent q t`: the inner backend was called.
pub data Event : Type 0 where
  asked : Request → CallEffect → Bool → ℕ → Event
  sent : Request → ℕ → Event

pub record Gate : Type 0 where
  pub grants : Grants
  pub log : List Event

abbrev pub new_gate : Gate
new_gate = record { grants = []; log = [] }

unfoldable pub session_ttl_ms : ℕ
session_ttl_ms = 15 * 60 * 1000

-- What the environment does during one call: `asked_at` is the clock when the call starts,
-- `confirmed_at` when the answer is there. A rejected confirm hook is an error.
pub record Turn : Type 0 where
  pub asked_at : ℕ
  pub confirmed_at : ℕ
  pub effect : CallEffect
  pub answer : Result Bool
  pub reply : Result Text

unfoldable pub scope_of : Text → Text
scope_of program = codes "program_call:" ++ program

abbrev pub rejected : Result Text
rejected = err (message (codes "rejected by user"))

note : Event → Gate → Gate
note e g = record g { log = e ∷ g.log }

-- `return this.inner.…`
forward : Request → ℕ → Turn → Gate → Result Text × Gate
unfolding note
forward q at t g = (t.reply, note (sent q at) g)

-- `if (!(await confirm(effect))) throw …`, then the rest.
confirm : Request → CallEffect → Turn → Gate → (Gate → Result Text × Gate) → Result Text × Gate
unfolding note
confirm q effect t g rest = elim (t.answer) [
  | err e ↦ (err e, g)
  | ok true ↦ rest (note (asked q effect true t.confirmed_at) g)
  | ok false ↦ (rejected, note (asked q effect false t.confirmed_at) g)
]

gated_transfer : Text → Text → Text → Turn → Gate → Result Text × Gate
unfolding confirm forward
gated_transfer from to amount t g =
    confirm (transfer from to amount) (transfer_effect from to amount) t g
      (forward (transfer from to amount) t.confirmed_at t)

grant : Text → ℕ → Gate → Gate
unfolding session_ttl_ms scope_of
grant program at g = record g { grants = set (scope_of program) (at + session_ttl_ms) g.grants }

-- The rest of `programCall`, with what the session store returned.
program_call_with :
    Option ℕ → Text → Text → List Account → Option Text → Turn → Gate → Result Text × Gate
unfolding confirm forward grant
program_call_with (some _) program data_hex accounts payer t g =
    forward (program_call program data_hex accounts payer) t.asked_at t g
program_call_with none program data_hex accounts payer t g =
    let q = program_call program data_hex accounts payer in
    confirm q t.effect t g (λ h. forward q t.confirmed_at t (grant program t.confirmed_at h))

gated_program_call : Text → Text → List Account → Option Text → Turn → Gate → Result Text × Gate
unfolding program_call_with scope_of
gated_program_call program data_hex accounts payer t g =
    let (found, grants) = get (scope_of program) t.asked_at g.grants in
    program_call_with found program data_hex accounts payer t (record g { grants = grants })

pub gated : Request → Turn → Gate → Result Text × Gate
unfolding gated_transfer gated_program_call
gated (transfer from to amount) t g = gated_transfer from to amount t g
gated (program_call program data_hex accounts payer) t g =
    gated_program_call program data_hex accounts payer t g

-- A session of the gate: requests one after the other.
pub run : List (Request × Turn) → Gate → Gate
unfolding gated
run [] g = g
run ((q, t) ∷ qs) g = run qs (gated q t g).1
