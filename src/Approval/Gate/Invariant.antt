-- ===== src/Approval/Gate/Invariant.antt =====
-- Nothing reaches the inner backend without the user's approval.
use widespread_logos.Prelude.{
  ℕ, ◌+◌, ◌≤◌, ◌≡◌, refl, Bool, true, false, Option, none, some, List, [], ◌∷◌, Text, codes, Result,
  ok, err, arith, text_eq, text_eq_iff, Bool-cases, inl, inr,
}
use mathlib.Core.List.{append_cancel_left}
use mathlib.Core.Path.{subst}
use widespread_logos.Approval.Sessions.{find, get, set, find-set, find-get, get-eq-some}
use widespread_logos.Approval.Effects.{CallEffect, transfer_effect}
use widespread_logos.Approval.Gate.{
  Account, Request, transfer, program_call, Event, asked, sent, Gate, new_gate, session_ttl_ms,
  Turn, scope_of, gated, gated_transfer, program_call_with, gated_program_call, run,
}

-- A call of the program was approved at a time not more than the session's length before `now`.
pub data Approved (program : Text) (now : ℕ) : List Event → Type 0 where
  here :
      {data_hex : Text} {accounts : List Account} {payer : Option Text} {e : CallEffect} {at : ℕ}
      {log : List Event}
      → now ≤ at + session_ttl_ms
      → Approved program now (asked (program_call program data_hex accounts payer) e true at ∷ log)
  there : {x : Event} {log : List Event} → Approved program now log → Approved program now (x ∷ log)

-- The newest event is the approval of this transfer, with its own effect.
pub data JustApproved (from to amount : Text) : List Event → Type 0 where
  now :
      {at : ℕ} {log : List Event}
      → JustApproved from to amount
          (asked (transfer from to amount) (transfer_effect from to amount) true at ∷ log)

-- What the log before it must hold for a request to be sent.
abbrev pub MaySend : Request → ℕ → List Event → Type 0
MaySend (transfer from to amount) at log = JustApproved from to amount log
MaySend (program_call program _ _ _) at log = Approved program at log

abbrev pub IsGated : List Event → Type 0
IsGated [] = Unit
IsGated (asked _ _ _ _ ∷ log) = IsGated log
IsGated (sent q at ∷ log) = MaySend q at log × IsGated log

-- Every grant that the store holds comes from an approval.
abbrev Granted : Gate → Type 0
Granted g =
    (program : Text) (now t : ℕ)
    → find (scope_of program) g.grants ≡ some t
    → now ≤ t
    → Approved program now g.log

pub record IsValid (g : Gate) : Type 0 where
  pub is_gated : IsGated g.log
  pub granted : Granted g

pub new_gate-IsValid : IsValid new_gate
unfolding find
new_gate-IsValid = record { is_gated = tt; granted = λ p n t h. cc }

transfer-IsValid :
    (from to amount : Text) (t : Turn) (g : Gate)
    → IsValid g
    → IsValid (gated_transfer from to amount t g).1
unfolding gated_transfer
transfer-IsValid from to amount t g v = go t.answer
  where
    go : (r : Result Bool) → IsValid (gated_transfer from to amount (record t { answer = r }) g).1
    go (err e) = v
    go (ok false) = record {
      is_gated = v.is_gated;
      granted = λ p n u h k. there (v.granted p n u h k);
    }
    go (ok true) = record {
      is_gated = (now, v.is_gated);
      granted = λ p n u h k. there (there (v.granted p n u h k));
    }

scope_of_inj : (p q : Text) → scope_of p ≡ scope_of q → p ≡ q
unfolding scope_of
scope_of_inj p q h = append_cancel_left (codes "program_call:") p q h

-- What `get` leaves behind is still granted.
Granted-get :
    (k : Text) (at : ℕ) (g : Gate)
    → Granted g
    → Granted (record g { grants = (get k at g.grants).1 })
Granted-get k at g h p n t e = h p n t (find-get k (scope_of p) at t g.grants e)

-- A grant that was set at the time of an approval, behind the event of the call that it let through.
Granted-set :
    (program : Text) (at : ℕ) (q : Request) (e : CallEffect) (g : Gate) (data_hex : Text)
    (accounts : List Account) (payer : Option Text)
    → Granted g
    → Granted (record {
      grants = set (scope_of program) (at + session_ttl_ms) g.grants;
      log = sent q at ∷ asked (program_call program data_hex accounts payer) e true at ∷ g.log;
    })
Granted-set program at q e g data_hex accounts payer h p n t found k =
    elim (Bool-cases (text_eq (scope_of program) (scope_of p))) [
      | inl same ↦
          let eq = scope_of_inj program p ((text_eq_iff _ _).0 same) in
          let ends : at + session_ttl_ms ≡ t =
            ground
              (arith, find-set (scope_of program) (scope_of p) (at + session_ttl_ms) g.grants) in
          there (
            subst
              (λ x.
                Approved x n
                  (asked (program_call program data_hex accounts payer) e true at ∷ g.log))
              eq (here {at = at} (omega arith)))
      | inr other ↦ there (there (h p n t (rw (find-set, other) at found) k))
    ]

module _ (program data_hex : Text) (accounts : List Account) (payer : Option Text) (t : Turn) where
  confirmed-IsValid :
      (r : Result Bool) (g : Gate)
      → IsValid g
      → IsValid
          (program_call_with none program data_hex accounts payer (record t { answer = r }) g).1
  unfolding program_call_with
  confirmed-IsValid (err e) g v = v
  confirmed-IsValid (ok false) g v = record {
    is_gated = v.is_gated;
    granted = λ p n u h k. there (v.granted p n u h k);
  }
  confirmed-IsValid (ok true) g v = record {
    is_gated = (here (omega arith), v.is_gated);
    granted =
        Granted-set program t.confirmed_at (program_call program data_hex accounts payer) t.effect g
          data_hex accounts payer v.granted;
  }

  program_call_with-IsValid :
      (found : Option ℕ) (g : Gate)
      → ((u : ℕ) → found ≡ some u → Approved program t.asked_at g.log)
      → IsValid g
      → IsValid (program_call_with found program data_hex accounts payer t g).1
  unfolding program_call_with
  program_call_with-IsValid none g h v = confirmed-IsValid t.answer g v
  program_call_with-IsValid (some u) g h v = record {
    is_gated = (h u refl, v.is_gated);
    granted = λ p n w e k. there (v.granted p n w e k);
  }

  program_call-IsValid :
      (g : Gate) → IsValid g → IsValid (gated_program_call program data_hex accounts payer t g).1
  unfolding gated_program_call
  program_call-IsValid g v =
      program_call_with-IsValid (get (scope_of program) t.asked_at g.grants).0 _
        (λ u e.
          let (stored, in_time) = get-eq-some (scope_of program) t.asked_at u g.grants e in
          v.granted program t.asked_at u stored in_time)
        (record {
          is_gated = v.is_gated;
          granted = Granted-get (scope_of program) t.asked_at g v.granted;
        })

gated-IsValid : (q : Request) (t : Turn) (g : Gate) → IsValid g → IsValid (gated q t g).1
unfolding gated
gated-IsValid (transfer from to amount) t g v = transfer-IsValid from to amount t g v
gated-IsValid (program_call program data_hex accounts payer) t g v =
    program_call-IsValid program data_hex accounts payer t g v

pub run-IsValid : (qs : List (Request × Turn)) (g : Gate) → IsValid g → IsValid (run qs g)
unfolding run
run-IsValid [] g v = v
run-IsValid ((q, t) ∷ qs) g v = run-IsValid qs (gated q t g).1 (gated-IsValid q t g v)

-- In any session of a new gate, whatever the clock, the user and the backend do: a transfer is sent
-- only when the newest event is the approval of the same transfer, and a program call only when a call
-- of the same program was approved not more than 15 minutes before.
pub run-IsGated : (qs : List (Request × Turn)) → IsGated (run qs new_gate).log
run-IsGated qs = (run-IsValid qs new_gate new_gate-IsValid).is_gated
