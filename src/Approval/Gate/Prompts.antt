-- ===== src/Approval/Gate/Prompts.antt =====
-- When the user is asked again.
use widespread_logos.Prelude.{
  ℕ, ◌+◌, ◌≤◌, ◌≡◌, refl, ap, true, Option, none, some, List, ◌∷◌, Text, ok, text_eq_refl,
}
use widespread_logos.Approval.Sessions.{find, find-set, get-live, get-absent}
use widespread_logos.Approval.Gate.{
  Account, program_call, sent, Gate, session_ttl_ms, Turn, scope_of, gated, gated_program_call,
  program_call_with,
}

module _ (program data_hex : Text) (accounts : List Account) (payer : Option Text) (t : Turn)
    (g : Gate) where
  -- With a grant that has not ended, a call of the program is sent at once, whatever its data.
  pub call-unasked :
      (ends : ℕ)
      → find (scope_of program) g.grants ≡ some ends
      → t.asked_at ≤ ends
      → gated (program_call program data_hex accounts payer) t g ≡ (
        t.reply,
        record {
          grants = g.grants;
          log = sent (program_call program data_hex accounts payer) t.asked_at ∷ g.log;
        },
      )
  unfolding gated gated_program_call program_call_with
  call-unasked ends found k =
      rw (get-live (scope_of program) t.asked_at ends g.grants found k, program_call_with) refl

  -- After an approval the grant ends one session later.
  call-grants :
      t.answer ≡ ok true
      → find (scope_of program) g.grants ≡ none
      → find (scope_of program) (gated (program_call program data_hex accounts payer) t g).1.grants
        ≡ some (t.confirmed_at + session_ttl_ms)
  unfolding gated gated_program_call program_call_with
  call-grants said absent =
      rw (get-absent (scope_of program) t.asked_at g.grants absent, program_call_with)
        (rw said (rw (find-set, text_eq_refl) refl))

-- One approval opens the program for fifteen minutes: a second call of it, with any other data,
-- accounts and payer, is sent without a question.
pub call-after_call :
    (program : Text) (data_hex data_hex' : Text) (accounts accounts' : List Account)
    (payer payer' : Option Text) (t t' : Turn) (g : Gate)
    → t.answer ≡ ok true
    → find (scope_of program) g.grants ≡ none
    → t'.asked_at ≤ t.confirmed_at + session_ttl_ms
    → (gated
        (program_call program data_hex' accounts' payer')
        t'
        (gated (program_call program data_hex accounts payer) t g).1).1.log
      ≡ sent (program_call program data_hex' accounts' payer') t'.asked_at
        ∷ (gated (program_call program data_hex accounts payer) t g).1.log
call-after_call program data_hex data_hex' accounts accounts' payer payer' t t' g said absent k =
    ap (λ r. r.1.log)
      (call-unasked program data_hex' accounts' payer' t' _ _
        (call-grants program data_hex accounts payer t g said absent) k)
