-- ===== src/Backends/Tauri/Session.antt =====
-- The session of TauriBackend: which commands reach the shell, and after which.
use widespread_logos.Prelude.{
  Bool, true, false, not, ◌&&◌, ◌||◌, Option, none, some, List, [], ◌∷◌, Text, codes, text_eq,
  Error, Result, ok, err, if◌then◌else◌, ◌≡◌, refl, ◌⊎◌, inl, inr, arith,
}
use widespread_logos.Prelude.Tasks.{fail}
use widespread_logos.Prelude.Tasks.Triples.{Ensures}
use widespread_logos.Platform.Json.{Value, str, get?}
use widespread_logos.Backends.Tauri.{
  Tauri, TauriCore, Command, Desktop, Invoke, tauri_core, call_invoke, call_core, command,
}

-- The name of the worker operation that a command carries, if it carries one.
op_text : Value → Text
op_text (str s) = s
op_text _ = []

unfoldable pub worker_op : Text → Value → Text
unfolding op_text get?
worker_op cmd args =
    if text_eq cmd (codes "lez_op")
    then op_text (get? (codes "op") (get? (codes "op") args))
    else []

one_of : Text → List Text → Bool
one_of s [] = false
one_of s (t ∷ ts) = text_eq s t || one_of s ts

-- The operations that need the keys of the vault.
unfoldable pub guarded : Text → Value → Bool
unfolding worker_op one_of
guarded cmd args = one_of (worker_op cmd args) (
    codes "list_accounts"
    ∷ codes "create_account"
    ∷ codes "sync"
    ∷ codes "transfer"
    ∷ codes "program_call"
    ∷ codes "export_blob"
    ∷ [])

-- The operations that hand the worker a vault.
unfoldable pub opening : Text → Value → Bool
unfolding worker_op one_of
opening cmd args =
    one_of (worker_op cmd args) (codes "init" ∷ codes "restore" ∷ codes "unlock" ∷ [])

accepted : Result Value → Bool
accepted (ok _) = true
accepted (err _) = false

-- The worker accepted a vault at some time.
unfoldable pub opened : List Command → Bool
unfolding opening accepted
opened [] = false
opened (c ∷ cs) = (opening c.cmd c.args && accepted c.reply) || opened cs

-- Every operation that needs the keys stands after a vault that the worker accepted.
unfoldable pub legal : List Command → Bool
unfolding guarded opened
legal [] = true
legal (c ∷ cs) = (not (guarded c.cmd c.args) || opened cs) && legal cs

module _ {Host : Type 0} where
  unfoldable pub IsLegal : Desktop Host → Type 0
  unfolding legal opened
  IsLegal d = (legal d.commands ≡ true) × (d.unlocked ≡ true → opened d.commands ≡ true)

  unfoldable pub IsOpen : Desktop Host → Type 0
  unfolding legal opened
  IsOpen d = (legal d.commands ≡ true) × (opened d.commands ≡ true)

  pub IsOpen-IsLegal : (d : Desktop Host) → IsOpen d → IsLegal d
  unfolding IsOpen IsLegal
  IsOpen-IsLegal d (l, o) = (l, λ _. o)

  -- A command that does not reach the shell changes nothing; one that does is noted.
  abbrev Noted : Text → Value → Desktop Host → Result Value × Desktop Host → Type 0
  Noted cmd args d outcome =
      ((e : Error) × (outcome ≡ (err e, d)))
      ⊎ ((reply : Result Value) × (host : Host) × (outcome ≡ (
        reply,
        record d {
          commands = record { cmd = cmd; args = args; reply = reply } ∷ d.commands;
          host = host;
        },
      )))

  invoke-Noted :
      (invoke : Option (Invoke Host)) (cmd : Text) (args : Value) (d : Desktop Host)
      → Noted cmd args d (call_invoke invoke cmd args d)
  unfolding call_invoke
  invoke-Noted none cmd args d = inl (_, refl)
  invoke-Noted (some invoke) cmd args d = inr (_, _, refl)

  core-Noted :
      (core : Option (TauriCore Host)) (cmd : Text) (args : Value) (d : Desktop Host)
      → Noted cmd args d (call_core core cmd args d)
  unfolding call_core fail
  core-Noted none cmd args d = inl (_, refl)
  core-Noted (some c) cmd args d = invoke-Noted c.invoke cmd args d

module _ {Host : Type 0} (window : Option (Tauri Host)) where
  pub command-cases :
      (cmd : Text) (args : Value) (d : Desktop Host) → Noted cmd args d (command window cmd args d)
  unfolding command
  command-cases cmd args d = core-Noted (tauri_core window) cmd args d

  pub command-IsLegal :
      (cmd : Text) (args : Value)
      → guarded cmd args ≡ false
      → Ensures IsLegal IsLegal (command window cmd args) IsLegal
  unfolding IsLegal legal opened
  command-IsLegal cmd args plain = record {
    run = λ d h. elim (command-cases cmd args d) [
      | inl (e, same) ↦ rw same h
      | inr (err e, host, same) ↦ rw same (ground (arith), ground (arith))
      | inr (ok v, host, same) ↦ rw same (ground (arith), ground (arith))
    ];
  }

  pub command-IsOpen :
      (cmd : Text) (args : Value) → Ensures IsLegal IsOpen (command window cmd args) IsOpen
  unfolding IsLegal IsOpen legal opened
  command-IsOpen cmd args = record {
    run = λ d h. elim (command-cases cmd args d) [
      | inl (e, same) ↦ rw same (ground (arith), ground (arith))
      | inr (err e, host, same) ↦ rw same (ground (arith), ground (arith))
      | inr (ok v, host, same) ↦ rw same (ground (arith), ground (arith))
    ];
  }

  pub command-opens :
      (cmd : Text) (args : Value)
      → guarded cmd args ≡ false
      → opening cmd args ≡ true
      → Ensures IsLegal IsLegal (command window cmd args) IsOpen
  unfolding IsLegal IsOpen legal opened accepted
  command-opens cmd args plain opens = record {
    run = λ d h. elim (command-cases cmd args d) [
      | inl (e, same) ↦ rw same h
      | inr (err e, host, same) ↦ rw same (ground (arith), ground (arith))
      | inr (ok v, host, same) ↦ rw same (ground (arith), ground (arith))
    ];
  }
