-- ===== src/Prelude/Tasks/Triples.antt =====
-- Rules for what a method guarantees: from a state with `Before`, it returns in a state with `After`
-- or is rejected in a state with `Failed`.
use widespread_logos.Prelude.Tasks.{Task, done, fail, settle, resume, ◌>>=◌, ◌>>◌}
use widespread_logos.Prelude.Errors.{Error, Result, ok, err}
use mathlib.Core.Bool.{Bool, true, false}
use widespread_logos.Prelude.Tests.{if◌then◌else◌}

-- What a run leaves.
abbrev pub Outcome {ℓ} :
    {State V : Type ℓ} → (State → Type ℓ) → (State → Type ℓ) → Result V × State → Type ℓ
Outcome Failed After (err _, s) = Failed s
Outcome Failed After (ok _, s) = After s

pub record Ensures {ℓ} {State V : Type ℓ} (Failed Before : State → Type ℓ) (m : Task State V)
    (After : State → Type ℓ) : Type ℓ where
  pub run : (s : State) → Before s → Outcome Failed After (m s)

module _ {ℓ} {State V : Type ℓ} {Failed P : State → Type ℓ} where
  pub Ensures-done : (v : V) → Ensures Failed P (done v) P
  unfolding done
  Ensures-done v = record { run = λ s h. h }

  pub Ensures-settle :
      (r : Result V) → ((s : State) → P s → Failed s) → Ensures Failed P (settle r) P
  unfolding settle
  Ensures-settle (ok v) weaken = record { run = λ s h. h }
  Ensures-settle (err e) weaken = record { run = λ s h. weaken s h }

module _ {ℓ} {State V : Type ℓ} {Failed P Q : State → Type ℓ} where
  pub Ensures-fail :
      (e : Error) → ((s : State) → P s → Failed s) → Ensures Failed P (fail {Value = V} e) Q
  unfolding fail
  Ensures-fail e weaken = record { run = λ s h. weaken s h }

  pub Ensures-if :
      (b : Bool) (m n : Task State V)
      → Ensures Failed P m Q
      → Ensures Failed P n Q
      → Ensures Failed P (if b then m else n) Q
  Ensures-if true m n km kn = km
  Ensures-if false m n km kn = kn

  -- A weaker promise.
  pub Ensures-weaken :
      {m : Task State V}
      → Ensures Failed P m Q
      → {R : State → Type ℓ} → ((s : State) → Q s → R s)
      → Ensures Failed P m R
  Ensures-weaken {m} k {R} weaken = record { run = λ s h. outcome (m s) (k.run s h) }
    where
      outcome : (o : Result V × State) → Outcome Failed Q o → Outcome Failed R o
      outcome (err e, s) h = h
      outcome (ok v, s) h = weaken s h

module _ {ℓ} {State V W : Type ℓ} {Failed Q R : State → Type ℓ} where
  Outcome-resume :
      (o : Result V × State) (next : V → Task State W)
      → Outcome Failed Q o
      → ((v : V) → Ensures Failed Q (next v) R)
      → Outcome Failed R (resume o next)
  Outcome-resume (err e, s) next h k = h
  Outcome-resume (ok v, s) next h k = (k v).run s h

module _ {ℓ} {State V W : Type ℓ} {Failed P Q R : State → Type ℓ} where
  pub Ensures-bind :
      {m : Task State V} {next : V → Task State W}
      → Ensures Failed P m Q
      → ((v : V) → Ensures Failed Q (next v) R)
      → Ensures Failed P (m >>= next) R
  unfolding ◌>>=◌
  Ensures-bind {m} {next} k ks = record { run = λ s h. Outcome-resume (m s) next (k.run s h) ks }

  pub Ensures-then :
      {m : Task State V} {next : Task State W}
      → Ensures Failed P m Q
      → Ensures Failed Q next R
      → Ensures Failed P (m >> next) R
  unfolding ◌>>◌
  Ensures-then {m} {next} k ks = record {
    run = λ s h. Outcome-resume (m s) (λ _. next) (k.run s h) (λ _. ks);
  }

Outcome-left {ℓ} :
    {State V : Type ℓ} (P : State → Type ℓ) (o : Result V × State) → Outcome P P o → P o.1
Outcome-left P (err e, s) h = h
Outcome-left P (ok v, s) h = h

-- One predicate for both outcomes holds of the state that is left.
pub Ensures-left {ℓ} :
    {State V : Type ℓ} {P Q : State → Type ℓ} {m : Task State V}
    → Ensures P Q m P
    → (s : State) → Q s
    → P (m s).1
Ensures-left {P = P} {m = m} k s h = Outcome-left P (m s) (k.run s h)
