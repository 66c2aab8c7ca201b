-- ===== src/Prelude/Tasks.antt =====
-- An `async` method: what it does to the state that it can see, and what its promise comes to.
pub mod Triples
pub mod Inversion
use widespread_logos.Prelude.Errors.{Error, Result, ok, err}

abbrev pub Task {ℓ} : Type ℓ → Type ℓ → Type ℓ
Task State Value = State → Result Value × State

unfoldable pub done {ℓ} : {State Value : Type ℓ} → Value → Task State Value
done v s = (ok v, s)

unfoldable pub fail {ℓ} : {State Value : Type ℓ} → Error → Task State Value
fail thrown s = (err thrown, s)

-- A call that does not touch the state.
unfoldable pub settle {ℓ} : {State Value : Type ℓ} → Result Value → Task State Value
settle r s = (r, s)

-- What follows an `await`: nothing, if the promise was rejected.
abbrev pub resume {ℓ} :
    {State V W : Type ℓ} → Result V × State → (V → Task State W) → Result W × State
resume (err thrown, s) next = (err thrown, s)
resume (ok v, s) next = next v s

infixl 5 ◌>>=◌ ◌>>◌
unfoldable pub ◌>>=◌ {ℓ} : {State V W : Type ℓ} → Task State V → (V → Task State W) → Task State W
(m >>= next) s = resume (m s) next

unfoldable pub ◌>>◌ {ℓ} : {State V W : Type ℓ} → Task State V → Task State W → Task State W
(m >> k) s = resume (m s) (λ _. k)
