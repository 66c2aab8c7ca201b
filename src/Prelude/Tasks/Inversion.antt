-- ===== src/Prelude/Tasks/Inversion.antt =====
-- A method that returned: its parts returned.
use mathlib.Core.Path.{◌≡◌, refl}
use widespread_logos.Prelude.Errors.{Result, ok, err}
use widespread_logos.Prelude.Tasks.{Task, settle, resume, ◌>>=◌, ◌>>◌}

module _ {ℓ} {State V W : Type ℓ} where
  resume-inversion :
      (o : Result V × State) (next : V → Task State W) {w : W} {after : State}
      → resume o next ≡ (ok w, after)
      → (v : V) × (middle : State) × (o ≡ (ok v, middle)) × (next v middle ≡ (ok w, after))
  resume-inversion (err e, s) next returned = cc
  resume-inversion (ok v, s) next returned = (v, s, refl, returned)

  pub >>=-inversion :
      (m : Task State V) (next : V → Task State W) {s : State} {w : W} {after : State}
      → (m >>= next) s ≡ (ok w, after)
      → (v : V) × (middle : State) × (m s ≡ (ok v, middle)) × (next v middle ≡ (ok w, after))
  unfolding ◌>>=◌
  >>=-inversion m next {s} returned = resume-inversion (m s) next returned

  pub >>-inversion :
      (m : Task State V) (next : Task State W) {s : State} {w : W} {after : State}
      → (m >> next) s ≡ (ok w, after)
      → (v : V) × (middle : State) × (m s ≡ (ok v, middle)) × (next middle ≡ (ok w, after))
  unfolding ◌>>◌
  >>-inversion m next {s} returned = resume-inversion (m s) (λ _. next) returned

pub settle-inversion {ℓ} :
    {State V : Type ℓ} (r : Result V) {s after : State} {v : V}
    → settle r s ≡ (ok v, after)
    → (r ≡ ok v) × (s ≡ after)
unfolding settle
settle-inversion (err e) returned = cc
settle-inversion (ok v) returned = (cc, cc)
