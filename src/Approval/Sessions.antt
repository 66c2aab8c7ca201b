-- ===== src/Approval/Sessions.antt =====
-- MemorySessionStore: the session grants, as the Map from a scope to the time at which it ends.
use widespread_logos.Prelude.{
  ℕ, ◌<◌, ◌≤◌, ◌≡◌, refl, Option, none, some, List, [], ◌∷◌, Text, text_eq, text_eq_iff, ltb,
  if◌then◌else◌, arith,
}

abbrev pub Grants : Type 0
Grants = List (Text × ℕ)

unfoldable pub find : Text → Grants → Option ℕ
find k [] = none
find k ((j, t) ∷ g) = if text_eq j k then some t else find k g

unfoldable pub delete : Text → Grants → Grants
delete k [] = []
delete k ((j, t) ∷ g) = if text_eq j k then delete k g else (j, t) ∷ delete k g

-- `set(scope, expiresAt)`
unfoldable pub set : Text → ℕ → Grants → Grants
set k t [] = (k, t) ∷ []
set k t ((j, u) ∷ g) = if text_eq j k then (j, t) ∷ g else (j, u) ∷ set k t g

-- `get(scope)` at the time `now`: an entry that has ended is removed, and not returned.
unfoldable pub get : Text → ℕ → Grants → Option ℕ × Grants
unfolding find delete
get k now g = elim (find k g) [
  | none ↦ (none, g)
  | some t ↦ if ltb t now then (none, delete k g) else (some t, g)
]

pub find-set :
    (k j : Text) (t : ℕ) (g : Grants)
    → find j (set k t g) ≡ (if text_eq k j then some t else find j g)
unfolding find set
find-set k j t [] = refl
find-set k j t ((i, u) ∷ g) =
    ground (arith, text_eq_iff k j, text_eq_iff i k, text_eq_iff i j, find-set k j t g)

pub find-delete :
    (k j : Text) (g : Grants) → find j (delete k g) ≡ (if text_eq k j then none else find j g)
unfolding find delete
find-delete k j [] = ground arith
find-delete k j ((i, u) ∷ g) =
    ground (arith, text_eq_iff k j, text_eq_iff i k, text_eq_iff i j, find-delete k j g)

-- A grant that `get` returns was set and has not ended.
pub get-eq-some :
    (k : Text) (now t : ℕ) (g : Grants) → (get k now g).0 ≡ some t → (find k g ≡ some t) × (now ≤ t)
unfolding get
get-eq-some k now t g h = ground arith

-- Afterwards the store has what it had, but for an entry that had ended.
pub find-get :
    (k j : Text) (now t : ℕ) (g : Grants) → find j (get k now g).1 ≡ some t → find j g ≡ some t
unfolding get
find-get k j now t g h = ground (arith, find-delete k j g)

pub get-live :
    (k : Text) (now t : ℕ) (g : Grants) → find k g ≡ some t → now ≤ t → get k now g ≡ (some t, g)
unfolding get
get-live k now t g h p = ground arith

pub get-absent : (k : Text) (now : ℕ) (g : Grants) → find k g ≡ none → get k now g ≡ (none, g)
unfolding get
get-absent k now g h = ground arith

-- An ended entry is gone.
pub get-ended :
    (k : Text) (now t : ℕ) (g : Grants)
    → find k g ≡ some t
    → t < now
    → get k now g ≡ (none, delete k g)
unfolding get
get-ended k now t g h p = ground arith
