-- ===== src/Registry/Client/Trust.antt =====
-- Whom the overlay trusts.
use widespread_logos.Prelude.{
  ℕ, zero, suc, ◌≡◌, ◌↔◌, ◌⊎◌, inl, inr, refl, ap, true, Text, List, [], ◌∷◌, some, text_eq,
  text_eq_iff, text_eq_refl, Bool-cases, get_elem?, arith,
}
use widespread_logos.Registry.Entry.{Kind, deployer, third_party, RegistryEntry}
use widespread_logos.Registry.Client.{includes, endorse}

includes-found :
    (s : Text) (ts : List Text) → includes s ts ≡ true → (n : ℕ) × (get_elem? ts n ≡ some s)
unfolding includes
includes-found s [] h = cc
includes-found s (t ∷ ts) h = elim (Bool-cases (text_eq t s)) [
  | inl e ↦ (0, ap some ((text_eq_iff t s).0 e))
  | inr e ↦ let (n, found) = includes-found s ts (rw e at h) in (suc n, found)
]

found-includes :
    (s : Text) (ts : List Text) (n : ℕ) → get_elem? ts n ≡ some s → includes s ts ≡ true
unfolding includes
found-includes s [] zero e = cc
found-includes s [] (suc n) e = cc
found-includes s (t ∷ ts) zero e = let same : t ≡ s = cc in rw (same, text_eq_refl s) refl
found-includes s (t ∷ ts) (suc n) e = let rest = found-includes s ts n e in ground arith

-- An entry is endorsed as trusted exactly when it is a deployer's entry or its author is one of the
-- signers.
pub endorse-trusted :
    (entry : RegistryEntry) (signers : List Text)
    → ((endorse entry signers).trusted ≡ true)
      ↔ ((entry.kind ≡ deployer) ⊎ ((n : ℕ) × (get_elem? signers n ≡ some entry.author)))
unfolding endorse
endorse-trusted entry signers = by_kind entry.kind
  where
    by_kind :
        (k : Kind)
        → ((elim k [ deployer ↦ true | third_party ↦ includes entry.author signers ]) ≡ true)
          ↔ ((k ≡ deployer) ⊎ ((n : ℕ) × (get_elem? signers n ≡ some entry.author)))
    by_kind deployer = (λ e. inl refl, λ e. refl)
    by_kind third_party = (
      λ e. inr (includes-found entry.author signers e),
      λ e. elim e [ inl d ↦ cc | inr f ↦ found-includes entry.author signers f.0 f.1 ],
    )
