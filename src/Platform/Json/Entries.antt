-- ===== src/Platform/Json/Entries.antt =====
-- Reading back what was set in an object.
use widespread_logos.Prelude.{
  false, Text, text_eq, text_eq_refl, text_eq_iff, ◌≡◌, refl, Bool-cases, inl, inr,
}
use widespread_logos.Platform.Json.{Value, Fields, empty, field, find, set_field}

pub find-set_field : (k : Text) (v : Value) (fs : Fields) → find k (set_field k v fs) ≡ v
unfolding find set_field
find-set_field k v empty = rw (text_eq_refl k) refl
find-set_field k v (field j w fs) = elim (Bool-cases (text_eq j k)) [
  | inl same ↦ rw (same, same) refl
  | inr other ↦ rw (other, other) (find-set_field k v fs)
]

pub find-set_other :
    (k j : Text) (v : Value) (fs : Fields)
    → text_eq k j ≡ false
    → find j (set_field k v fs) ≡ find j fs
unfolding find set_field
find-set_other k j v empty apart = rw apart refl
find-set_other k j v (field i w fs) apart = elim (Bool-cases (text_eq i k)) [
  | inl same ↦ rw (same, (text_eq_iff i k).0 same, apart) refl
  | inr other ↦ rw (other, find-set_other k j v fs apart) refl
]
