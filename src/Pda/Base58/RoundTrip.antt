-- ===== src/Pda/Base58/RoundTrip.antt =====
-- base58Encode and base58Decode are inverse to one another.
use widespread_logos.Prelude.{
  ℕ, zero, suc, ◌+◌, ◌<◌, ◌≡◌, ◌≢◌, refl, ap, ◌∙◌, List, [], ◌∷◌, ◌++◌, map, All, All-reverse,
  arith, Text, Bytes, text_eq, text_eq_iff, replicate, get_elem?, length, Bool-cases, Option, none,
  some, Result, ok, err, Bool, true, false, not, ◌==◌, ==_iff, if◌then◌else◌, all_below,
  all_below_sound, Option-cases, inl, inr,
}
use mathlib.Core.Path.{subst}
use mathlib.Core.List.{reverse, reverse-cons, append_assoc, append-nil, reverse-reverse}
use widespread_logos.Utf8.RoundTrip.{IsByte}
use widespread_logos.Platform.Digits.{value, IsCanonical}
use widespread_logos.Pda.Base58.{
  mul_add, alphabet, b58_char, position, b58_index, leading, after_leading, b58_digits, b58_text,
  base58_encode, b58_bytes, finish_decode, base58_decode,
}
use widespread_logos.Pda.Base58.Radix.{
  convert, convert-convert, IsCanonical-reverse_cons, IsCanonical-convert,
}

-- The character of a digit.
abbrev get_or : Option ℕ → ℕ
get_or none = 0
get_or (some c) = c

abbrev letter : ℕ → ℕ
letter d = get_or (get_elem? alphabet d)

abbrev is_some_of : ℕ → Option ℕ → Bool
is_some_of d none = false
is_some_of d (some v) = v == d

char_table : all_below 58 (λ d. text_eq (b58_char d) (letter d ∷ [])) ≡ true
unfolding all_below b58_char alphabet
char_table = refl

index_table : all_below 58 (λ d. is_some_of d (b58_index (letter d))) ≡ true
unfolding all_below b58_index alphabet
index_table = refl

one_table : all_below 58 (λ d. if d == 0 then true else not (letter d == b'1')) ≡ true
unfolding all_below alphabet
one_table = refl

module _ (d : ℕ) (h : d < 58) where
  b58_char-letter : b58_char d ≡ letter d ∷ []
  b58_char-letter = (text_eq_iff _ _).0 (all_below_sound 58 _ d char_table h)

  b58_index-letter : b58_index (letter d) ≡ some d
  b58_index-letter = of_test (b58_index (letter d)) (all_below_sound 58 _ d index_table h)
    where
      of_test : (o : Option ℕ) → is_some_of d o ≡ true → o ≡ some d
      of_test none e = cc
      of_test (some v) e = ap some ((==_iff v d).0 e)

  letter-ne-one : d ≢ 0 → letter d ≢ b'1'
  letter-ne-one ne e = ground (arith, all_below_sound 58 _ d one_table h)

abbrev Below58 : List ℕ → Type 0
Below58 ds = All (λ d. d < 58) ds

b58_text-map : (ds : List ℕ) → Below58 ds → b58_text ds ≡ map letter ds
unfolding b58_text
b58_text-map [] h = refl
b58_text-map (d ∷ ds) (k, h) = rw (b58_char-letter d k) (ap (letter d ∷◌) (b58_text-map ds h))

b58_bytes-map :
    (bs ds : List ℕ) → Below58 ds → b58_bytes bs (map letter ds) ≡ ok (convert 58 256 bs ds)
unfolding b58_bytes convert
b58_bytes-map bs [] h = refl
b58_bytes-map bs (d ∷ ds) (k, h) =
    rw (b58_index-letter d k, b58_bytes) (b58_bytes-map (mul_add 58 256 bs d) ds h)

b58_digits-convert : (ds : List ℕ) (bs : Bytes) → b58_digits ds bs ≡ convert 256 58 ds bs
unfolding b58_digits convert
b58_digits-convert ds [] = refl
b58_digits-convert ds (b ∷ bs) = b58_digits-convert (mul_add 256 58 ds b) bs

-- The first element, if there is one, is not `x`.
abbrev HeadNot : ℕ → List ℕ → Type 0
HeadNot x [] = Unit
HeadNot x (y ∷ ys) = y ≢ x

module _ (x : ℕ) where
  leading-replicate : (n : ℕ) (ys : List ℕ) → HeadNot x ys → leading x (replicate n x ++ ys) ≡ n
  unfolding leading
  leading-replicate zero [] h = refl
  leading-replicate zero (y ∷ ys) h = ground arith
  leading-replicate (suc n) ys h = ground (arith, leading-replicate n ys h)

  after_leading-replicate :
      (n : ℕ) (ys : List ℕ) → HeadNot x ys → after_leading x (replicate n x ++ ys) ≡ ys
  unfolding after_leading
  after_leading-replicate zero [] h = refl
  after_leading-replicate zero (y ∷ ys) h = ground arith
  after_leading-replicate (suc n) ys h = ground (arith, after_leading-replicate n ys h)

  leading_split : (ys : List ℕ) → replicate (leading x ys) x ++ after_leading x ys ≡ ys
  unfolding leading after_leading
  leading_split [] = refl
  leading_split (y ∷ ys) = ground (arith, leading_split ys)

  after_leading-HeadNot : (ys : List ℕ) → HeadNot x (after_leading x ys)
  unfolding after_leading
  after_leading-HeadNot [] = tt
  after_leading-HeadNot (y ∷ ys) = ground (arith, after_leading-HeadNot ys)

  after_leading-All :
      (base : ℕ) (ys : List ℕ) → All (λ y. y < base) ys → All (λ y. y < base) (after_leading x ys)
  unfolding after_leading
  after_leading-All base [] h = tt
  after_leading-All base (y ∷ ys) (k, h) = ground (arith, after_leading-All base ys h)

-- The most significant digit is not zero.
HeadNot-reverse :
    (base d : ℕ) (ds rest : List ℕ)
    → IsCanonical base (d ∷ ds)
    → HeadNot 0 (reverse (d ∷ ds) ++ rest)
unfolding value
HeadNot-reverse base d [] rest (_, p, _) = λ e. absurd (omega arith)
HeadNot-reverse base d (c ∷ ds) rest (_, _, h) =
    rw (reverse-cons d (c ∷ ds), append_assoc) (HeadNot-reverse base c ds (d ∷ rest) h)

IsCanonical-HeadNot : (base : ℕ) (ds : List ℕ) → IsCanonical base ds → HeadNot 0 (reverse ds)
IsCanonical-HeadNot base [] h = tt
IsCanonical-HeadNot base (d ∷ ds) h = rw append-nil at (HeadNot-reverse base d ds [] h)

HeadNot-IsCanonical :
    (base : ℕ) (xs : List ℕ) → All (λ x. x < base) xs → HeadNot 0 xs → IsCanonical base (reverse xs)
HeadNot-IsCanonical base [] h n = tt
HeadNot-IsCanonical base (x ∷ xs) h n = IsCanonical-reverse_cons base x xs h n

IsCanonical-All : (base : ℕ) (ds : List ℕ) → IsCanonical base ds → All (λ d. d < base) ds
IsCanonical-All base [] h = tt
IsCanonical-All base (d ∷ ds) (k, _, h) = (k, IsCanonical-All base ds h)

HeadNot-map : (ds : List ℕ) → Below58 ds → HeadNot 0 ds → HeadNot b'1' (map letter ds)
HeadNot-map [] h n = tt
HeadNot-map (d ∷ ds) (k, h) n = letter-ne-one d k n

-- Some digits, most significant first and the first of them not zero, behind `n` ones.
base58_decode-digits :
    (n : ℕ) (ds : List ℕ)
    → Below58 ds
    → HeadNot 0 ds
    → base58_decode (replicate n b'1' ++ map letter ds)
      ≡ ok (replicate n 0 ++ reverse (convert 58 256 [] ds))
unfolding base58_decode
base58_decode-digits n ds h k =
    let head = HeadNot-map ds h k in
    rw
      (
        leading-replicate b'1' n (map letter ds) head,
        after_leading-replicate b'1' n (map letter ds) head,
      )
      (rw (b58_bytes-map [] ds h) refl)

base58_encode-bytes :
    (n : ℕ) (bs : Bytes)
    → All IsByte bs
    → HeadNot 0 bs
    → base58_encode (replicate n 0 ++ bs)
      ≡ replicate n b'1' ++ map letter (reverse (convert 256 58 [] bs))
unfolding base58_encode
base58_encode-bytes n bs h k =
    rw (leading-replicate 0 n bs k, after_leading-replicate 0 n bs k)
      (rw (b58_digits-convert [] bs) (
        rw
          (b58_text-map _ (
            All-reverse _ _ (
              IsCanonical-All 58 _
                (IsCanonical-convert 256 58 (omega arith) [] bs (omega arith) tt))))
          refl))

split_decode :
    (n : ℕ) (bs : Bytes)
    → All IsByte bs
    → HeadNot 0 bs
    → base58_decode (base58_encode (replicate n 0 ++ bs)) ≡ ok (replicate n 0 ++ bs)
split_decode n bs h k =
    let canonical = IsCanonical-convert 256 58 (omega arith) [] bs (omega arith) tt in
    ap base58_decode (base58_encode-bytes n bs h k)
    ∙ base58_decode-digits n (reverse (convert 256 58 [] bs))
        (All-reverse _ _ (IsCanonical-All 58 _ canonical)) (IsCanonical-HeadNot 58 _ canonical)
    ∙ ap (λ x. ok (replicate n 0 ++ reverse x))
        (convert-convert 256 58 bs (omega arith) (omega arith) (HeadNot-IsCanonical 256 bs h k))
    ∙ ap (λ x. ok (replicate n 0 ++ x)) (reverse-reverse bs)

-- Decoding what was encoded gives the bytes back, leading zeros included.
pub base58_decode-base58_encode :
    (bytes : Bytes) → All IsByte bytes → base58_decode (base58_encode bytes) ≡ ok bytes
base58_decode-base58_encode bytes h =
    subst (λ b. base58_decode (base58_encode b) ≡ ok b) (leading_split 0 bytes)
      (split_decode (leading 0 bytes) (after_leading 0 bytes) (after_leading-All 0 256 bytes h)
        (after_leading-HeadNot 0 bytes))

-- An index that the table returns is the position of the character.
position_sound :
    (u i : ℕ) (cs : Text) (k : ℕ)
    → position u i cs ≡ some k
    → (j : ℕ) × (k ≡ i + j) × (get_elem? cs j ≡ some u)
unfolding position
position_sound u i [] k h = cc
position_sound u i (c ∷ cs) k h = elim (Bool-cases (c == u)) [
  | inl same ↦ (0, ground arith, ground arith)
  | inr other ↦
      let (j, e, found) = position_sound u (i + 1) cs k (ground arith) in
      (suc j, omega arith, found)
]

get_elem?-lt : (cs : Text) (j : ℕ) {u : ℕ} → get_elem? cs j ≡ some u → j < length cs
get_elem?-lt [] j h = cc
get_elem?-lt (c ∷ cs) zero h = omega arith
get_elem?-lt (c ∷ cs) (suc j) h = omega (arith, get_elem?-lt cs j h)

b58_index_sound : (u v : ℕ) → b58_index u ≡ some v → (v < 58) × (letter v ≡ u)
unfolding b58_index
b58_index_sound u v h =
    let (j, e, found) = position_sound u 0 alphabet v h in
    let same : v ≡ j = omega arith in
    (rw same (unfold alphabet in get_elem?-lt alphabet j found), rw same (ap get_or found))

b58_bytes_sound :
    (bs : List ℕ) (t : Text) (out : List ℕ)
    → b58_bytes bs t ≡ ok out
    → (ds : List ℕ) × (map letter ds ≡ t) × Below58 ds × (convert 58 256 bs ds ≡ out)
unfolding b58_bytes convert
b58_bytes_sound bs [] out h = ([], refl, tt, cc)
b58_bytes_sound bs (u ∷ t) out h = elim (Option-cases (b58_index u)) [
  | inl missed ↦ absurd (cc (rw (missed, b58_bytes) at h))
  | inr (v, found) ↦
      let (ds, text, below, result) =
        b58_bytes_sound (mul_add 58 256 bs v) t out (rw (found, b58_bytes) at h) in
      let (small, same) = b58_index_sound u v found in (v ∷ ds, cc, (small, below), result)
]

HeadNot-digits : (ds : List ℕ) → HeadNot b'1' (map letter ds) → HeadNot 0 ds
HeadNot-digits [] h = tt
HeadNot-digits (d ∷ ds) h = λ e. h (ap letter e ∙ (unfold alphabet in refl))

finish_decode-eq-ok :
    (n : ℕ) (r : Result (List ℕ)) (bytes : Bytes)
    → finish_decode n r ≡ ok bytes
    → (out : List ℕ) × (r ≡ ok out) × (replicate n 0 ++ reverse out ≡ bytes)
unfolding finish_decode
finish_decode-eq-ok n (ok out) bytes h = (out, refl, cc)
finish_decode-eq-ok n (err e) bytes h = cc

encode_split :
    (n : ℕ) (ds : List ℕ)
    → Below58 ds
    → HeadNot 0 ds
    → base58_encode (replicate n 0 ++ reverse (convert 58 256 [] ds))
      ≡ replicate n b'1' ++ map letter ds
encode_split n ds h k =
    let canonical = IsCanonical-convert 58 256 (omega arith) [] ds (omega arith) tt in
    base58_encode-bytes n (reverse (convert 58 256 [] ds))
      (All-reverse _ _ (IsCanonical-All 256 _ canonical)) (IsCanonical-HeadNot 256 _ canonical)
    ∙ ap (λ x. replicate n b'1' ++ map letter (reverse x))
        (convert-convert 58 256 ds (omega arith) (omega arith) (HeadNot-IsCanonical 58 ds h k))
    ∙ ap (λ x. replicate n b'1' ++ map letter x) (reverse-reverse ds)

-- A text that decodes is the encoding of what it decodes to: no two texts decode to the same bytes.
pub base58_encode-base58_decode :
    (s : Text) (bytes : Bytes) → base58_decode s ≡ ok bytes → base58_encode bytes ≡ s
unfolding base58_decode
base58_encode-base58_decode s bytes h =
    let n = leading b'1' s in
    let (out, decoded, same) =
      finish_decode-eq-ok n (b58_bytes [] (after_leading b'1' s)) bytes h in
    let (ds, text, below, result) = b58_bytes_sound [] (after_leading b'1' s) out decoded in
    let head = rw (← text) at (after_leading-HeadNot b'1' s) in
    rw (← same, ← result)
      (encode_split n ds below (HeadNot-digits ds head)
        ∙ ap (λ t. replicate n b'1' ++ t) text
        ∙ leading_split b'1' s)
