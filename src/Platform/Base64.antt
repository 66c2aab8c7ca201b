-- ===== src/Platform/Base64.antt =====
-- btoa and atob: the base64 of a binary string, and the forgiving decoder (white space is dropped, at
-- most two `=` are dropped from a text whose length divides by 4, bits that are left over are ignored).
use widespread_logos.Prelude.{
  ℕ, ◌+◌, ◌*◌, ◌/◌, ◌%◌, ◌<◌, ◌≡◌, refl, ap, ◌∙◌, sym, Bool, true, false, not, ◌||◌, ◌&&◌, Option,
  none, some, List, [], ◌∷◌, ◌++◌, map, Text, Bytes, codes, length, get_elem?, All, length-append,
  length-map, All-reverse, Result, ok, err, operation_error, ◌==◌, if◌then◌else◌, all_below,
  all_below_sound, ==_iff, arith,
}
use mathlib.Core.List.{reverse, reverse-append, reverse-reverse}
use mathlib.Mathlib.Data.List.Basic.{map-reverse_aux}
use widespread_logos.Prelude.Errors.{◌>>=◌}
use widespread_logos.Utf8.RoundTrip.{IsByte}

alphabet64 : Text
alphabet64 = codes "ABCDEFGHIJKLMNOPQRSTUVWXYZabcdefghijklmnopqrstuvwxyz0123456789+/"

unfoldable pub char64 : ℕ → ℕ
unfolding alphabet64
char64 v = elim (get_elem? alphabet64 v) [ some c ↦ c | none ↦ b'=' ]

position64 : ℕ → ℕ → Text → Option ℕ
position64 u i [] = none
position64 u i (c ∷ cs) = if c == u then some i else position64 u (i + 1) cs

unfoldable pub index64 : ℕ → Option ℕ
unfolding position64 alphabet64
index64 u = position64 u 0 alphabet64

unfoldable pub sextets : Bytes → List ℕ
sextets [] = []
sextets (a ∷ []) = a / 4 ∷ a % 4 * 16 ∷ []
sextets (a ∷ b ∷ []) = a / 4 ∷ (a % 4 * 16 + b / 16) ∷ b % 16 * 4 ∷ []
sextets (a ∷ b ∷ c ∷ s) = a / 4 ∷ (a % 4 * 16 + b / 16) ∷ (b % 16 * 4 + c / 64) ∷ c % 64 ∷ sextets s

unfoldable pub padding : Bytes → Text
padding [] = []
padding (a ∷ []) = codes "=="
padding (a ∷ b ∷ []) = codes "="
padding (a ∷ b ∷ c ∷ s) = padding s

unfoldable pub btoa : Bytes → Text
unfolding sextets padding char64
btoa s = map char64 (sextets s) ++ padding s

unfoldable pub is_blank : ℕ → Bool
is_blank u = (u == 32) || (u == 9) || (u == 10) || (u == 12) || (u == 13)

unfoldable pub drop_blanks : Text → Text
unfolding is_blank
drop_blanks [] = []
drop_blanks (u ∷ s) = if is_blank u then drop_blanks s else u ∷ drop_blanks s

unfoldable pub drop_pad : Text → Text
drop_pad [] = []
drop_pad (u ∷ s) = if u == b'=' then s else u ∷ s

unfoldable pub unpadded : Text → Text
unfolding drop_pad
unpadded s = if length s % 4 == 0 then reverse (drop_pad (drop_pad (reverse s))) else s

unfoldable pub read_sextets : Text → Result (List ℕ)
unfolding index64
read_sextets [] = ok []
read_sextets (u ∷ s) = elim (index64 u) [
  | none ↦ err operation_error
  | some v ↦ read_sextets s >>= λ vs. ok (v ∷ vs)
]

unfoldable pub pack : List ℕ → Bytes
pack [] = []
pack (w ∷ []) = []
pack (w ∷ x ∷ []) = (w * 4 + x / 16) ∷ []
pack (w ∷ x ∷ y ∷ []) = (w * 4 + x / 16) ∷ (x % 16 * 16 + y / 4) ∷ []
pack (w ∷ x ∷ y ∷ z ∷ s) = (w * 4 + x / 16) ∷ (x % 16 * 16 + y / 4) ∷ (y % 4 * 64 + z) ∷ pack s

unfoldable pub atob : Text → Result Bytes
unfolding drop_blanks unpadded read_sextets pack
atob s =
    let t = unpadded (drop_blanks s) in
    if length t % 4 == 1 then err operation_error else read_sextets t >>= λ vs. ok (pack vs)

abbrev Below64 : List ℕ → Type 0
Below64 vs = All (λ v. v < 64) vs

sextets-Below64 : (s : Bytes) → All IsByte s → Below64 (sextets s)
unfolding sextets
sextets-Below64 [] h = tt
sextets-Below64 (a ∷ []) h = ground arith
sextets-Below64 (a ∷ b ∷ []) h = ground arith
sextets-Below64 (a ∷ b ∷ c ∷ s) (ha, (hb, (hc, hs))) =
    (omega arith, (omega arith, (omega arith, (omega arith, sextets-Below64 s hs))))

pack-sextets : (s : Bytes) → All IsByte s → pack (sextets s) ≡ s
unfolding pack sextets
pack-sextets [] h = refl
pack-sextets (a ∷ []) (ha, h) = ap (λ x. x ∷ []) (omega arith)
pack-sextets (a ∷ b ∷ []) (ha, (hb, h)) =
    let e1 : a / 4 * 4 + (a % 4 * 16 + b / 16) / 16 ≡ a = omega arith in
    let e2 : (a % 4 * 16 + b / 16) % 16 * 16 + b % 16 * 4 / 4 ≡ b = omega arith in rw (e1, e2) refl
pack-sextets (a ∷ b ∷ c ∷ s) (ha, (hb, (hc, hs))) =
    let e1 : a / 4 * 4 + (a % 4 * 16 + b / 16) / 16 ≡ a = omega arith in
    let e2 : (a % 4 * 16 + b / 16) % 16 * 16 + (b % 16 * 4 + c / 64) / 4 ≡ b = omega arith in
    let e3 : (b % 16 * 4 + c / 64) % 4 * 64 + c % 64 ≡ c = omega arith in
    rw (e1, e2, e3) (ap (λ t. a ∷ b ∷ c ∷ t) (pack-sextets s hs))

length-sextets : (s : Bytes) → (length (sextets s) + length (padding s)) % 4 ≡ 0
unfolding sextets padding
length-sextets [] = refl
length-sextets (a ∷ []) = refl
length-sextets (a ∷ b ∷ []) = refl
length-sextets (a ∷ b ∷ c ∷ s) = let rest = length-sextets s in omega arith

sextets-ne-one : (s : Bytes) → (length (sextets s) % 4 == 1) ≡ false
unfolding sextets
sextets-ne-one [] = refl
sextets-ne-one (a ∷ []) = refl
sextets-ne-one (a ∷ b ∷ []) = refl
sextets-ne-one (a ∷ b ∷ c ∷ s) = let rest = sextets-ne-one s in ground arith

is_some_of : ℕ → Option ℕ → Bool
is_some_of d none = false
is_some_of d (some v) = v == d

index_table : all_below 64 (λ d. is_some_of d (index64 (char64 d))) ≡ true
unfolding all_below is_some_of index64 char64 alphabet64
index_table = refl

plain_table : all_below 64 (λ d. not (is_blank (char64 d)) && not (char64 d == b'=')) ≡ true
unfolding all_below is_blank char64 alphabet64
plain_table = refl

module _ (d : ℕ) (h : d < 64) where
  index64-char64 : index64 (char64 d) ≡ some d
  unfolding is_some_of
  index64-char64 = of_test (index64 (char64 d)) (all_below_sound 64 _ d index_table h)
    where
      of_test : (o : Option ℕ) → is_some_of d o ≡ true → o ≡ some d
      of_test none e = cc
      of_test (some v) e = ap some ((==_iff v d).0 e)

  char64-unblank : is_blank (char64 d) ≡ false
  char64-unblank = ground (arith, all_below_sound 64 _ d plain_table h)

  char64-unpadded : (char64 d == b'=') ≡ false
  char64-unpadded = ground (arith, all_below_sound 64 _ d plain_table h)

drop_blanks-append :
    (vs : List ℕ) (t : Text)
    → Below64 vs
    → drop_blanks (map char64 vs ++ t) ≡ map char64 vs ++ drop_blanks t
unfolding drop_blanks
drop_blanks-append [] t h = refl
drop_blanks-append (v ∷ vs) t (k, h) =
    rw (char64-unblank v k, drop_blanks) (ap (char64 v ∷◌) (drop_blanks-append vs t h))

drop_blanks-padding : (s : Bytes) → drop_blanks (padding s) ≡ padding s
unfolding drop_blanks padding is_blank
drop_blanks-padding [] = refl
drop_blanks-padding (a ∷ []) = refl
drop_blanks-padding (a ∷ b ∷ []) = refl
drop_blanks-padding (a ∷ b ∷ c ∷ s) = drop_blanks-padding s

drop_pad-digits : (vs : List ℕ) → Below64 vs → drop_pad (map char64 vs) ≡ map char64 vs
unfolding drop_pad
drop_pad-digits [] h = refl
drop_pad-digits (v ∷ vs) (k, h) = rw (char64-unpadded v k, drop_pad) refl

-- No more than two `=` stand before a run of digits.
drop_pad-padding :
    (s : Bytes) (vs : List ℕ)
    → Below64 vs
    → drop_pad (drop_pad (reverse (padding s) ++ map char64 vs)) ≡ map char64 vs
unfolding padding drop_pad
drop_pad-padding [] vs h = rw (drop_pad-digits vs h) (drop_pad-digits vs h)
drop_pad-padding (a ∷ []) vs h = refl
drop_pad-padding (a ∷ b ∷ []) vs h = drop_pad-digits vs h
drop_pad-padding (a ∷ b ∷ c ∷ s) vs h = drop_pad-padding s vs h

reverse-map : (vs : List ℕ) → reverse (map char64 vs) ≡ map char64 (reverse vs)
reverse-map vs = sym (map-reverse_aux char64 vs [])

unpadded-btoa : (s : Bytes) → All IsByte s → unpadded (btoa s) ≡ map char64 (sextets s)
unfolding unpadded btoa
unpadded-btoa s h =
    let vs = sextets s in
    let size : (length (map char64 vs ++ padding s) % 4 == 0) ≡ true =
      ground (
        arith,
        length-append (map char64 vs) (padding s),
        length-map vs char64,
        length-sextets s,
      ) in
    let low = All-reverse (λ v. v < 64) vs (sextets-Below64 s h) in
    rw (size, reverse-append (map char64 vs) (padding s), reverse-map vs)
      (rw (drop_pad-padding s (reverse vs) low)
        (rw (reverse-map (reverse vs), reverse-reverse vs) refl))

read_sextets-map : (vs : List ℕ) → Below64 vs → read_sextets (map char64 vs) ≡ ok vs
unfolding read_sextets
read_sextets-map [] h = refl
read_sextets-map (v ∷ vs) (k, h) =
    rw (index64-char64 v k, read_sextets) (rw (read_sextets-map vs h) refl)

-- A binary string comes back from its base64.
pub atob-btoa : (s : Bytes) → All IsByte s → atob (btoa s) ≡ ok s
unfolding atob btoa
atob-btoa s h =
    let blanks : drop_blanks (btoa s) ≡ btoa s =
      drop_blanks-append (sextets s) (padding s) (sextets-Below64 s h)
      ∙ ap (λ t. map char64 (sextets s) ++ t) (drop_blanks-padding s) in
    rw (blanks, unpadded-btoa s h, length-map (sextets s) char64, sextets-ne-one s)
      (rw (read_sextets-map (sextets s) (sextets-Below64 s h)) (ap ok (pack-sextets s h)))
