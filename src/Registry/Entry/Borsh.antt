-- ===== src/Registry/Entry/Borsh.antt =====
-- The borsh form of an entry, as the registry program writes it, and that it is decoded.
use widespread_logos.Prelude.{
  ℕ, zero, suc, ◌+◌, ◌-◌, ◌*◌, ◌/◌, ◌%◌, ◌^◌, ◌<◌, ◌≤◌, ◌≡◌, refl, sym, ap, ◌∙◌, some, List, [],
  ◌∷◌, ◌++◌, Text, Bytes, pos, ◌+ℤ◌, to_int32, length, length-drop, length-append, take, drop,
  take-append, drop-append, get_elem?, ok, arith, ◌==◌, if◌then◌else◌,
}
use mathlib.Core.List.{append_assoc}
use native.Mathlib.Numerals.{add-one}
use native.Mathlib.Nat.{
  min-eq_left, mul_assoc, mul_comm, add-mul, pow-succ', two-pow-succ, zero-mul, zero-add, suc-add,
}
use widespread_logos.Utf8.{utf8_encode, IsPlain}
use widespread_logos.Utf8.RoundTrip.{utf8_decode-utf8_encode}
use widespread_logos.Pda.Base58.{base58_encode}
use widespread_logos.Risc0.{word_le}
use widespread_logos.Registry.Entry.{
  EntryFields, byte_at, or_zero, slice_index, slice, take_read, len_read, decoded, str_read,
  u64_read, deployer, third_party, kind_of, fields_read, decode_entry,
}

-- `k` little-endian bytes of a number.
abbrev pub le_bytes : ℕ → ℕ → Bytes
le_bytes zero n = []
le_bytes (suc k) n = n % 256 ∷ le_bytes k (n / 256)

abbrev pub borsh_str : Text → Bytes
borsh_str s = le_bytes 4 (length (utf8_encode s)) ++ utf8_encode s

abbrev pub borsh_fields : EntryFields → Bytes
borsh_fields f =
    borsh_str f.name
    ++ (borsh_str f.version
        ++ (borsh_str f.description
            ++ (borsh_str f.tags
                ++ (borsh_str f.idl_cid
                    ++ (borsh_str f.source_cid
                        ++ (borsh_str f.repo_url
                            ++ (borsh_str f.commit ++ borsh_str f.build_config)))))))

-- The offset `n` stands before `rest`.
abbrev At : Bytes → ℕ → Bytes → Type 0
At bytes n rest = (drop n bytes ≡ rest) × (n ≤ length bytes)

pos_add : (a b : ℕ) → pos a +ℤ pos b ≡ pos (a + b)
unfolding ◌+ℤ◌
pos_add a b = ground arith

module _ {ℓ} {A : Type ℓ} where
  drop-suc :
      (xs : List A) (n : ℕ) {x : A} {rest : List A} → drop n xs ≡ x ∷ rest → drop (suc n) xs ≡ rest
  drop-suc [] zero h = cc
  drop-suc [] (suc n) h = cc
  drop-suc (y ∷ ys) zero h = cc
  drop-suc (y ∷ ys) (suc n) h = drop-suc ys n h

  get_elem?-drop :
      (xs : List A) (n : ℕ) {x : A} {rest : List A} → drop n xs ≡ x ∷ rest → get_elem? xs n ≡ some x
  get_elem?-drop [] zero h = cc
  get_elem?-drop [] (suc n) h = cc
  get_elem?-drop (y ∷ ys) zero h = cc
  get_elem?-drop (y ∷ ys) (suc n) h = get_elem?-drop ys n h

  drop-nil : (n : ℕ) → drop {A = A} n [] ≡ []
  drop-nil zero = refl
  drop-nil (suc n) = refl

  drop-drop : (xs : List A) (n k : ℕ) → drop k (drop n xs) ≡ drop (n + k) xs
  drop-drop xs zero k = ap (λ m. drop m xs) (sym (zero-add k))
  drop-drop [] (suc n) k = drop-nil k ∙ sym (drop-nil (suc n + k))
  drop-drop (y ∷ ys) (suc n) k = drop-drop ys n k ∙ ap (λ m. drop m (y ∷ ys)) (sym (suc-add n k))

-- One byte, and a run of bytes.
At-byte :
    (bytes : Bytes) (n b : ℕ) (rest : Bytes)
    → At bytes n (b ∷ rest)
    → (byte_at bytes (pos n) ≡ some b) × At bytes (n + 1) rest
unfolding byte_at
At-byte bytes n b rest (e, h) = (
  get_elem?-drop bytes n e,
  (rw add-one (drop-suc bytes n e), omega (arith, ap length e, length-drop n bytes)),
)

At-run :
    (bytes : Bytes) (n : ℕ) (xs rest : Bytes)
    → At bytes n (xs ++ rest)
    → (take_read bytes (pos (length xs)) (pos n) ≡ (xs, pos (n + length xs)))
      × At bytes (n + length xs) rest
unfolding take_read slice slice_index
At-run bytes n xs rest (e, h) =
    let size : n + length xs ≤ length bytes =
      omega (arith, ap length e, length-drop n bytes, length-append xs rest) in
    (
      rw (pos_add n (length xs), min-eq_left h, min-eq_left size)
          (ap (λ ys. (ys, pos (n + length xs)))
            (ap (λ ys. take (n + length xs - n) ys) e ∙ take-append xs rest _ (omega arith))),
      (
        sym (drop-drop bytes n (length xs)) ∙ ap (drop (length xs)) e ∙ drop-append xs rest _ refl,
        size,
      ),
    )

pub int_of_bytes :
    (len : ℕ)
    → len < 2 ^ 31
    → to_int32 (
        word_le (len % 256) (len / 256 % 256) (len / 256 / 256 % 256) (len / 256 / 256 / 256 % 256))
      ≡ pos len
unfolding word_le
int_of_bytes len h =
    let same : len % 256
          + 256 * (len / 256 % 256)
          + 65536 * (len / 256 / 256 % 256)
          + 16777216 * (len / 256 / 256 / 256 % 256)
        ≡ len =
      omega arith in
    rw same (ground arith)

-- A length below 2 ^ 31 is read as it was written.
At-len :
    (bytes : Bytes) (n len : ℕ) (rest : Bytes)
    → len < 2 ^ 31
    → At bytes n (le_bytes 4 len ++ rest)
    → (len_read bytes (pos n) ≡ pos len) × At bytes (n + 4) rest
unfolding len_read or_zero
At-len bytes n len rest small h =
    let (e0, a1) = At-byte bytes n _ _ h in
    let (e1, a2) = At-byte bytes (n + 1) _ _ a1 in
    let (e2, a3) = At-byte bytes (n + 1 + 1) _ _ a2 in
    let (e3, a4) = At-byte bytes (n + 1 + 1 + 1) _ _ a3 in
    let two : n + 2 ≡ n + 1 + 1 = omega arith in
    let three : n + 3 ≡ n + 1 + 1 + 1 = omega arith in
    let four : n + 4 ≡ n + 1 + 1 + 1 + 1 = omega arith in
    (
      rw (pos_add n 1, pos_add n 2, pos_add n 3)
          (rw (two, three, e0, e1, e2, e3) (int_of_bytes len small)),
      rw four a4,
    )

At-str :
    (bytes : Bytes) (n : ℕ) (s : Text) (rest : Bytes)
    → IsPlain s
    → length (utf8_encode s) < 2 ^ 31
    → At bytes n (borsh_str s ++ rest)
    → (str_read bytes (pos n) ≡ (s, pos (n + 4 + length (utf8_encode s))))
      × At bytes (n + 4 + length (utf8_encode s)) rest
unfolding str_read decoded
At-str bytes n s rest p small h =
    let (read, after) =
      At-len bytes n (length (utf8_encode s)) (utf8_encode s ++ rest) small
        (rw append_assoc at h) in
    let (run, next) = At-run bytes (n + 4) (utf8_encode s) rest after in
    (
      rw (read, pos_add n 4, run)
          (ap (λ t. (t, pos (n + 4 + length (utf8_encode s)))) (utf8_decode-utf8_encode s p)),
      next,
    )

-- A text that comes back from its bytes, and whose length is read back.
abbrev pub IsStorable : Text → Type 0
IsStorable s = IsPlain s × (length (utf8_encode s) < 2 ^ 31)

pub record AreStorable (f : EntryFields) : Type 0 where
  pub name : IsStorable f.name
  pub version : IsStorable f.version
  pub description : IsStorable f.description
  pub tags : IsStorable f.tags
  pub idl_cid : IsStorable f.idl_cid
  pub source_cid : IsStorable f.source_cid
  pub repo_url : IsStorable f.repo_url
  pub commit : IsStorable f.commit
  pub build_config : IsStorable f.build_config

-- The text is read, and some offset stands before the rest.
abbrev Reads : Bytes → ℕ → Text → Bytes → Type 0
Reads bytes n s rest = (m : ℕ) × (str_read bytes (pos n) ≡ (s, pos m)) × At bytes m rest

Reads-str :
    (bytes : Bytes) (n : ℕ) (s : Text) (rest : Bytes)
    → IsStorable s
    → At bytes n (borsh_str s ++ rest)
    → Reads bytes n s rest
Reads-str bytes n s rest (p, small) h =
    let (read, next) = At-str bytes n s rest p small h in (_, read, next)

-- The same with more of the record between the text and what follows it.
Reads-str_then :
    (bytes : Bytes) (n : ℕ) (s : Text) (more rest : Bytes)
    → IsStorable s
    → At bytes n ((borsh_str s ++ more) ++ rest)
    → Reads bytes n s (more ++ rest)
Reads-str_then bytes n s more rest g (e, h) =
    Reads-str bytes n s (more ++ rest) g (e ∙ append_assoc (borsh_str s) more rest, h)

fields_read-borsh :
    (bytes : Bytes) (n : ℕ) (f : EntryFields) (rest : Bytes)
    → AreStorable f
    → At bytes n (borsh_fields f ++ rest)
    → (m : ℕ) × (fields_read bytes (pos n) ≡ (f, pos m)) × At bytes m rest
unfolding fields_read
fields_read-borsh bytes n f rest g h =
    let (o1, e1, h1) = Reads-str_then bytes n f.name _ rest g.name h in
    let (o2, e2, h2) = Reads-str_then bytes o1 f.version _ rest g.version h1 in
    let (o3, e3, h3) = Reads-str_then bytes o2 f.description _ rest g.description h2 in
    let (o4, e4, h4) = Reads-str_then bytes o3 f.tags _ rest g.tags h3 in
    let (o5, e5, h5) = Reads-str_then bytes o4 f.idl_cid _ rest g.idl_cid h4 in
    let (o6, e6, h6) = Reads-str_then bytes o5 f.source_cid _ rest g.source_cid h5 in
    let (o7, e7, h7) = Reads-str_then bytes o6 f.repo_url _ rest g.repo_url h6 in
    let (o8, e8, h8) = Reads-str_then bytes o7 f.commit _ rest g.commit h7 in
    let (o9, e9, h9) = Reads-str bytes o8 f.build_config rest g.build_config h8 in
    (o9, rw (e1, e2, e3, e4, e5, e6, e7, e8, e9) refl, h9)

fold_byte_lem : (v b q p : ℕ) → v + b * p + q * (256 * p) ≡ v + (b + 256 * q) * p
fold_byte_lem v b q p =
    let left : q * (256 * p) ≡ 256 * (q * p) =
      sym (mul_assoc q 256 p) ∙ ap (λ m. m * p) (mul_comm q 256) ∙ mul_assoc 256 q p in
    let right : (b + 256 * q) * p ≡ b * p + 256 * (q * p) =
      add-mul b (256 * q) p ∙ ap (λ m. b * p + m) (mul_assoc 256 q p) in
    omega (arith, left, right)

next_power : (i : ℕ) → 2 ^ (8 * (i + 1)) ≡ 256 * 2 ^ (8 * i)
next_power i =
    let exponent : 8 * (i + 1) ≡ suc (suc (suc (suc (suc (suc (suc (suc (8 * i)))))))) =
      omega arith in
    ap (λ e. 2 ^ e) exponent
    ∙ omega (
      arith,
      two-pow-succ (8 * i),
      two-pow-succ (suc (8 * i)),
      two-pow-succ (suc (suc (8 * i))),
      two-pow-succ (suc (suc (suc (8 * i)))),
      two-pow-succ (suc (suc (suc (suc (8 * i))))),
      two-pow-succ (suc (suc (suc (suc (suc (8 * i)))))),
      two-pow-succ (suc (suc (suc (suc (suc (suc (8 * i))))))),
      two-pow-succ (suc (suc (suc (suc (suc (suc (suc (8 * i)))))))),
    )

fold_byte :
    (v t i : ℕ) → v + t % 256 * 2 ^ (8 * i) + t / 256 * 2 ^ (8 * (i + 1)) ≡ v + t * 2 ^ (8 * i)
fold_byte v t i =
    let whole : t % 256 + 256 * (t / 256) ≡ t = omega arith in
    rw (next_power i)
      (fold_byte_lem v (t % 256) (t / 256) (2 ^ (8 * i)) ∙ ap (λ m. v + m * 2 ^ (8 * i)) whole)

u64_read-le_bytes :
    (k i v n t : ℕ) (bytes rest : Bytes)
    → t < 256 ^ k
    → At bytes n (le_bytes k t ++ rest)
    → u64_read k i v bytes (pos n) ≡ ok (v + t * 2 ^ (8 * i))
unfolding u64_read
u64_read-le_bytes zero i v n t bytes rest small h =
    let none_left : t ≡ 0 = omega arith in ap ok (rw (none_left, zero-mul) (omega arith))
u64_read-le_bytes (suc k) i v n t bytes rest small h =
    let (here, next) = At-byte bytes n _ _ h in
    let quotient : t < 256 ^ suc k → t / 256 < 256 ^ k = λ h. omega (arith, pow-succ' 256 k) in
    rw (u64_read, here, pos_add n 1)
      (u64_read-le_bytes k (i + 1) (v + t % 256 * 2 ^ (8 * i)) (n + 1) (t / 256) bytes rest
          (quotient small) next
        ∙ ap ok (fold_byte v t i))

-- The account data of an entry, as the registry program writes it.
abbrev pub borsh_entry : Bytes → Bytes → ℕ → EntryFields → ℕ → Bytes
borsh_entry program author kind f t =
    program ++ (author ++ (kind ∷ (borsh_fields f ++ (le_bytes 8 t ++ []))))

decode_entry-reads :
    (bytes program author : Bytes) (kind : ℕ) (f : EntryFields) (t n : ℕ)
    → take_read bytes (pos 32) (pos 0) ≡ (program, pos 32)
    → take_read bytes (pos 32) (pos 32) ≡ (author, pos 64)
    → byte_at bytes (pos 64) ≡ some kind
    → fields_read bytes (pos 65) ≡ (f, pos n)
    → u64_read 8 0 0 bytes (pos n) ≡ ok t
    → decode_entry bytes
      ≡ ok (record {
        fields = f;
        program_id = base58_encode program;
        author = base58_encode author;
        kind = kind_of (some kind);
        registered_at = t;
      })
unfolding decode_entry
decode_entry-reads bytes program author kind f t n e1 e2 e3 e4 e5 =
    rw (e1, e2, e3, pos_add 64 1, e4, e5) refl

-- The account data of an entry decodes to that entry, for ids of 32 bytes, texts that UTF-8 carries and
-- whose length is below 2 ^ 31, and a time below 2 ^ 64; the kind byte 0 reads as a deployer's entry and
-- any other as a third party's.
pub decode_entry-borsh_entry :
    (program author : Bytes) (kind : ℕ) (f : EntryFields) (t : ℕ)
    → length program ≡ 32
    → length author ≡ 32
    → AreStorable f
    → t < 2 ^ 64
    → decode_entry (borsh_entry program author kind f t)
      ≡ ok (record {
        fields = f;
        program_id = base58_encode program;
        author = base58_encode author;
        kind = if kind == 0 then deployer else third_party;
        registered_at = t;
      })
unfolding decode_entry kind_of
decode_entry-borsh_entry program author kind f t p a g small =
    let bytes = borsh_entry program author kind f t in
    let (e1, h1) = At-run bytes 0 program _ (refl, omega arith) in
    let (e2, h2) = At-run bytes (0 + length program) author _ h1 in
    let (e3, h3) = At-byte bytes (0 + length program + length author) kind _ h2 in
    let (o4, e4, h4) = fields_read-borsh bytes _ f _ g h3 in
    let e5 = u64_read-le_bytes 8 0 0 o4 t bytes [] small h4 in
    decode_entry-reads bytes program author kind f t o4 (rw p at e1) (rw (p, a) at e2)
      (rw (p, a) at e3) (rw (p, a) at e4) (e5 ∙ ap ok (omega arith))
