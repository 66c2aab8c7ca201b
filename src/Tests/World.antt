-- ===== src/Tests/World.antt =====
-- A concrete platform: ciphers that keep the text, shares that are copies, a text form for payloads in
-- two letters, and a storage node that keeps every upload in a list.
use widespread_logos.Prelude.{
  ℕ, zero, suc, ◌+◌, ◌-◌, ◌%◌, ◌<◌, ◌≡◌, refl, sym, ap, ◌∙◌, Bool, true, ◌&&◌, Option, none, some,
  List, [], ◌∷◌, ◌++◌, Text, Bytes, length, take, drop, replicate, get_elem?, All, All-append,
  All-replicate, length-append, length-replicate, take-append, drop-append, Result, ok, err,
  type_error, ltb, ◌==◌, if◌then◌else◌, arith,
}
use widespread_logos.Utf8.RoundTrip.{IsByte, IsPlain-ascii}
use widespread_logos.Pda.{Sha256}
use widespread_logos.Recovery.Crypto.{Crypto, Payload}
use widespread_logos.Recovery.Storage.{StorageClient, IsContentAddressed}

-- A list of numbers below a bound, by a test.
abbrev pub all_ltb : ℕ → List ℕ → Bool
all_ltb n [] = true
all_ltb n (x ∷ xs) = ltb x n && all_ltb n xs

pub all_ltb-All : (n : ℕ) (xs : List ℕ) → all_ltb n xs ≡ true → All (λ x. x < n) xs
all_ltb-All n [] h = tt
all_ltb-All n (x ∷ xs) h = (ground arith, all_ltb-All n xs (ground arith))

-- Numbers in unary: so many `a`, then a `b`.
abbrev pub unary : List ℕ → Text
unary [] = []
unary (n ∷ ns) = replicate n b'a' ++ (b'b' ∷ unary ns)

abbrev pub read_unary : ℕ → Text → List ℕ
read_unary n [] = []
read_unary n (u ∷ s) = if u == b'a' then read_unary (suc n) s else n ∷ read_unary 0 s

read_unary-run :
    (n k : ℕ) (s : Text) → read_unary n (replicate k b'a' ++ (b'b' ∷ s)) ≡ (n + k) ∷ read_unary 0 s
read_unary-run n zero s = ap (λ m. m ∷ read_unary 0 s) (omega arith)
read_unary-run n (suc k) s = read_unary-run (suc n) k s ∙ ap (λ m. m ∷ read_unary 0 s) (omega arith)

pub read_unary-unary : (ns : List ℕ) → read_unary 0 (unary ns) ≡ ns
read_unary-unary [] = refl
read_unary-unary (n ∷ ns) =
    read_unary-run 0 n (unary ns)
    ∙ ap (λ m. m ∷ read_unary 0 (unary ns)) (omega arith)
    ∙ ap (n ∷◌) (read_unary-unary ns)

pub unary-ascii : (ns : List ℕ) → All (λ u. u < 128) (unary ns)
unary-ascii [] = tt
unary-ascii (n ∷ ns) =
    All-append (λ u. u < 128) (replicate n b'a') (b'b' ∷ unary ns)
      (All-replicate (λ u. u < 128) n b'a' (omega arith)) (omega arith, unary-ascii ns)

-- A payload as a list of numbers: each text behind its length.
abbrev pub framed : Text → List ℕ → List ℕ
framed s rest = length s ∷ (s ++ rest)

abbrev pub framed_option : Option Text → List ℕ → List ℕ
framed_option none rest = 0 ∷ rest
framed_option (some s) rest = 1 ∷ framed s rest

unfoldable pub read_text : List ℕ → Text × List ℕ
read_text [] = ([], [])
read_text (n ∷ ns) = (take n ns, drop n ns)

unfoldable pub read_option : List ℕ → Option Text × List ℕ
unfolding read_text
read_option [] = (none, [])
read_option (n ∷ ns) = if n == 0 then (none, ns) else (some (read_text ns).0, (read_text ns).1)

read_text-framed : (s rest : List ℕ) → read_text (framed s rest) ≡ (s, rest)
unfolding read_text
read_text-framed s rest =
    λ i. (take-append s rest (length s) refl i, drop-append s rest (length s) refl i)

read_option-framed :
    (o : Option Text) (rest : List ℕ) → read_option (framed_option o rest) ≡ (o, rest)
unfolding read_option
read_option-framed none rest = refl
read_option-framed (some s) rest = ap (λ p. (some (p.0), p.1)) (read_text-framed s rest)

abbrev pub numbers : Payload → List ℕ
numbers p =
    p.v
    ∷ framed p.s_rec
        (framed p.ptr (framed p.wk_id (framed_option p.share_cid (framed_option p.blob_cid []))))

unfoldable pub read_numbers : List ℕ → Result Payload
read_numbers [] = err type_error
read_numbers (v ∷ ns) =
    let (s_rec, n1) = read_text ns in
    let (ptr, n2) = read_text n1 in
    let (wk_id, n3) = read_text n2 in
    let (share_cid, n4) = read_option n3 in
    let (blob_cid, n5) = read_option n4 in
    ok (record {
      v = v;
      s_rec = s_rec;
      ptr = ptr;
      wk_id = wk_id;
      share_cid = share_cid;
      blob_cid = blob_cid;
    })

pub read_numbers-numbers : (p : Payload) → read_numbers (numbers p) ≡ ok p
unfolding read_numbers
read_numbers-numbers p =
    let last = framed_option p.blob_cid [] in
    let cids = framed_option p.share_cid last in
    let keys = framed p.wk_id cids in
    rw
      (
        read_text-framed p.s_rec (framed p.ptr keys),
        read_text-framed p.ptr keys,
        read_text-framed p.wk_id cids,
        read_option-framed p.share_cid last,
        read_option-framed p.blob_cid [],
      )
      refl

pub All-replicate_list :
    (n : ℕ) (bytes : Bytes) → All IsByte bytes → All (All IsByte) (replicate n bytes)
All-replicate_list n bytes h = All-replicate (All IsByte) n bytes h

pub get_elem?-replicate :
    (n i : ℕ) (bytes : Bytes) {s : Bytes} → get_elem? (replicate n bytes) i ≡ some s → bytes ≡ s
get_elem?-replicate zero i bytes e = cc
get_elem?-replicate (suc n) zero bytes e = cc
get_elem?-replicate (suc n) (suc i) bytes e = get_elem?-replicate n i bytes e

unfoldable pub first_share : List Bytes → Result Bytes
first_share [] = err type_error
first_share (s ∷ ss) = ok s

abbrev pub sha : Sha256
sha = record {
  digest = λ b. replicate 32 (length b % 256);
  length_digest = λ b. length-replicate 32 (length b % 256);
  digest_bytes = λ b. All-replicate IsByte 32 (length b % 256) (omega arith);
}

abbrev pub crypto : Crypto
unfolding first_share
crypto = record {
  sha256 = sha;
  encrypt = λ key nonce text. text ++ replicate 16 0;
  decrypt = λ key nonce text. ok (take (length text - 16) text);
  decrypt-encrypt = λ key nonce text.
      ap ok
        (take-append text (replicate 16 0) _ (omega (arith, length-append text (replicate 16 0))));
  length-encrypt = λ key nonce text. length-append text (replicate 16 0);
  hkdf = λ secret salt info n. replicate n 7;
  length-hkdf = λ secret salt info. refl;
  hkdf_bytes = λ secret salt info. All-replicate IsByte 32 7 (omega arith);
  pbkdf2 = λ passphrase salt rounds. replicate 32 9;
  split = λ seed key n k. replicate n key;
  combine = first_share;
  length-split = λ seed key. refl;
  split_bytes = λ seed key h. All-replicate_list 3 key h;
  combine-two = λ seed key i j long e f ne. ap ok (sym (get_elem?-replicate 3 i key e));
  stringify = λ p. unary (numbers p);
  parse = λ s. read_numbers (read_unary 0 s);
  parse-stringify = λ p small. rw (read_unary-unary (numbers p)) (read_numbers-numbers p);
  IsPlain-stringify = λ p. IsPlain-ascii (unary (numbers p)) (unary-ascii (numbers p));
}

-- A node that names its nth upload by n letters.
abbrev pub held : Option Bytes → Result Bytes
held none = err type_error
held (some b) = ok b

abbrev pub from_node : Text → List Bytes → Result Bytes
from_node [] uploads = err type_error
from_node (u ∷ cid) uploads = held (get_elem? uploads (length cid))

abbrev pub store : StorageClient (List Bytes)
store = record {
  upload = λ bytes uploads. ok (replicate (suc (length uploads)) b'z', uploads ++ bytes ∷ []);
  download = from_node;
}

get_elem?-append :
    (uploads : List Bytes) (i : ℕ) (bytes kept : Bytes)
    → held (get_elem? uploads i) ≡ ok kept
    → held (get_elem? (uploads ++ bytes ∷ []) i) ≡ ok kept
get_elem?-append [] i bytes kept h = cc
get_elem?-append (b ∷ uploads) zero bytes kept h = h
get_elem?-append (b ∷ uploads) (suc i) bytes kept h = get_elem?-append uploads i bytes kept h

get_elem?-last :
    (uploads : List Bytes) (bytes : Bytes)
    → get_elem? (uploads ++ bytes ∷ []) (length uploads) ≡ some bytes
get_elem?-last [] bytes = refl
get_elem?-last (b ∷ uploads) bytes = get_elem?-last uploads bytes

ok-pair {ℓ} : {A : Type ℓ} {a b : A} → ok a ≡ ok b → a ≡ b
ok-pair e = cc

from_node-uploaded :
    (bytes : Bytes) (st st' : List Bytes) (cid : Text)
    → store.upload bytes st ≡ ok (cid, st')
    → from_node cid st' ≡ ok bytes
from_node-uploaded bytes st st' cid e =
    ap (λ p. from_node p.0 p.1) (sym (ok-pair e))
    ∙ rw (length-replicate {A = ℕ} (length st) b'z', get_elem?-last st bytes) refl

from_node-kept :
    (bytes : Bytes) (st : List Bytes) (other : Text) (kept : Bytes)
    → from_node other st ≡ ok kept
    → from_node other (st ++ bytes ∷ []) ≡ ok kept
from_node-kept bytes st [] kept h = cc
from_node-kept bytes st (u ∷ other) kept h = get_elem?-append st (length other) bytes kept h

pub store-IsContentAddressed : IsContentAddressed store
store-IsContentAddressed = record {
  upload-download = λ bytes s s' cid e. from_node-uploaded bytes s s' cid e;
  upload-keeps = λ bytes s s' cid other kept e h.
      ap (from_node other) (sym (ap (λ p. p.1) (ok-pair e))) ∙ from_node-kept bytes s other kept h;
}
