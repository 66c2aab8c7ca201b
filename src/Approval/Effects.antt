-- ===== src/Approval/Effects.antt =====
-- fetchIdlByCid, describeCall and the effect of a transfer. The registry lookup, the HTTP client and
-- the storage node are arguments.
pub mod Honest
use widespread_logos.Prelude.{
  ℕ, ◌+◌, ◌-◌, ◌*◌, Bool, true, false, not, ◌||◌, ltb, ◌==◌, Option, none, some, List, [], ◌∷◌,
  ◌++◌, map, Text, codes, Result, ok, err, text_eq, take, leb, if◌then◌else◌, ◌&&◌, ◌≡◌, refl,
}
use widespread_logos.Approval.Decoder.{Idl, DecodedCall, truncate, join, decode_r0_instruction}

pub data EffectKind : Type 0 where
  transfer program_call : EffectKind

pub record ProgramMeta : Type 0 where
  pub name : Text
  pub version : Text
  pub verified : Bool

pub record CallEffect : Type 0 where
  pub kind : EffectKind
  pub summary : Text
  pub program : Option ProgramMeta
  pub instruction : Option Text
  pub args : Option (List (Text × Text))
  pub raw : Option Text
  pub warnings : List Text

-- The registry entry that the worker returns.
pub record RegistryEntryLike : Type 0 where
  pub name : Text
  pub version : Text
  pub idl_cid : Text
  pub kind : Text

-- A response of `fetch`, or a rejected promise; `json` is the body read as an IDL document.
pub record Response : Type 0 where
  pub ok_status : Bool
  pub json : Result Idl

abbrev pub Fetch : Type 0
Fetch = Text → Result Response

-- `storageNode.replace(/\/$/, '')`
unfoldable pub strip_slash : Text → Text
strip_slash [] = []
strip_slash (u ∷ []) = if text_eq (u ∷ []) (codes "/") then [] else u ∷ []
strip_slash (u ∷ v ∷ s) = u ∷ strip_slash (v ∷ s)

unfoldable pub idl_paths : List Text
idl_paths = codes "/api/storage/v1/data" ∷ codes "/api/codex/v1/data" ∷ []

unfoldable pub idl_url : Text → Text → Text → Text
unfolding strip_slash
idl_url node_url path cid = strip_slash node_url ++ (path ++ (codes "/" ++ cid))

-- One round of the loop: the document, or nothing and on to the next path.
unfoldable pub try_path : Fetch → Text → Option Idl
try_path fetch url = elim (fetch url) [
  | err _ ↦ none
  | ok r ↦ if r.ok_status then elim (r.json) [ ok idl ↦ some idl | err _ ↦ none ] else none
]

unfoldable pub first_idl : Fetch → Text → Text → List Text → Option Idl
unfolding try_path idl_url
first_idl fetch node_url cid [] = none
first_idl fetch node_url cid (p ∷ ps) = elim (try_path fetch (idl_url node_url p cid)) [
  | some idl ↦ some idl
  | none ↦ first_idl fetch node_url cid ps
]

unfoldable pub fetch_idl_by_cid : Fetch → Text → Text → Option Idl
unfolding first_idl idl_paths
fetch_idl_by_cid fetch node_url cid = first_idl fetch node_url cid idl_paths

-- `transfer`: the effect that is confirmed.
unfoldable pub transfer_effect : Text → Text → Text → CallEffect
transfer_effect from to amount = record {
  kind = transfer;
  summary = codes "Send " ++ (amount ++ (codes " LEZ\nfrom " ++ (from ++ (codes "\nto " ++ to))));
  program = none;
  instruction = none;
  args = none;
  raw = none;
  warnings = [];
}

-- The effect before anything is known of the program.
unfoldable pub raw_effect : Text → Text → CallEffect
raw_effect program data_hex = record {
  kind = program_call;
  summary = codes "program " ++ (take 16 program ++ codes "…");
  program = none;
  instruction = none;
  args = none;
  raw = some data_hex;
  warnings = [];
}

unfoldable pub warn : Text → CallEffect → CallEffect
warn w e = record e { warnings = e.warnings ++ w ∷ [] }

all_digits : Text → Bool
all_digits [] = true
all_digits (u ∷ s) = leb b'0' u && leb u b'9' && all_digits s

digits_number : ℕ → Text → ℕ
digits_number acc [] = acc
digits_number acc (u ∷ s) = digits_number (acc * 10 + (u - b'0')) s

-- The number of a key that is an array index: digits with no leading zero, below 2 ^ 32 - 1.
index_of : Text → Option ℕ
unfolding all_digits digits_number
index_of [] = none
index_of (u ∷ s) =
    if all_digits (u ∷ s)
      && (not (u == b'0') || text_eq s [])
      && ltb (digits_number 0 (u ∷ s)) 0xFFFFFFFF
    then some (digits_number 0 (u ∷ s))
    else none

insert_index : ℕ → Text × Text → List (ℕ × (Text × Text)) → List (ℕ × (Text × Text))
insert_index n p [] = (n, p) ∷ []
insert_index n p ((m, q) ∷ ps) =
    if ltb n m then (n, p) ∷ (m, q) ∷ ps else (m, q) ∷ insert_index n p ps

indexed : List (Text × Text) → List (ℕ × (Text × Text))
unfolding insert_index
indexed [] = []
indexed (p ∷ ps) = elim (index_of p.0) [
  | none ↦ indexed ps
  | some n ↦ insert_index n p (indexed ps)
]

not_indexed : List (Text × Text) → List (Text × Text)
not_indexed [] = []
not_indexed (p ∷ ps) = elim (index_of p.0) [ none ↦ p ∷ not_indexed ps | some n ↦ not_indexed ps ]

-- `Object.entries`: keys that are array indices come first, by their number, and the others in the
-- order in which they were set.
unfoldable pub object_entries : List (Text × Text) → List (Text × Text)
unfolding indexed not_indexed index_of
object_entries o = map (λ (e : ℕ × (Text × Text)). e.1) (indexed o) ++ not_indexed o

show_args : List (Text × Text) → Text
unfolding object_entries join
show_args args =
    join (codes ", ") (map (λ (p : Text × Text). p.0 ++ (codes "=" ++ p.1)) (object_entries args))

-- The summary of a call that was decoded.
unfoldable pub call_summary : RegistryEntryLike → DecodedCall → Text
unfolding show_args truncate
call_summary entry call =
    entry.name
    ++ (codes "."
        ++ (call.name ++ (codes "(" ++ (truncate 160 (show_args call.args) ++ codes ")"))))

-- `registryLookup?.(program) ?? null`; a backend without the method, or one whose call fails, has none.
unfoldable pub find_entry :
    Option (Text → Result (Option RegistryEntryLike)) → Text → Option RegistryEntryLike
find_entry none program = none
find_entry (some lookup) program = elim (lookup program) [ ok entry ↦ entry | err _ ↦ none ]

-- The last step of `describeCall`: the call was decoded, or the decoder threw.
unfoldable pub show_decoded : RegistryEntryLike → Result DecodedCall → CallEffect → CallEffect
unfolding call_summary warn
show_decoded entry (ok call) effect = record effect {
  summary = call_summary entry call;
  instruction = some call.name;
  args = some call.args;
}
show_decoded entry (err _) effect =
    warn (codes "call data does not match the published IDL — showing raw hex") effect

unfoldable pub with_program : RegistryEntryLike → CallEffect → CallEffect
with_program entry effect = record effect {
  program = some (record { name = entry.name; version = entry.version; verified = true });
}

-- The document was fetched, or not.
unfoldable pub describe_fetched : RegistryEntryLike → Option Idl → Text → CallEffect → CallEffect
unfolding show_decoded warn
describe_fetched entry none data_hex effect =
    warn (codes "IDL fetch failed — showing raw call data") effect
describe_fetched entry (some idl) data_hex effect =
    show_decoded entry (decode_r0_instruction data_hex idl) effect

-- `!s`, of a string.
abbrev pub is_empty : Text → Bool
is_empty s = text_eq s []

unfoldable pub describe_entry :
    Fetch → Option Text → RegistryEntryLike → Text → CallEffect → CallEffect
unfolding describe_fetched warn fetch_idl_by_cid
describe_entry fetch none entry data_hex effect =
    warn (codes "IDL unavailable — showing raw call data") effect
describe_entry fetch (some node_url) entry data_hex effect =
    if is_empty node_url || is_empty entry.idl_cid
    then warn (codes "IDL unavailable — showing raw call data") effect
    else describe_fetched entry (fetch_idl_by_cid fetch node_url entry.idl_cid) data_hex effect

unfoldable pub describe_found :
    Fetch → Option Text → Option RegistryEntryLike → Text → CallEffect → CallEffect
unfolding describe_entry with_program warn
describe_found fetch node_url none data_hex effect =
    warn (codes "program has no on-chain registry entry — unverified") effect
describe_found fetch node_url (some entry) data_hex effect =
    describe_entry fetch node_url entry data_hex (with_program entry effect)

unfoldable pub describe_call :
    Option (Text → Result (Option RegistryEntryLike))
    → Fetch
    → Option Text
    → Text
    → Text
    → CallEffect
unfolding describe_found raw_effect find_entry
describe_call lookup fetch node_url program data_hex =
    describe_found fetch node_url (find_entry lookup program) data_hex (raw_effect program data_hex)
