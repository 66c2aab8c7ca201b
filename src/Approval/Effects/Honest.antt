-- ===== src/Approval/Effects/Honest.antt =====
-- What the user is shown of a program call.
use widespread_logos.Prelude.{
  ℕ, ◌^◌, ◌<◌, ◌≡◌, ◌⊎◌, inl, inr, refl, false, Option, none, some, List, [], ◌∷◌, ◌++◌, Text,
  Result, ok, err, get_elem?, ap, sym, ◌∙◌, Bool-cases, ◌||◌, true, codes, if◌then◌else◌,
}
use widespread_logos.Risc0.{R0Value, instruction_data_hex}
use widespread_logos.Approval.Decoder.{Idl, IdlInstruction, DecodedCall, decode_r0_instruction}
use widespread_logos.Approval.Decoder.Describes.{DescribesArgs}
use widespread_logos.Approval.Decoder.Calls.{
  HasDistinctNames, named_values, decode_r0_instruction-instruction_data_hex,
}
use widespread_logos.Approval.Effects.{
  CallEffect, EffectKind, RegistryEntryLike, Fetch, Response, strip_slash, idl_url, idl_paths,
  try_path, first_idl, raw_effect, warn, find_entry, fetch_idl_by_cid, show_decoded,
  describe_fetched, describe_found, with_program, describe_entry, describe_call, is_empty,
}

-- One of the two addresses of a CID on a node was read, with a status that is ok, as this document.
pub record IsServed (fetch : Fetch) (node_url cid : Text) (idl : Idl) : Type 0 where
  pub path : Text
  pub known : (path ≡ codes "/api/storage/v1/data") ⊎ (path ≡ codes "/api/codex/v1/data")
  pub response : Response
  pub fetched : fetch (strip_slash node_url ++ (path ++ (codes "/" ++ cid))) ≡ ok response
  pub good : response.ok_status ≡ true
  pub document : response.json ≡ ok idl

-- What the call is described with.
pub record Sources : Type 0 where
  pub lookup : Option (Text → Result (Option RegistryEntryLike))
  pub fetch : Fetch
  pub node_url : Option Text
  pub program : Text

-- Decoded against the document that the node serves under the CID of the program's registry entry,
-- with no warning; or not decoded, with exactly one warning.
pub record IsDecoded (w : Sources) (data_hex : Text) (e : CallEffect) : Type 0 where
  pub lookup : Text → Result (Option RegistryEntryLike)
  pub has_lookup : w.lookup ≡ some lookup
  pub entry : RegistryEntryLike
  pub registered : lookup w.program ≡ ok (some entry)
  pub node : Text
  pub has_node : w.node_url ≡ some node
  pub idl : Idl
  pub served : IsServed w.fetch node entry.idl_cid idl
  pub call : DecodedCall
  pub decoded : decode_r0_instruction data_hex idl ≡ ok call
  pub instruction : e.instruction ≡ some call.name
  pub args : e.args ≡ some call.args
  pub no_warning : e.warnings ≡ []

pub record IsRaw (e : CallEffect) : Type 0 where
  pub warning : Text
  pub instruction : e.instruction ≡ none
  pub args : e.args ≡ none
  pub warned : e.warnings ≡ warning ∷ []

abbrev pub IsHonest : Sources → Text → CallEffect → Type 0
IsHonest w data_hex e =
    (e.kind ≡ EffectKind.program_call)
    × (e.raw ≡ some data_hex)
    × (IsDecoded w data_hex e ⊎ IsRaw e)

-- An effect that has not been decoded or warned of yet.
record IsFresh (data_hex : Text) (e : CallEffect) : Type 0 where
  kind : e.kind ≡ EffectKind.program_call
  raw : e.raw ≡ some data_hex
  instruction : e.instruction ≡ none
  args : e.args ≡ none
  warnings : e.warnings ≡ []

tried :
    (fetch : Fetch) (url : Text) (idl : Idl)
    → try_path fetch url ≡ some idl
    → (r : Response) × (fetch url ≡ ok r) × (r.ok_status ≡ true) × (r.json ≡ ok idl)
unfolding try_path
tried fetch url idl found = from (fetch url) refl found
  where
    from_json :
        (r : Response) (j : Result Idl)
        → r.json ≡ j
        → fetch url ≡ ok r
        → r.ok_status ≡ true
        → elim j [ ok i ↦ some i | err _ ↦ none ] ≡ some idl
        → (r : Response) × (fetch url ≡ ok r) × (r.ok_status ≡ true) × (r.json ≡ ok idl)
    from_json r (ok i) same got good h = (r, got, good, same ∙ (cc))
    from_json r (err e) same got good h = cc

    from :
        (o : Result Response)
        → fetch url ≡ o
        → elim o [
          | err _ ↦ none
          | ok r ↦ if r.ok_status then elim (r.json) [ ok i ↦ some i | err _ ↦ none ] else none
        ]
          ≡ some idl
        → (r : Response) × (fetch url ≡ ok r) × (r.ok_status ≡ true) × (r.json ≡ ok idl)
    from (err e) got h = cc
    from (ok r) got h = elim (Bool-cases r.ok_status) [
      | inl good ↦ from_json r r.json refl got good (
          ap (λ b. if b then elim (r.json) [ ok i ↦ some i | err _ ↦ none ] else none) (sym good)
          ∙ h)
      | inr bad ↦ cc (
          ap (λ b. if b then elim (r.json) [ ok i ↦ some i | err _ ↦ none ] else none) (sym bad)
          ∙ h)
    ]

fetched-IsServed :
    (fetch : Fetch) (node_url cid : Text) (idl : Idl)
    → fetch_idl_by_cid fetch node_url cid ≡ some idl
    → IsServed fetch node_url cid idl
unfolding fetch_idl_by_cid first_idl idl_paths idl_url
fetched-IsServed fetch node_url cid idl found = from first refl found
  where
    storage : Text
    storage = codes "/api/storage/v1/data"

    codex : Text
    codex = codes "/api/codex/v1/data"

    first : Option Idl
    first = try_path fetch (strip_slash node_url ++ (storage ++ (codes "/" ++ cid)))

    second : Option Idl
    second = try_path fetch (strip_slash node_url ++ (codex ++ (codes "/" ++ cid)))

    served :
        (path : Text)
        → (path ≡ storage) ⊎ (path ≡ codex)
        → try_path fetch (strip_slash node_url ++ (path ++ (codes "/" ++ cid))) ≡ some idl
        → IsServed fetch node_url cid idl
    served path known h =
        let (r, got, good, document) = tried fetch _ idl h in
        record {
          path = path;
          known = known;
          response = r;
          fetched = got;
          good = good;
          document = document;
        }

    last :
        (o : Option Idl)
        → second ≡ o
        → elim o [ some i ↦ some i | none ↦ none ] ≡ some idl
        → IsServed fetch node_url cid idl
    last (some i) same h = served codex (inr refl) (same ∙ h)
    last none same h = cc

    from :
        (o : Option Idl)
        → first ≡ o
        → elim o [ some i ↦ some i | none ↦ elim second [ some i ↦ some i | none ↦ none ] ]
          ≡ some idl
        → IsServed fetch node_url cid idl
    from (some i) same h = served storage (inl refl) (same ∙ h)
    from none same h = last second refl h

module _ (w : Sources) (data_hex : Text) where
  warn-IsHonest : (t : Text) (e : CallEffect) → IsFresh data_hex e → IsHonest w data_hex (warn t e)
  unfolding warn
  warn-IsHonest t e f = (
    f.kind,
    f.raw,
    inr (record {
      warning = t;
      instruction = f.instruction;
      args = f.args;
      warned = ap (λ (ws : List Text). ws ++ t ∷ []) f.warnings;
    }),
  )

module _ (lookup : Text → Result (Option RegistryEntryLike)) (fetch : Fetch)
    (node_url : Option Text) (program data_hex : Text) (entry : RegistryEntryLike)
    (registered : lookup program ≡ ok (some entry)) where
  abbrev sources : Sources
  sources = record { lookup = some lookup; fetch = fetch; node_url = node_url; program = program }

  describe_fetched-IsHonest :
      (node : Text) (o : Option Idl) (e : CallEffect)
      → node_url ≡ some node
      → fetch_idl_by_cid fetch node entry.idl_cid ≡ o
      → IsFresh data_hex e
      → IsHonest sources data_hex (describe_fetched entry o data_hex e)
  unfolding describe_fetched show_decoded
  describe_fetched-IsHonest node none e has_node found f = warn-IsHonest sources data_hex _ e f
  describe_fetched-IsHonest node (some idl) e has_node found f =
      decoded (decode_r0_instruction data_hex idl) refl
    where
      decoded :
          (r : Result DecodedCall)
          → decode_r0_instruction data_hex idl ≡ r
          → IsHonest sources data_hex (show_decoded entry r e)
      decoded (err x) h = warn-IsHonest sources data_hex _ e f
      decoded (ok call) h = (
        f.kind,
        f.raw,
        inl (record {
          lookup = lookup;
          has_lookup = refl;
          entry = entry;
          registered = registered;
          node = node;
          has_node = has_node;
          idl = idl;
          served = fetched-IsServed fetch node entry.idl_cid idl found;
          call = call;
          decoded = h;
          instruction = refl;
          args = refl;
          no_warning = f.warnings;
        }),
      )

  describe_entry-IsHonest :
      (o : Option Text) (e : CallEffect)
      → node_url ≡ o
      → IsFresh data_hex e
      → IsHonest sources data_hex (describe_entry fetch o entry data_hex e)
  unfolding describe_entry
  describe_entry-IsHonest none e same f = warn-IsHonest sources data_hex _ e f
  describe_entry-IsHonest (some node) e same f =
      elim (Bool-cases (is_empty node || is_empty entry.idl_cid)) [
        | inl missing ↦ rw (missing, describe_entry) (warn-IsHonest sources data_hex _ e f)
        | inr there ↦ rw (there, describe_entry) (describe_fetched-IsHonest node _ e same refl f)
      ]

fresh : (program data_hex : Text) → IsFresh data_hex (raw_effect program data_hex)
unfolding raw_effect
fresh program data_hex = record {
  kind = refl;
  raw = refl;
  instruction = refl;
  args = refl;
  warnings = refl;
}

found-IsHonest :
    (lookup : Text → Result (Option RegistryEntryLike)) (fetch : Fetch) (node_url : Option Text)
    (program data_hex : Text) (r : Result (Option RegistryEntryLike))
    → lookup program ≡ r
    → IsHonest
        (record { lookup = some lookup; fetch = fetch; node_url = node_url; program = program })
        data_hex
        (describe_found fetch node_url
          (elim r [ ok entry ↦ entry | err _ ↦ none ])
          data_hex
          (raw_effect program data_hex))
unfolding describe_found with_program
found-IsHonest lookup fetch node_url program data_hex (err x) same =
    warn-IsHonest _ data_hex _ _ (fresh program data_hex)
found-IsHonest lookup fetch node_url program data_hex (ok none) same =
    warn-IsHonest _ data_hex _ _ (fresh program data_hex)
found-IsHonest lookup fetch node_url program data_hex (ok (some entry)) same =
    let f = fresh program data_hex in
    describe_entry-IsHonest lookup fetch node_url program data_hex entry same node_url
      (with_program entry (raw_effect program data_hex)) refl
      (record {
        kind = f.kind;
        raw = f.raw;
        instruction = f.instruction;
        args = f.args;
        warnings = f.warnings;
      })

-- Whatever the registry, the storage node and the network answer, the effect of a program call shows
-- the raw data; and either it shows, with no warning, an instruction and arguments that the decoder
-- read from that very data against the document that the configured node serves, with an ok status
-- and at one of the two addresses, under the CID of the program's registry entry; or it shows none of
-- them and exactly one warning.
pub describe_call-IsHonest :
    (lookup : Option (Text → Result (Option RegistryEntryLike))) (fetch : Fetch)
    (node_url : Option Text) (program data_hex : Text)
    → IsHonest
        (record { lookup = lookup; fetch = fetch; node_url = node_url; program = program })
        data_hex
        (describe_call lookup fetch node_url program data_hex)
unfolding describe_call find_entry describe_found
describe_call-IsHonest none fetch node_url program data_hex =
    warn-IsHonest _ data_hex _ _ (fresh program data_hex)
describe_call-IsHonest (some lookup) fetch node_url program data_hex =
    found-IsHonest lookup fetch node_url program data_hex (lookup program) refl

-- A call that the registry client encoded is shown as such: with a registered program, a node URL that is
-- configured and a document that is served, whose instruction describes the arguments, the effect
-- names the instruction and shows each argument under its name.
pub describe_call-instruction_data_hex :
    (lookup : Text → Result (Option RegistryEntryLike)) (fetch : Fetch) (node_url program : Text)
    (entry : RegistryEntryLike) (idl : Idl) (ix : IdlInstruction) (index : ℕ) (vs : List R0Value)
    (shown : List Text)
    → lookup program ≡ ok (some entry)
    → (is_empty node_url || is_empty entry.idl_cid) ≡ false
    → fetch_idl_by_cid fetch node_url entry.idl_cid ≡ some idl
    → index < 2 ^ 32
    → get_elem? idl.instructions index ≡ some ix
    → DescribesArgs ix.args vs shown
    → HasDistinctNames ix.args
    → ((describe_call
          (some lookup)
          fetch
          (some node_url)
          program
          (instruction_data_hex index vs)).instruction
        ≡ some ix.name)
      × ((describe_call
            (some lookup)
            fetch
            (some node_url)
            program
            (instruction_data_hex index vs)).args
          ≡ some (named_values ix.args shown))
unfolding describe_call
describe_call-instruction_data_hex lookup fetch node_url program entry idl ix index vs shown l n f h
      g d u =
    rw (l, find_entry)
      (rw (n, describe_found, describe_entry)
        (rw (f, describe_fetched)
          (rw
            (decode_r0_instruction-instruction_data_hex index vs idl ix shown h g d u, show_decoded)
            (refl, refl))))
