-- ===== src/Backends/Pwa/Scan.antt =====
-- PwaBackend: scanPrivateOutputs, registryLookup, and the class as the UI sees it. The wasm module and
-- its loading are parameters.
use widespread_logos.Prelude.{
  Option, none, some, List, [], ◌∷◌, Text, codes, text_eq, message, Result, ok, err, if◌then◌else◌,
}
use widespread_logos.Prelude.Errors.{◌>>=◌}
use widespread_logos.Platform.Json.{Value, null, object, num, str, get, get?, truthy}
use widespread_logos.Pda.{Sha256}
use widespread_logos.Registry.Client.{lookup_deployer_entry, Indexer}
use widespread_logos.Registry.Entry.{RegistryEntry, deployer, third_party}
use widespread_logos.Backends.Module.{Json}
use widespread_logos.Backends.Seam.{WalletBackend}
use widespread_logos.Backends.Pwa
use widespread_logos.Backends.Pwa.{PwaBackend, Sequencer, unsupported, AccountReading}
use widespread_logos.Backends.Pwa.Blob.{Idb}
use widespread_logos.Backends.Pwa.Surface
use widespread_logos.Backends.Pwa.Surface.{
  WasmCodecs, ScanAction, DecryptedNote, no_keys, keys_of, idb_get,
}
use widespread_logos.Prelude.Tasks
use widespread_logos.Prelude.Tasks.{Task, settle, fail}

-- The note of an output that was decrypted, if it has an account.
unfoldable pub note_of : Value → Value → Option Text → Option DecryptedNote
note_of kind account none = none
note_of kind account (some id) = some (record { kind = kind; account = account; account_id = id })

-- `if (…) notes.push(…)`
unfoldable pub keep_note : Option DecryptedNote → List DecryptedNote → List DecryptedNote
keep_note none notes = notes
keep_note (some n) notes = n ∷ notes

module _ (json : Json) (wasm : WasmCodecs) (keys : Value) where
  -- An output that was decrypted: what it holds, and whose it is.
  unfoldable pub read_note : Text → Result (Option DecryptedNote)
  unfolding note_of get get?
  read_note decrypted = json.parse decrypted >>= λ out. get (codes "kind") out >>= λ kind.
      get (codes "account") out >>= λ account.
      wasm.private_account_id_b58 (get? (codes "npkHex") keys) (get? (codes "vpkHex") keys)
        (json.stringify kind)
      >>= λ id. ok (note_of kind account id)

  unfoldable pub read_output : Option Text → Result (Option DecryptedNote)
  unfolding read_note
  read_output none = ok none
  read_output (some decrypted) = read_note decrypted

  unfoldable pub scan_action : ScanAction → Result (Option DecryptedNote)
  unfolding read_output get?
  scan_action a =
      wasm.decrypt_private_output a.ead_borsh_hex (get? (codes "dHex") keys)
        (get? (codes "zHex") keys) a.nullifier_hex
      >>= λ out. read_output out

  -- The loop: the notes in the order of the actions.
  unfoldable pub scan_actions : List ScanAction → Result (List DecryptedNote)
  unfolding keep_note
  scan_actions [] = ok []
  scan_actions (a ∷ rest) =
      scan_action a >>= λ n. scan_actions rest >>= λ notes. ok (keep_note n notes)

unfoldable pub scan_with :
    Json
    → Option Text
    → (Text → Result WasmCodecs)
    → List ScanAction
    → Value
    → Result (List DecryptedNote)
unfolding scan_actions
scan_with json none load actions keys = err (message (codes "wasmUrl not configured"))
scan_with json (some url) load actions keys =
    if text_eq url []
    then err (message (codes "wasmUrl not configured"))
    else load url >>= λ wasm. scan_actions json wasm keys actions

unfoldable pub scan_with_keys :
    Json
    → Option Text
    → (Text → Result WasmCodecs)
    → Text
    → List ScanAction
    → Value
    → Result (List DecryptedNote)
unfolding scan_with no_keys truthy
scan_with_keys json wasm_url load id actions keys =
    if truthy keys then scan_with json wasm_url load actions keys else err (no_keys id)

module _ {Host : Type 0} (idb : Idb Host) (json : Json) (w : PwaBackend) where
  unfoldable pub scan_private_outputs :
      (Text → Result WasmCodecs) → Text → List ScanAction → Task Host (List DecryptedNote)
  unfolding Surface.viewing_keys scan_with_keys
  scan_private_outputs load id actions =
      Tasks.◌>>=◌ (Surface.viewing_keys idb id)
        (λ keys. settle (scan_with_keys json w.wasm_url load id actions keys))

unfoldable pub kind_text : RegistryEntry → Text
kind_text e = elim (e.kind) [ deployer ↦ codes "deployer" | third_party ↦ codes "third_party" ]

-- The entry, in the words of the worker.
unfoldable pub entry_value : Option RegistryEntry → Value
unfolding kind_text
entry_value none = null
entry_value (some e) = object (
    (codes "name", str e.fields.name)
    ∷ (codes "version", str e.fields.version)
    ∷ (codes "idl_cid", str e.fields.idl_cid)
    ∷ (codes "kind", str (kind_text e))
    ∷ [])

unfoldable pub lookup_with : Sha256 → Indexer → Text → Option Text → Text → Result Value
unfolding entry_value lookup_deployer_entry
lookup_with sha indexer url none program = ok null
lookup_with sha indexer url (some registry) program =
    if text_eq registry []
    then ok null
    else lookup_deployer_entry sha
        (record { registry_program = registry; indexer_url = some url; zone = none }) indexer
        program
      >>= λ entry. ok (entry_value entry)

unfoldable pub registry_lookup : Sha256 → Indexer → PwaBackend → Text → Result Value
unfolding lookup_with
registry_lookup sha indexer w program =
    lookup_with sha indexer w.sequencer w.registry_program program

unfoldable pub reading_value : AccountReading → Value
reading_value r = object (
    (codes "data_b64", str r.data_b64)
    ∷ (codes "program_owner", str r.program_owner)
    ∷ (codes "balance", str r.balance)
    ∷ (codes "nonce", num r.nonce)
    ∷ [])

module _ {Host : Type 0} (idb : Idb Host) (json : Json) (sequencer : Sequencer) (sha : Sha256)
    (indexer : Indexer) (w : PwaBackend) where
  unfoldable pub pwa_backend : WalletBackend Host
  unfolding registry_lookup reading_value unsupported
  pwa_backend = record {
    init = λ password zone_name. fail (unsupported (codes "init"));
    restore = λ mnemonic password zone_name. fail (unsupported (codes "restore"));
    list_accounts = Surface.list_accounts idb;
    create_account = λ label is_private. fail (unsupported (codes "createAccount"));
    balance = λ account. settle (Pwa.balance sequencer w account >>= λ s. ok (str s));
    sync = fail (unsupported (codes "sync"));
    status = settle (ok (object ((codes "sequencer", str w.sequencer) ∷ [])));
    transfer = λ from to amount. fail (unsupported (codes "transfer"));
    program_call = λ program data_hex accounts payer. fail (unsupported (codes "programCall"));
    faucet_drop = none;
    call_module = none;
    helper_status = none;
    registry_lookup = some (λ program. settle (registry_lookup sha indexer w program));
    account_read =
        some
          (λ account. settle (Pwa.account_read sequencer w account >>= λ r. ok (reading_value r)));
    export_blob = some (Surface.export_blob idb);
    import_blob = some (λ blob zone_name. Surface.import_blob idb json blob);
  }
