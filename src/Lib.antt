-- ===== src/Lib.antt =====
-- A verification library for the TypeScript packages of widespread-logos: the wallet that signs program
-- calls for the LEZ chain, the SDK that builds them, the registry client and the recovery package.
--
-- How the parts interact. The SDK (sdk/registry/src/risc0.ts) encodes an instruction as words and hex.
-- A page hands that hex to the wallet, whose gate (packages/wallet-ui/src/approval.ts) looks the program
-- up in the on-chain registry, fetches its IDL, decodes the hex for the user, asks, and forwards the
-- call; a yes opens a session of fifteen minutes for the program. Addresses on the chain are derived
-- from program ids and seeds (packages/wallet-ui/src/pda.ts, repeated in sdk/registry/src/index.ts).
-- The wallet's key is split in three shares (packages/recovery/src): one wrapped on a storage network,
-- one on the device, one in a sealed kit; any two recover it and, with it, the wallet's blob. The
-- wallet runs on several surfaces, each a backend with the same operations over another host: a desktop
-- shell, a module host, the browser's extension, or the page alone. A page reaches the wallet by the
-- provider SDK, over the extension or over the module host, whose calls the QML shell collects from a
-- bridge in the page.
--
-- Files:
--   Prelude         text, bytes, lists, integers, errors and results that all files share
--   Utf8            TextEncoder and TextDecoder; Platform: numbers and strings of JavaScript, base64
--   Risc0           sdk/registry/src/risc0.ts: encodeInto, encodeInstruction, instructionDataHex
--   Approval        packages/wallet-ui/src/approval.ts: Decoder (WordReader, decodeValue,
--                   decodeR0Instruction), Sessions (MemorySessionStore), Effects (fetchIdlByCid,
--                   describeCall), Gate (GatedBackend.transfer and programCall)
--   Pda             packages/wallet-ui/src/pda.ts: base58Encode, base58Decode, accountIdBytes,
--                   computePublicPda
--   Registry        sdk/registry/src/index.ts: Address (computePdaRaw and the entry addresses), Entry
--                   (encodeEntryFields, decodeEntry), Client (RegistryClient's calls,
--                   lookups and fetchIdl, endorse), Agreement (against Pda)
--   Onboarding      packages/wallet-ui/src/onboarding.ts: makePointerResolver, publishPointer; Flows
--                   (createWalletWithRecovery, recoverWalletWithKit, recoverWalletWithPasskey)
--   Recovery        packages/recovery/src: Crypto (derive.ts, shares.ts), Sealing (kit.ts, blob.ts),
--                   Storage (storage.ts), Passkey (passkey.ts), Enroll and Vault (enroll.ts)
--   Backends        packages/wallet-ui/src: Seam (backend.ts: the operations that a surface offers),
--                   Tauri (tauri-backend.ts), Module (module-backend.ts), Extension
--                   (extension-backend.ts), Pwa (pwa-backend.ts: Faucet, Blob, Surface, Scan;
--                   Vault is the form of a vault blob);
--                   Gated (the pass-through operations of approval.ts); Agreement compares Tauri and
--                   Module
--   Provider        sdk/provider/src/index.ts: WidespreadLezProvider; Extension (extensionBridge) and
--                   Module (moduleBridge)
--   WebBridge       web/wallet/src/bridge.js: the outbox and the pending requests
--   Social          packages/wallet-ui/src/social.ts: makePopupSocialSignIn, githubDeviceSignIn; Google
--                   (googlePopupSignIn, popupForFragment, decodeJwtPayload)
--   StorageNode     packages/storage-client/src/index.ts: StorageClient, BytesUploadStrategy
--   Tests           concrete inputs, and a concrete platform for the parameters
--
-- State and numbers. Stateful code passes its state: the gate's grants and log, the storage node's
-- contents, and for the backends a task, which is a function from the state of the host to a result and
-- a state (Prelude/Tasks). A string is the list of its UTF-16 code units, a byte array a list of numbers,
-- a JavaScript value one of Platform/Json, whose numbers are whole. JavaScript's 32-bit operators keep
-- their wrap-around; a bigint is an integer. Promises that reject are error results; the calls of a page
-- and the messages it receives are events of a run, and a promise keeps the first value that it is
-- settled with, as the language has it. Every loop is structural, or bounded by the number
-- it counts down, but two that run on fuel: the digits of a number, whose fuel is the number itself, and
-- the polls of the device flow, whose fuel is the number of seconds that the code is valid and one more
-- (a round takes five seconds).
--
-- Parameters: SHA-256, AES-GCM, HKDF, PBKDF2, shamir-secret-sharing, JSON.parse and JSON.stringify,
-- fetch, navigator.credentials, IndexedDB, the desktop shell, callModuleAsync, chrome.runtime, the wasm
-- codecs, the Codex SDK, the registry lookup, the clock and the user's answers. Random bytes are
-- arguments.
--
-- Not modelled: the React views, the faucet and testimonial pages and the deployment script, which only
-- put the parts above together; the generated wasm bindings; and the Rust programs.
pub mod Prelude
pub mod Utf8
pub mod Platform
pub mod Risc0
pub mod Approval
pub mod Pda
pub mod Registry
pub mod Recovery
pub mod Onboarding
pub mod Backends
pub mod Provider
pub mod WebBridge
pub mod Social
pub mod StorageNode
pub mod Tests
