-- ===== src/Onboarding/Flows.antt =====
-- The flows of onboarding.ts over the recovery package: a wallet with its secrets, and the blobs that the
-- backend imported, newest first. The passkey ceremony and the backend's answers are arguments.
pub mod Alone
use widespread_logos.Prelude.{
  ℕ, Option, none, some, List, [], ◌∷◌, Text, Bytes, codes, text_eq, Result, ok, err, message,
  if◌then◌else◌,
}
use widespread_logos.Prelude.Errors.{◌>>=◌}
use widespread_logos.Platform.Base64.{btoa, atob}
use widespread_logos.Pda.{Sha256}
use widespread_logos.Recovery.Crypto.{Crypto}
use widespread_logos.Recovery.Storage.{StorageClient}
use widespread_logos.Recovery.Enroll.{Draws, PointerResolver}
use widespread_logos.Recovery.Vault.{VaultFactors, onboard_vault, recover_vault}

-- `SecretStore`
pub record Wallet : Type 0 where
  pub secrets : List (Text × Text)
  pub imported : List Text

unfoldable pub secret : Text → List (Text × Text) → Option Text
secret k [] = none
secret k ((name, value) ∷ rest) = if text_eq name k then some value else secret k rest

unfoldable pub keep_secret : Text → Text → Wallet → Wallet
keep_secret k value w = record w { secrets = (k, value) ∷ w.secrets }

-- `secrets.get(k).then((s) => (s ? b64decode(s) : undefined))`
unfoldable pub secret_bytes : Option Text → Result (Option Bytes)
secret_bytes none = ok none
secret_bytes (some []) = ok none
secret_bytes (some (u ∷ s)) = atob (u ∷ s) >>= λ bytes. ok (some bytes)

-- `backend.importBlob`
abbrev pub ImportBlob : Type 0
ImportBlob = Text → Result (Unit {0})

unfoldable pub restore : ImportBlob → Bytes → Option Text → Wallet → Result Wallet
restore import_blob key none w =
    err (message (codes "recovery produced no vault blob — pointer not published?"))
restore import_blob key (some []) w =
    err (message (codes "recovery produced no vault blob — pointer not published?"))
restore import_blob key (some (u ∷ blob)) w = import_blob (u ∷ blob) >>= λ _.
    ok (keep_secret (codes "vaultKey") (btoa key) (record w { imported = (u ∷ blob) ∷ w.imported }))

pub record Passkey : Type 0 where
  pub credential_id : Bytes
  pub prf_output : Bytes

pub record NewVault : Type 0 where
  pub mnemonic : Text
  pub kit_bytes : Bytes
  pub credential_id : Bytes
  pub ptr : Text
  pub pointer_value : Text

-- What the backend and the ceremony answer while a wallet is created.
pub record Answers : Type 0 where
  pub passkey : Result Passkey
  pub mnemonic : Result Text
  pub exported : Option (Result Text)

cannot_import : {A : Type 0} → Result A
cannot_import = err (message (codes "backend cannot import a vault blob"))

no_passkey : {A : Type 0} → Result A
no_passkey = err (message (codes "no passkey enrolled on this device — use the recovery kit"))

module _ (c : Crypto) {S : Type 0} (client : StorageClient S) where
  unfoldable pub create_with_export :
      Answers → Result Text → Text → Draws → Wallet → S → Result (NewVault × (Wallet × S))
  create_with_export answers exported passphrase d w st = answers.passkey >>= λ passkey.
      answers.mnemonic >>= λ mnemonic. exported >>= λ blob.
      onboard_vault c client passkey.prf_output passphrase blob d st >>= λ done. ok (
        record {
          mnemonic = mnemonic;
          kit_bytes = done.0.enrolled.kit_bytes;
          credential_id = passkey.credential_id;
          ptr = done.0.enrolled.ptr;
          pointer_value = done.0.pointer_value;
        },
        (
          keep_secret (codes "credentialId") (btoa passkey.credential_id) (
              keep_secret (codes "vaultKey") (btoa done.0.enrolled.vault_key)
                (keep_secret (codes "sDev") (btoa done.0.enrolled.s_dev) w)),
          done.1,
        ),
      )

  unfoldable pub create_wallet_with_recovery :
      Answers → Text → Draws → Wallet → S → Result (NewVault × (Wallet × S))
  create_wallet_with_recovery answers passphrase d w st = elim (answers.exported) [
    | none ↦ err (message (codes "backend cannot export the vault blob"))
    | some exported ↦ create_with_export answers exported passphrase d w st
  ]

  -- The end of both recoveries: the vault is recovered from the factors and the device's share.
  unfoldable pub recover_with :
      ImportBlob
      → Option Bytes
      → Option (Bytes × Text)
      → PointerResolver
      → Wallet
      → S
      → Result Wallet
  recover_with import_blob prf kit resolve w st =
      secret_bytes (secret (codes "sDev") w.secrets) >>= λ share.
      recover_vault c client (record { prf_output = prf; kit = kit; paired_device_share = share })
        (some resolve) st
      >>= λ out. restore import_blob out.0 out.1 w

  unfoldable pub recover_wallet_with_kit :
      Option ImportBlob → Bytes → Text → PointerResolver → Wallet → S → Result Wallet
  unfolding cannot_import
  recover_wallet_with_kit none kit passphrase resolve w st = cannot_import
  recover_wallet_with_kit (some import_blob) kit passphrase resolve w st =
      recover_with import_blob none (some (kit, passphrase)) resolve w st

  -- `opts.credentialId`, or the one that the wallet keeps.
  unfoldable pub credential : Option Bytes → Wallet → Result (Option Bytes)
  credential (some id) w = ok (some id)
  credential none w = secret_bytes (secret (codes "credentialId") w.secrets)

  unfoldable pub with_passkey :
      ImportBlob
      → (Bytes → Result Bytes)
      → Option Bytes
      → PointerResolver
      → Wallet
      → S
      → Result Wallet
  unfolding no_passkey
  with_passkey import_blob ask none resolve w st = no_passkey
  with_passkey import_blob ask (some id) resolve w st =
      ask id >>= λ prf. recover_with import_blob (some prf) none resolve w st

  unfoldable pub recover_wallet_with_passkey :
      Option ImportBlob
      → (Bytes → Result Bytes)
      → Option Bytes
      → PointerResolver
      → Wallet
      → S
      → Result Wallet
  unfolding cannot_import
  recover_wallet_with_passkey none ask id resolve w st = cannot_import
  recover_wallet_with_passkey (some import_blob) ask id resolve w st =
      credential id w >>= λ found. with_passkey import_blob ask found resolve w st
