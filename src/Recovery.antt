-- ===== src/Recovery.antt =====
-- packages/recovery/src: the vault key, its shares, the sealed kit and blob, and how a wallet is
-- enrolled and recovered.
pub mod Crypto
pub mod Sealing
pub mod Storage
pub mod Passkey
pub mod Enroll
pub mod Vault
