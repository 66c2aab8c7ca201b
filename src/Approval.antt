-- ===== src/Approval.antt =====
-- packages/wallet-ui/src/approval.ts: what is asked of the user before a call reaches the signer.
pub mod Decoder
pub mod Sessions
pub mod Effects
pub mod Gate
