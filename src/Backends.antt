-- ===== src/Backends.antt =====
-- The surfaces that the wallet UI runs on: packages/wallet-ui/src/*-backend.ts.
pub mod Seam
pub mod Tauri
pub mod Module
pub mod Extension
pub mod Agreement
pub mod Pwa
pub mod Gated
