-- ===== src/Registry.antt =====
-- sdk/registry/src/index.ts: the client of the program registry.
pub mod Address
pub mod Entry
pub mod Client
pub mod Agreement
