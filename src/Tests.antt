-- ===== src/Tests.antt =====
-- Concrete inputs: the platform and the storage node made of concrete functions, and one use of each
-- theorem that has hypotheses.
mod World
mod Codec
mod Wallet
mod Custody
mod Chain
mod Surfaces
mod Page
mod Database
mod Services
