-- ===== src/Tests.antt =====
-- The theorems at concrete inputs, part by part.
mod Gate
mod Login
mod Formats
mod Service
mod Vault
mod Start
mod Launch
mod Diagnose
mod Wizard
