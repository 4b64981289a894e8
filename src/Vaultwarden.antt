-- ===== src/Vaultwarden.antt =====
-- src/vaultwarden.rs: the backend that reads SSH keys from a dedicated Vaultwarden account.
pub mod Kdf
pub mod Cipher
pub mod Decode
pub mod Fetcher
