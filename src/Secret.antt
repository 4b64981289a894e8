-- ===== src/Secret.antt =====
-- src/secret_source.rs, and the parts of a backend session that both backends share.
pub mod Backoff
pub mod Session
pub mod Crypto
pub mod EncString
pub mod Token
pub mod Body
pub mod Endpoint
pub mod Unlock
pub mod Bws
