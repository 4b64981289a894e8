-- ===== src/Authorizer.antt =====
-- src/authorizer.rs: the request for an approval, the `Authorizer` trait, the text of the prompt,
-- and the wait for a biometric verdict.
pub mod Biometric
pub mod Yubikey
pub mod Grace
pub mod Registration
unfoldable pub use Defs.*
mod Defs
