-- ===== src/Config.antt =====
-- src/config.rs: the configuration file. Each field that serde may leave out has the default that the
-- decoder gives it; the YAML decoder is a parameter of `load`. An environment is what `std::env::var`
-- gives for each name, with `none` for a variable that is not set or is not valid Unicode.
pub mod Verifier
pub mod Load
pub mod Laws
pub mod Loading
use tapwarden.Base.{ℕ, Option, none, some, List, [], ◌∷◌, ◌++◌, Text, text, Result, ok, err}

pub data Backend : Type 0 where
  bws vaultwarden : Backend

pub data CredentialSource : Type 0 where
  env keychain : CredentialSource

pub record VaultwardenConfig : Type 0 where
  pub server_url : Text
  pub email : Text
  pub credentials : CredentialSource
  pub client_id_env : Text
  pub client_secret_env : Text
  pub master_password_env : Text

pub data AuthFactor : Type 0 where
  touch_id yubikey : AuthFactor

pub data YubikeyPublicKeyAlgorithm : Type 0 where
  es256 ed25519 : YubikeyPublicKeyAlgorithm

pub record YubikeyPublicKey : Type 0 where
  pub algorithm : YubikeyPublicKeyAlgorithm
  pub bytes : Text

pub record YubikeyConfig : Type 0 where
  pub credential_id : Text
  pub public_key : Option YubikeyPublicKey

pub data AuthMode : Type 0 where
  per_use grace : AuthMode

pub record Authorization : Type 0 where
  pub mode : AuthMode
  pub factor : AuthFactor
  pub yubikey : Option YubikeyConfig
  pub grace_seconds : ℕ

pub record Config : Type 0 where
  pub backend : Backend
  pub access_token_env : Text
  pub credentials : CredentialSource
  pub secret_ids : List Text
  pub server_endpoint : Option Text
  pub vaultwarden : Option VaultwardenConfig
  pub authorization : Authorization

abbrev pub default_token_env : Text
default_token_env = text "BWS_ACCESS_TOKEN"

abbrev pub default_grace : ℕ
default_grace = 60

-- `Authorization::default()`
abbrev pub default_authorization : Authorization
default_authorization = record {
  mode = per_use;
  factor = touch_id;
  yubikey = none;
  grace_seconds = default_grace;
}

module _ (var : Text → Option Text) where
  unfoldable pub found : Text → Option Text → Result Text
  found name (some v) = ok v
  found name none =
      err ((text "env var `" ++ name ++ text "` is not set or not valid unicode") ∷ [])

  -- The error names the variable, never a value.
  unfoldable pub env_var : Text → Result Text
  unfolding found
  env_var name = found name (var name)

  unfoldable pub client_id : VaultwardenConfig → Result Text
  unfolding env_var
  client_id vw = env_var vw.client_id_env

  unfoldable pub client_secret : VaultwardenConfig → Result Text
  unfolding env_var
  client_secret vw = env_var vw.client_secret_env

  unfoldable pub master_password : VaultwardenConfig → Result Text
  unfolding env_var
  master_password vw = env_var vw.master_password_env

  unfoldable pub access_token : Config → Result Text
  unfolding env_var
  access_token c = env_var c.access_token_env
