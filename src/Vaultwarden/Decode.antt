-- ===== src/Vaultwarden/Decode.antt =====
-- src/vaultwarden.rs: what the fetcher makes of the two responses, after they have arrived.
use tapwarden.Base.{not, Option, Text, Bytes, text, Result, ok, context, bail_if}
use tapwarden.Base.Try.{◌>>=◌, ◌>>◌}
use tapwarden.Http.{Response, Http, is_success, http_error}
use tapwarden.Secret.Body.{json_capped}
use tapwarden.Secret.Crypto.{Crypto, SymKey, from_bytes}
use tapwarden.Secret.EncString
use tapwarden.Secret.Bws.Decode.{SecretData}
use tapwarden.Vaultwarden.Kdf.{KdfHost, KdfParams, derive_master_key, stretch_master_key}
use tapwarden.Vaultwarden.Cipher.{CipherResponse, extract_secret}

pub record TokenResponse : Type 0 where
  pub access_token : Text
  pub key : Text
  pub kdf : KdfParams

pub record Session : Type 0 where
  pub bearer : Text
  pub user_key : SymKey

module _ {W : Type 0} (http : Http W) (crypto : Crypto) where
  -- The user key, wrapped under the stretched master key.
  unfoldable pub unwrap_user_key : Text → SymKey → Result SymKey
  unfolding from_bytes
  unwrap_user_key key stretched = do
    parsed ← context "login failed: bad user key EncString" (EncString.parse crypto key)
    context "login failed: bad user key" (
        context "login failed: user key decryption (wrong master password?)"
          (EncString.decrypt crypto parsed stretched)
        >>= from_bytes)

  -- `authenticate`, from the response on; `decode` is serde's decoder.
  unfoldable pub read_session :
      KdfHost → (Bytes → Option TokenResponse) → Text → Text → Response → Result Session
  unfolding stretch_master_key unwrap_user_key
  read_session kdf decode email master_password response = do
    bail_if (not (is_success http response))
        (http_error http (text "token exchange failed: HTTP ") response)
    t ← context "token exchange failed" (json_capped decode response.body)
    master_key ←
        context "login failed: master key derivation"
          (derive_master_key kdf master_password email t.kdf)
    user_key ← unwrap_user_key t.key (stretch_master_key crypto master_key)
    ok (record { bearer = t.access_token; user_key = user_key })

  -- `get`, from the final response on.
  unfoldable pub read_secret :
      (Bytes → Option CipherResponse) → Session → Response → Result SecretData
  unfolding extract_secret
  read_secret decode session response = do
    bail_if (not (is_success http response))
        (http_error http (text "cipher fetch failed: HTTP ") response)
    cipher ← context "cipher fetch failed" (json_capped decode response.body)
    extract_secret crypto cipher session.user_key
