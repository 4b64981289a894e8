-- ===== src/Secret/Bws/Decode.antt =====
-- src/secret_source.rs: what `BwsRest` makes of the two responses, after they have arrived.
use tapwarden.Base.{not, Option, Text, Bytes, text, Result, ok, context, bail_if}
use tapwarden.Base.Try.{◌>>=◌, ◌>>◌}
use tapwarden.Http.{Response, Http, is_success, http_error}
use tapwarden.Secret.Body.{json_capped}
use tapwarden.Secret.Crypto.{Crypto, SymKey, from_bytes}
use tapwarden.Secret.EncString
use tapwarden.Secret.Token.{AccessToken}

pub record SecretData : Type 0 where
  pub name : Text
  pub openssh_private_key : Text

pub record Session : Type 0 where
  pub bearer : Text
  pub org_key : SymKey

-- The shapes that serde reads: the token response (access token, encrypted payload), the payload
-- (encryption key), and the secret response (key, value).
pub record BwsJson : Type 0 where
  pub token_response : Bytes → Option (Text × Text)
  pub payload : Bytes → Result Text
  pub secret_response : Bytes → Option (Text × Text)

module _ {W : Type 0} (http : Http W) (crypto : Crypto) (json : BwsJson) where
  -- The organization key from the payload's base64.
  unfoldable pub org_key_of : Text → Result SymKey
  unfolding from_bytes
  org_key_of encryption_key = context "token exchange failed: bad organization key" (
      context "token exchange failed: organization key is not base64"
        (crypto.b64_decode encryption_key)
      >>= from_bytes)

  -- `authenticate`, from the response on.
  unfoldable pub read_session : AccessToken → Response → Result Session
  unfolding org_key_of
  read_session token response = do
    bail_if (not (is_success http response))
        (http_error http (text "token exchange failed: HTTP ") response)
    (access_token, encrypted_payload) ←
        context "token exchange failed" (json_capped json.token_response response.body)
    parsed ←
        context "token exchange failed: bad encrypted_payload"
          (EncString.parse crypto encrypted_payload)
    payload ←
        context "token exchange failed: payload decryption"
          (EncString.decrypt crypto parsed token.encryption_key)
    encryption_key ←
        context "token exchange failed: payload is not the expected JSON" (json.payload payload)
    org_key ← org_key_of encryption_key
    ok (record { bearer = access_token; org_key = org_key })

  -- `get`, from the final response on.
  unfoldable pub read_secret : Session → Response → Result SecretData
  read_secret session response = do
    bail_if (not (is_success http response))
        (http_error http (text "secret fetch failed: HTTP ") response)
    (key, value) ← context "secret fetch failed" (json_capped json.secret_response response.body)
    key_enc ← EncString.parse crypto key
    name ←
        context "secret fetch failed: key decryption"
          (EncString.decrypt_to_string crypto key_enc session.org_key)
    value_enc ← EncString.parse crypto value
    private_key ←
        context "secret fetch failed: value decryption"
          (EncString.decrypt_to_string crypto value_enc session.org_key)
    ok (record { name = name; openssh_private_key = private_key })
