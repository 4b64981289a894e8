-- ===== src/Vaultwarden/Fetcher.antt =====
-- src/vaultwarden.rs: `VaultwardenFetcher`.
pub mod New
pub mod Laws
use tapwarden.Base.{
  ℕ, Bool, true, false, not, Option, none, some, List, [], ◌∷◌, ◌++◌, Text, Bytes, text,
  starts_with, trim_end_matches, Result, ok, err, message, context, bail_if, ◌==◌,
}
use tapwarden.Base.Action.{Action, ◌>>=◌, ◌>>◌, lift, map_result}
use tapwarden.Base.Time.{Clock}
use tapwarden.Authorizer.{AuthContext, unlock_credentials, Authorizer}
use tapwarden.Keychain
use tapwarden.Keychain.{Keyring, vw_client_id, vw_client_secret, vw_master_password}
use tapwarden.Http.{Fields, Method, get, post, Payload, empty, form, Request, Response, Http}
use tapwarden.Secret.Body.{json_capped}
use tapwarden.Secret.Crypto.{Crypto, SymKey, from_bytes}
use tapwarden.Secret.EncString
use tapwarden.Secret.Endpoint.{Url, validate_base_url}
use tapwarden.Secret.Unlock.{unlock_gate}
use tapwarden.Secret.Session.{AuthState, exchange}
use tapwarden.Secret.Bws.Decode.{SecretData}
use tapwarden.Vaultwarden.Kdf.{KdfHost}
use tapwarden.Vaultwarden.Cipher.{CipherResponse}
use tapwarden.Vaultwarden.Decode.{TokenResponse, Session, read_session, read_secret}

-- Everything outside the fetcher; `token` and `cipher` are serde's decoders.
pub record VwHost (Entry W : Type 0) : Type 0 where
  pub http : Http W
  pub keyring : Keyring Entry W
  pub clock : Clock W
  pub crypto : Crypto
  pub kdf : KdfHost
  pub token : Bytes → Option TokenResponse
  pub cipher : Bytes → Option CipherResponse
  pub show_uuid : ℕ → Text
  pub parse_url : Text → Result Url
  -- whether the HTTP client can be built
  pub client : Result (Unit {0})

pub record Credentials : Type 0 where
  pub client_id : Text
  pub client_secret : Text
  pub master_password : Text

pub data VwCredentials : Type 0 where
  env : Credentials → VwCredentials
  keychain : VwCredentials

pub record VaultwardenFetcher : Type 0 where
  pub server_url : Text
  pub email : Text
  pub source : VwCredentials

unfoldable pub validate_client_id : Text → Result (Unit {0})
validate_client_id client_id =
    bail_if (not (starts_with (text "user.") client_id))
      (message "vaultwarden client_id must have the form user.<uuid> (personal API key)")

abbrev pub json_header : Text × Text
json_header = (text "accept", text "application/json")

abbrev pub version_header : Text × Text
version_header = (text "Bitwarden-Client-Version", text "2025.6.0")

abbrev pub device_fields : Fields
device_fields =
    (text "deviceIdentifier", text "6c11ea63-9b34-4c73-b9ca-8f8b74dd6d10")
    ∷ (text "deviceName", text "tapwarden")
    ∷ (text "deviceType", text "14")
    ∷ []

module _ {Entry W : Type 0} (host : VwHost Entry W) (gate : Authorizer W) where
  unfoldable pub unlock : AuthContext
  unlock = unlock_credentials (text "unlock backend credentials for Vaultwarden")

  -- The gate comes before the keychain, and the client id is checked before the two secrets are read.
  unfoldable pub read_credentials : Action W Credentials
  unfolding unlock_gate validate_client_id
  read_credentials = do
    unlock_gate gate unlock
    client_id ← Keychain.read host.keyring vw_client_id
    lift (validate_client_id client_id)
    client_secret ← Keychain.read host.keyring vw_client_secret
    master_password ← Keychain.read host.keyring vw_master_password
    lift (
        ok (record {
          client_id = client_id;
          client_secret = client_secret;
          master_password = master_password;
        }))

  unfoldable pub acquire_credentials : VwCredentials → Action W Credentials
  unfolding read_credentials
  acquire_credentials (env c) = lift (ok c)
  acquire_credentials keychain = read_credentials

  module _ (fetcher : VaultwardenFetcher) where
    unfoldable pub token_request : Credentials → Request
    token_request c = record {
      method = post;
      url = fetcher.server_url ++ text "/identity/connect/token";
      bearer = none;
      headers = json_header ∷ version_header ∷ [];
      payload = form (
          (text "grant_type", text "client_credentials")
          ∷ (text "scope", text "api")
          ∷ (text "client_id", c.client_id)
          ∷ (text "client_secret", c.client_secret)
          ∷ device_fields);
    }

    unfoldable pub authenticate : Credentials → Action W Session
    unfolding token_request read_session
    authenticate c = do
      response ←
          map_result (context "token exchange failed: request error")
            (host.http.send (token_request c))
      lift (
          read_session host.http host.crypto host.kdf host.token fetcher.email c.master_password
            response)

    unfoldable pub login : Action W Session
    unfolding acquire_credentials authenticate
    login = do c ← acquire_credentials fetcher.source; authenticate c

    unfoldable pub cipher_request : ℕ → Session → Request
    cipher_request id session = record {
      method = get;
      url = fetcher.server_url ++ (text "/api/ciphers/" ++ host.show_uuid id);
      bearer = some session.bearer;
      headers = json_header ∷ version_header ∷ [];
      payload = empty;
    }

    unfoldable pub fetch : ℕ → Session → Action W Response
    unfolding cipher_request
    fetch id session =
        map_result (context "cipher fetch failed: request error")
          (host.http.send (cipher_request id session))

    abbrev pub unauthorized : Response → Bool
    unauthorized r = r.status == 401

    -- `get`, with the backoff that the fetcher was built with.
    unfoldable pub get_secret : ℕ → ℕ → Action (AuthState Session W) SecretData
    unfolding exchange login fetch read_secret
    get_secret backoff id = do
      (session, response) ← exchange host.clock backoff login (fetch id) unauthorized
      lift (read_secret host.http host.crypto host.cipher session response)
