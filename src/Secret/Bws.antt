-- ===== src/Secret/Bws.antt =====
-- src/secret_source.rs: `BwsRest`, the Secrets Manager client. The JSON decoders that serde derives
-- are parameters, and so are the parser and the printer of UUIDs.
pub mod Decode
pub mod New
pub mod Laws
use tapwarden.Base.{
  ℕ, ◌≡◌, Bool, true, false, not, Option, none, some, List, [], ◌∷◌, ◌++◌, Text, Bytes, text,
  Result, ok, err, message, context, bail_if, expect, result_map, ◌==◌, if◌then◌else◌,
}
use tapwarden.Base.Action.{Action, ◌>>=◌, ◌>>◌, lift, map_result}
use tapwarden.Base.Time.{Clock}
use tapwarden.Authorizer.{AuthContext, sign, unlock_credentials, Authorizer}
use tapwarden.Keychain
use tapwarden.Keychain.{Keyring, bws_access_token}
use tapwarden.Http.{Method, get, post, Payload, empty, form, Request, Response, Http}
use tapwarden.Secret.Backoff.{login_retry_backoff}
use tapwarden.Secret.Crypto.{Crypto, SymKey}
use tapwarden.Secret.Bws.Decode.{Session, SecretData, BwsJson, read_session, read_secret}
use tapwarden.Secret.Unlock.{unlock_gate}
use tapwarden.Secret.Token
use tapwarden.Secret.Token.{AccessToken}
use tapwarden.Secret.Session.{AuthState, exchange}
use tapwarden.Secret.Endpoint.{Url, service_urls}

-- Everything outside the client.
pub record BwsHost (Entry W : Type 0) : Type 0 where
  pub http : Http W
  -- whether the HTTP client can be built
  pub client : Result (Unit {0})
  pub keyring : Keyring Entry W
  pub clock : Clock W
  pub crypto : Crypto
  pub json : BwsJson
  pub parse_uuid : Text → Result ℕ
  pub show_uuid : ℕ → Text
  pub parse_url : Text → Result Url

pub data BwsCredentials : Type 0 where
  env : Text → BwsCredentials
  keychain : BwsCredentials

pub data TokenSource : Type 0 where
  parsed : AccessToken → TokenSource
  in_keychain : TokenSource

pub record BwsRest : Type 0 where
  pub identity_url : Text
  pub api_url : Text
  pub source : TokenSource

module _ {Entry W : Type 0} (host : BwsHost Entry W) (gate : Authorizer W) where
  unfoldable pub token_source : BwsCredentials → Result TokenSource
  token_source (env token) = result_map parsed (Token.parse host.crypto host.parse_uuid token)
  token_source keychain = ok in_keychain

  unfoldable pub unlock : AuthContext
  unlock = unlock_credentials (text "unlock the Bitwarden Secrets Manager access token")

  -- The gate comes before the keychain.
  unfoldable pub resolve_keychain_token : Action W AccessToken
  unfolding unlock_gate
  resolve_keychain_token = do
    unlock_gate gate unlock
    token ← Keychain.read host.keyring bws_access_token
    lift (Token.parse host.crypto host.parse_uuid token)

  module _ (client : BwsRest) where
    unfoldable pub token_request : AccessToken → Request
    token_request token = record {
      method = post;
      url = client.identity_url ++ text "/connect/token";
      bearer = none;
      headers = (text "accept", text "application/json") ∷ [];
      payload = form (
          (text "scope", text "api.secrets")
          ∷ (text "client_id", host.show_uuid token.client_id)
          ∷ (text "client_secret", token.client_secret)
          ∷ (text "grant_type", text "client_credentials")
          ∷ []);
    }

    unfoldable pub authenticate : AccessToken → Action W Session
    unfolding token_request read_session
    authenticate token = do
      response ←
          map_result (context "token exchange failed: request error")
            (host.http.send (token_request token))
      lift (read_session host.http host.crypto host.json token response)

    unfoldable pub login_from : TokenSource → Action W Session
    unfolding authenticate resolve_keychain_token
    login_from (parsed token) = authenticate token
    login_from in_keychain = do token ← resolve_keychain_token; authenticate token

    unfoldable pub login : Action W Session
    unfolding login_from
    login = login_from client.source

    unfoldable pub secret_request : ℕ → Session → Request
    secret_request id session = record {
      method = get;
      url = client.api_url ++ (text "/secrets/" ++ host.show_uuid id);
      bearer = some session.bearer;
      headers = (text "accept", text "application/json") ∷ [];
      payload = empty;
    }

    unfoldable pub fetch : ℕ → Session → Action W Response
    unfolding secret_request
    fetch id session =
        map_result (context "secret fetch failed: request error")
          (host.http.send (secret_request id session))

    abbrev pub unauthorized : Response → Bool
    unauthorized r = r.status == 401

    -- `get`, with the backoff that the client was built with.
    unfoldable pub get_secret : ℕ → ℕ → Action (AuthState Session W) SecretData
    unfolding exchange login fetch read_secret
    get_secret backoff id = do
      (session, response) ← exchange host.clock backoff login (fetch id) unauthorized
      lift (read_secret host.http host.crypto host.json session response)
