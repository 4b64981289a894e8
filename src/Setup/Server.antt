-- ===== src/Setup/Server.antt =====
-- src/setup.rs: the calls of the server: `prelogin`, `login_attempt`, `password_login`,
-- `fetch_api_key`, `fetch_profile` and `fetch_sync`. serde's decoders are parameters.
pub mod Login
use tapwarden.Base.{
  ℕ, Bool, true, false, not, Option, none, some, List, [], ◌∷◌, ◌++◌, Text, text, text_eq, Bytes,
  any, Result, ok, err, message, context, bail_if, if◌then◌else◌,
}
use tapwarden.Base.Action.{Action, ◌>>=◌, ◌>>◌, lift, map_result, continue_with}
use tapwarden.Http.{
  Fields, Method, get, post, Payload, empty, form, json, Request, Response, Http, is_success,
  http_error,
}
use tapwarden.Secret.Body.{json_capped, json_capped_limit, max_sync_response_bytes}
use tapwarden.Vaultwarden.Kdf.{KdfParams}
use tapwarden.Vaultwarden.Fetcher.{json_header, version_header, device_fields}
use tapwarden.Setup.{SyncCipher}
use tapwarden.Setup.Terminal.{Terminal, prompt}

abbrev pub totp_provider : Text
totp_provider = text "0"

pub record PreloginResponse : Type 0 where
  pub kdf : ℕ
  pub kdf_iterations : ℕ
  pub kdf_memory : Option ℕ
  pub kdf_parallelism : Option ℕ

-- `impl From<PreloginResponse> for KdfParams`
unfoldable pub kdf_params : PreloginResponse → KdfParams
kdf_params p = record {
  kdf = p.kdf;
  iterations = p.kdf_iterations;
  memory = p.kdf_memory;
  parallelism = p.kdf_parallelism;
}

pub record TokenSuccess : Type 0 where
  pub access_token : Text
  pub key : Text

pub record TwoFactorError : Type 0 where
  pub two_factor_providers : List Text

pub record ApiKeyResponse : Type 0 where
  pub api_key : Text

pub record ProfileResponse : Type 0 where
  pub id : ℕ

pub record SyncResponse : Type 0 where
  pub ciphers : List SyncCipher

pub data LoginOutcome : Type 0 where
  success : TokenSuccess → LoginOutcome
  two_factor_required : List Text → LoginOutcome

pub record ServerHost (W : Type 0) : Type 0 where
  pub http : Http W
  pub terminal : Terminal W
  pub prelogin : Bytes → Option PreloginResponse
  pub token : Bytes → Option TokenSuccess
  pub two_factor : Bytes → Option TwoFactorError
  pub api_key : Bytes → Option ApiKeyResponse
  pub profile : Bytes → Option ProfileResponse
  pub sync : Bytes → Option SyncResponse

-- `if let Some(code) = totp { form.push(...) }`
unfoldable pub totp_fields : Option Text → Fields
totp_fields none = []
totp_fields (some code) =
    (text "twoFactorProvider", totp_provider) ∷ (text "twoFactorToken", code) ∷ []

module _ (server_url : Text) where
  unfoldable pub prelogin_request : Text → Request
  prelogin_request email = record {
    method = post;
    url = server_url ++ text "/identity/accounts/prelogin";
    bearer = none;
    headers = json_header ∷ version_header ∷ [];
    payload = json ((text "email", email) ∷ []);
  }

  unfoldable pub login_request : Text → Text → Option Text → Request
  unfolding totp_fields
  login_request email password_hash totp = record {
    method = post;
    url = server_url ++ text "/identity/connect/token";
    bearer = none;
    headers = json_header ∷ version_header ∷ [];
    payload = form (
        (text "grant_type", text "password")
        ∷ (text "username", email)
        ∷ (text "password", password_hash)
        ∷ (text "scope", text "api offline_access")
        ∷ (text "client_id", text "cli")
        ∷ (device_fields ++ totp_fields totp));
  }

  unfoldable pub api_key_request : Text → Text → Request
  api_key_request bearer password_hash = record {
    method = post;
    url = server_url ++ text "/api/accounts/api-key";
    bearer = some bearer;
    headers = json_header ∷ version_header ∷ [];
    payload = json ((text "masterPasswordHash", password_hash) ∷ []);
  }

  unfoldable pub get_request : Text → Text → Request
  get_request path bearer = record {
    method = get;
    url = server_url ++ path;
    bearer = some bearer;
    headers = json_header ∷ version_header ∷ [];
    payload = empty;
  }

abbrev pub offers_totp : List Text → Bool
offers_totp providers = any (λ p. text_eq p totp_provider) providers

abbrev pub totp_label : Text
totp_label = text "Two-factor TOTP code: "

module _ {W : Type 0} (host : ServerHost W) where
  -- A status that is no success is an error; the body is read only then.
  abbrev expect_success : Text → Response → Result (Unit {0})
  expect_success what response =
      bail_if (not (is_success host.http response)) (http_error host.http what response)

  unfoldable pub prelogin : Text → Text → Action W PreloginResponse
  unfolding prelogin_request
  prelogin server_url email = do
    response ←
        map_result (context "prelogin failed: request error")
          (host.http.send (prelogin_request server_url email))
    lift (expect_success (text "prelogin failed: HTTP ") response)
    lift (context "prelogin failed" (json_capped host.prelogin response.body))

  abbrev login_error : Response → Result LoginOutcome
  login_error response = err (
      (text "login failed: HTTP "
        ++ host.http.show_status response.status
        ++ text
            " (wrong email/master password or two-factor code; if the server requires new-device email verification, complete it and retry)")
      ∷ [])

  abbrev succeeded : Result TokenSuccess → Result LoginOutcome
  succeeded (ok t) = ok (success t)
  succeeded (err e) = err e

  abbrev offered : Response → List Text → Result LoginOutcome
  offered response [] = login_error response
  offered response (p ∷ ps) = ok (two_factor_required (p ∷ ps))

  -- The error body only tells whether a second factor is required.
  unfoldable pub refused : Response → Result TwoFactorError → Result LoginOutcome
  refused response (err e) = login_error response
  refused response (ok e) = offered response e.two_factor_providers

  unfoldable pub read_outcome : Response → Result LoginOutcome
  unfolding refused
  read_outcome response =
      if is_success host.http response
      then succeeded (context "login failed" (json_capped host.token response.body))
      else refused response (json_capped host.two_factor response.body)

  unfoldable pub login_attempt : Text → Text → Text → Option Text → Action W LoginOutcome
  unfolding login_request read_outcome
  login_attempt server_url email password_hash totp = do
    response ←
        map_result (context "login failed: request error")
          (host.http.send (login_request server_url email password_hash totp))
    lift (read_outcome response)

  unfoldable pub second_outcome : LoginOutcome → Result TokenSuccess
  second_outcome (success token) = ok token
  second_outcome (two_factor_required providers) =
      err (message "login failed: two-factor code rejected")

  -- With a code from the user; no other method is supported.
  unfoldable pub two_factor_login : Text → Text → Text → List Text → Action W TokenSuccess
  unfolding prompt login_attempt second_outcome
  two_factor_login server_url email password_hash providers = do
    lift (
        bail_if (not (offers_totp providers)) (
          message
            "this account requires a two-factor method tapwarden setup does not support; use an account with TOTP (authenticator app) or no 2FA"))
    code ← prompt host.terminal totp_label
    outcome ← login_attempt server_url email password_hash (some code)
    lift (second_outcome outcome)

  unfoldable pub after_attempt : Text → Text → Text → LoginOutcome → Action W TokenSuccess
  unfolding two_factor_login
  after_attempt server_url email password_hash (success token) = lift (ok token)
  after_attempt server_url email password_hash (two_factor_required providers) =
      two_factor_login server_url email password_hash providers

  unfoldable pub password_login : Text → Text → Text → Action W TokenSuccess
  unfolding login_attempt after_attempt
  password_login server_url email password_hash = do
    outcome ← login_attempt server_url email password_hash none
    after_attempt server_url email password_hash outcome

  unfoldable pub fetch_api_key : Text → Text → Text → Action W ApiKeyResponse
  unfolding api_key_request
  fetch_api_key server_url bearer password_hash = do
    response ←
        map_result (context "api-key request failed: request error")
          (host.http.send (api_key_request server_url bearer password_hash))
    lift (expect_success (text "api-key request failed: HTTP ") response)
    lift (context "api-key request failed" (json_capped host.api_key response.body))

  unfoldable pub fetch_profile : Text → Text → Action W ProfileResponse
  unfolding get_request
  fetch_profile server_url bearer = do
    response ←
        map_result (context "profile fetch failed: request error")
          (host.http.send (get_request server_url (text "/api/accounts/profile") bearer))
    lift (expect_success (text "profile fetch failed: HTTP ") response)
    lift (context "profile fetch failed" (json_capped host.profile response.body))

  -- The whole vault, under the larger bound.
  unfoldable pub fetch_sync : Text → Text → Action W SyncResponse
  unfolding get_request
  fetch_sync server_url bearer = do
    response ←
        map_result (context "sync failed: request error")
          (host.http.send (get_request server_url (text "/api/sync") bearer))
    lift (expect_success (text "sync failed: HTTP ") response)
    lift (context "sync failed" (json_capped_limit host.sync response.body max_sync_response_bytes))
