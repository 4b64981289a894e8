-- ===== src/Http.antt =====
-- HTTP as src/secret_source.rs, src/vaultwarden.rs and src/setup.rs use it: the client (reqwest) is a
-- call on the world. It never follows a redirect, so one request is one exchange.
use tapwarden.Base.{ℕ, Bool, Option, List, Text, [], ◌∷◌, ◌++◌, Error}
use tapwarden.Base.Action.{Action}
use tapwarden.Secret.Body.{Chunks}

pub data Method : Type 0 where
  get post : Method

abbrev pub Fields : Type 0
Fields = List (Text × Text)

-- `.form(&[...])`, `.json(&json!({...}))` with string values, or no body.
pub data Payload : Type 0 where
  empty : Payload
  form : Fields → Payload
  json : Fields → Payload

pub record Request : Type 0 where
  pub method : Method
  pub url : Text
  pub bearer : Option Text
  pub headers : Fields
  pub payload : Payload

pub record Response : Type 0 where
  pub status : ℕ
  pub body : Chunks

pub record Http (W : Type 0) : Type 0 where
  pub send : Request → Action W Response
  -- `StatusCode::is_success`, and how a status code is displayed
  pub success : ℕ → Bool
  pub show_status : ℕ → Text

abbrev pub is_success : {W : Type 0} → Http W → Response → Bool
is_success http r = http.success r.status

-- `bail!("... HTTP {status}")`
abbrev pub http_error : {W : Type 0} → Http W → Text → Response → Error
http_error http what r = (what ++ http.show_status r.status) ∷ []
