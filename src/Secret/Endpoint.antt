-- ===== src/Secret/Endpoint.antt =====
-- src/secret_source.rs: `validate_base_url`, `service_urls`, `validate_bws_server_endpoint`. The URL
-- parser (`reqwest::Url::parse`) is a parameter.
pub mod Laws
use tapwarden.Base.{
  ℕ, ◌≡◌, ◌↔◌, ◌⊎◌, inl, inr, refl, Bool, true, false, not, ◌&&◌, ◌||◌, Option, none, some, List,
  [], ◌∷◌, ◌++◌, Text, text, text_eq, text_eq_iff, contains, trim_end_matches, is_empty, Result, ok,
  err, bail_if, message, result_map, option_is_some, arith, String, Option-cases, Bool-cases,
  ok-injective, Result-cases, context, if◌then◌else◌,
}
use tapwarden.Base.Try.{◌>>=◌, ◌>>◌, >>=-eq-ok}

pub record Url : Type 0 where
  pub scheme : Text
  pub host : Option Text
  pub username : Text
  pub password : Option Text
  pub path : Text
  pub query : Option Text
  pub fragment : Option Text

-- `.with_context(|| format!("{what} ..."))`
abbrev pub context_text {ℓ} : {A : Type ℓ} → Text → Result A → Result A
context_text m (ok a) = ok a
context_text m (err e) = err (m ∷ e)

-- The `matches!` on a host.
unfoldable pub is_loopback : Option Text → Bool
is_loopback none = false
is_loopback (some host) =
    text_eq host (text "localhost")
    || text_eq host (text "127.0.0.1")
    || text_eq host (text "::1")
    || text_eq host (text "[::1]")

unfoldable pub has_extras : Url → Bool
has_extras url =
    not (option_is_some url.host)
    || not (is_empty url.username)
    || option_is_some url.password
    || option_is_some url.query
    || option_is_some url.fragment

unfoldable pub is_secure : Url → Bool
is_secure url =
    text_eq url.scheme (text "https") || text_eq url.scheme (text "http") && is_loopback url.host

-- The two tests of `validate_base_url` on the parsed URL.
unfoldable pub check_base : Text → Url → Result (Unit {0})
check_base what url = do
  bail_if (has_extras url)
      ((what ++ text " must be a base URL without credentials, query, or fragment") ∷ [])
  bail_if (not (is_secure url))
      ((what ++ text " must use https:// (http:// is allowed for localhost only)") ∷ [])
  ok tt

module _ (parse_url : Text → Result Url) where
  unfoldable pub validate_base_url : Text → Text → Result (Unit {0})
  unfolding check_base
  validate_base_url url what = do
    u ← context_text (what ++ text " is not a valid URL") (parse_url url)
    check_base what u

  abbrev endpoint_or_default : Option Text → Text
  endpoint_or_default none = text "bitwarden.com"
  endpoint_or_default (some e) = e

  -- `server_endpoint.unwrap_or("bitwarden.com").trim_end_matches('/')`
  unfoldable pub endpoint_of : Option Text → Text
  endpoint_of server_endpoint = trim_end_matches b'/' (endpoint_or_default server_endpoint)

  unfoldable pub bare_host : Url → Bool
  unfolding has_extras
  bare_host u = not (has_extras u) && text_eq u.path (text "/")

  -- A full URL: both services under one origin.
  unfoldable pub origin_urls : Text → Result (Text × Text)
  unfolding validate_base_url
  origin_urls endpoint = do
    validate_base_url endpoint (text "BWS server_endpoint")
    ok (endpoint ++ text "/identity", endpoint ++ text "/api")

  -- A bare host: a name for each service under it.
  unfoldable pub host_urls : Text → Result (Text × Text)
  unfolding bare_host
  host_urls endpoint = do
    u ← context "BWS server_endpoint is not a valid host" (parse_url (text "https://" ++ endpoint))
    bail_if (not (bare_host u)) (message "BWS server_endpoint must be a bare host or full base URL")
    ok (text "https://identity." ++ endpoint, text "https://api." ++ endpoint)

  unfoldable pub service_urls : Option Text → Result (Text × Text)
  unfolding origin_urls host_urls endpoint_of
  service_urls server_endpoint =
      let endpoint = endpoint_of server_endpoint in
      if contains (text "://") endpoint then origin_urls endpoint else host_urls endpoint

  unfoldable pub validate_bws_server_endpoint : Option Text → Result (Unit {0})
  unfolding service_urls
  validate_bws_server_endpoint server_endpoint =
      result_map (λ urls. tt) (service_urls server_endpoint)
