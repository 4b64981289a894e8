-- ===== src/Secret/Bws/New.antt =====
-- src/secret_source.rs: `BwsRest::new`.
use tapwarden.Base.{Option, Text, Result, ok}
use tapwarden.Base.Try.{◌>>=◌, ◌>>◌}
use tapwarden.Authorizer.{Authorizer}
use tapwarden.Secret.Endpoint.{service_urls}
use tapwarden.Secret.Bws.{BwsHost, BwsCredentials, BwsRest, token_source}

module _ {Entry W : Type 0} (host : BwsHost Entry W) (gate : Authorizer W) where
  unfoldable pub new : BwsCredentials → Option Text → Result BwsRest
  unfolding service_urls token_source
  new credentials server_endpoint = do
    (identity_url, api_url) ← service_urls host.parse_url server_endpoint
    source ← token_source host gate credentials
    host.client
    ok (record { identity_url = identity_url; api_url = api_url; source = source })
