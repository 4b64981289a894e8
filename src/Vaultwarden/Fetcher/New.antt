-- ===== src/Vaultwarden/Fetcher/New.antt =====
-- src/vaultwarden.rs: `VaultwardenFetcher::new`.
use tapwarden.Base.{Text, text, trim_end_matches, Result, ok}
use tapwarden.Base.Try.{◌>>◌}
use tapwarden.Secret.Endpoint.{validate_base_url}
use tapwarden.Vaultwarden.Fetcher.{
  VwHost, VwCredentials, env, keychain, VaultwardenFetcher, validate_client_id,
}

unfoldable pub validate_source : VwCredentials → Result (Unit {0})
unfolding validate_client_id
validate_source (env c) = validate_client_id c.client_id
validate_source keychain = ok tt

module _ {Entry W : Type 0} (host : VwHost Entry W) where
  unfoldable pub new : Text → Text → VwCredentials → Result VaultwardenFetcher
  unfolding validate_source
  new server_url email credentials = do
    validate_base_url host.parse_url server_url (text "vaultwarden server_url")
    validate_source credentials
    host.client
    ok (record {
      server_url = trim_end_matches b'/' server_url;
      email = email;
      source = credentials;
    })
