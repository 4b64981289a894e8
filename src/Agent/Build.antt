-- ===== src/Agent/Build.antt =====
-- src/agent.rs: `build_authorizer` and `build_fetcher`, which choose by the configuration. The grace
-- authorizer keeps a state of its own, so what is built is the factor with the way it is used.
use tapwarden.Base.{ℕ, ◌*◌, ◌≡◌, refl, some, Bytes, Result, ok, expect, context}
use tapwarden.Base.Try.{◌>>=◌}
use tapwarden.Base.Time.{from_secs}
use tapwarden.Authorizer.{Authorizer}
use tapwarden.Authorizer.Yubikey.{FidoHost, yubikey_touch}
use tapwarden.Config.{
  Backend, bws, vaultwarden, CredentialSource, env, keychain, AuthFactor, touch_id, yubikey,
  AuthMode, per_use, grace, YubikeyConfig, VaultwardenConfig, Config, access_token, client_id,
  client_secret, master_password,
}
use tapwarden.Config.Verifier.{verifier, Verifies, verifier_iff}
use tapwarden.Config.Load.{ConfigHost, validate}
use tapwarden.Config.Laws.{validate_iff, HasFactor}
use tapwarden.Secret.Bws.{BwsHost, BwsCredentials, BwsRest}
use tapwarden.Secret.Bws.New as BwsNew
use tapwarden.Vaultwarden.Fetcher.{VwHost, VwCredentials, VaultwardenFetcher}
use tapwarden.Vaultwarden.Fetcher.New as VwNew

-- The authorizer that gates signatures and credentials.
pub data Gate (W : Type 0) : Type 0 where
  every_use : Authorizer W → Gate W
  with_grace : Authorizer W → ℕ → Gate W

pub data Fetcher : Type 0 where
  bws_rest : BwsRest → Fetcher
  vaultwarden_fetcher : VaultwardenFetcher → Fetcher

module _ {Device PublicKey R W : Type 0} (host : ConfigHost PublicKey W) (biometric : Authorizer W)
    (fido : FidoHost Device PublicKey R W) where
  unfoldable pub build_factor : AuthFactor → Config → Result (Authorizer W)
  build_factor touch_id c = ok biometric
  build_factor yubikey c = do
    y ←
        expect
          "factor is yubikey but no credential is registered — run `tapwarden register-yubikey`"
          c.authorization.yubikey
    (credential_id, public_key) ← verifier host.verifiers y
    ok (yubikey_touch fido credential_id public_key)

  unfoldable pub with_mode : AuthMode → ℕ → Authorizer W → Gate W
  with_mode per_use seconds factor = every_use factor
  with_mode grace seconds factor = with_grace factor (from_secs seconds)

  unfoldable pub build_authorizer : Config → Result (Gate W)
  unfolding build_factor with_mode
  build_authorizer c = do
    factor ← build_factor c.authorization.factor c
    ok (with_mode c.authorization.mode c.authorization.grace_seconds factor)

  -- The factor that the configuration names: Touch ID, or the registered key with its verifier.
  abbrev pub IsFactor : AuthFactor → Config → Authorizer W → Type 0
  IsFactor touch_id c factor = factor ≡ biometric
  IsFactor yubikey c factor =
      (y : YubikeyConfig) × (id : Bytes) × (key : PublicKey) × (c.authorization.yubikey ≡ some y)
      × Verifies host.verifiers y id key
      × (factor ≡ yubikey_touch fido id key)

  build_factor_valid :
      (f : AuthFactor) (c : Config)
      → HasFactor host f c
      → (factor : Authorizer W) × (build_factor f c ≡ ok factor) × IsFactor f c factor
  unfolding build_factor
  build_factor_valid touch_id c h = (biometric, refl, refl)
  build_factor_valid yubikey c (y, e, (id, key, v)) = (
    yubikey_touch fido id key,
    rw (e, (verifier_iff host.verifiers y id key).1 v) refl,
    (y, id, key, e, v, refl),
  )

  -- The way that the configuration wants the factor used: asked at every use, or behind a window of
  -- the configured seconds, in nanoseconds.
  abbrev pub IsMode : AuthMode → ℕ → Authorizer W → Gate W → Type 0
  IsMode per_use seconds factor gate = gate ≡ every_use factor
  IsMode grace seconds factor gate = gate ≡ with_grace factor (seconds * 1_000_000_000)

  with_mode-IsMode :
      (mode : AuthMode) (seconds : ℕ) (factor : Authorizer W)
      → IsMode mode seconds factor (with_mode mode seconds factor)
  unfolding with_mode
  with_mode-IsMode per_use seconds factor = refl
  with_mode-IsMode grace seconds factor = refl

  -- For a configuration that passes the validation an authorizer is always built, and it is the one
  -- the configuration names: Touch ID or the registered security key, asked at every use or, in
  -- grace mode, behind a window of that many seconds.
  pub build_authorizer_valid :
      (c : Config)
      → validate host c ≡ ok tt
      → (gate : Gate W) × (factor : Authorizer W) × (build_authorizer c ≡ ok gate)
        × IsMode c.authorization.mode c.authorization.grace_seconds factor gate
        × IsFactor c.authorization.factor c factor
  unfolding build_authorizer
  build_authorizer_valid c h =
      let (factor, e, named) =
        build_factor_valid c.authorization.factor c ((validate_iff host c).0 h).factor in
      (
        with_mode c.authorization.mode c.authorization.grace_seconds factor,
        factor,
        rw e refl,
        with_mode-IsMode c.authorization.mode c.authorization.grace_seconds factor,
        named,
      )

module _ {Entry PublicKey W : Type 0} (host : ConfigHost PublicKey W) (bws_host : BwsHost Entry W)
    (vw_host : VwHost Entry W) (gate : Authorizer W) where
  unfoldable pub bws_credentials : CredentialSource → Config → Result BwsCredentials
  bws_credentials env c = do token ← access_token host.var c; ok (BwsCredentials.env token)
  bws_credentials keychain c = ok BwsCredentials.keychain

  unfoldable pub vw_credentials : CredentialSource → VaultwardenConfig → Result VwCredentials
  vw_credentials env vw = do
    id ← client_id host.var vw
    secret ← client_secret host.var vw
    password ← master_password host.var vw
    ok (
        VwCredentials.env
          (record { client_id = id; client_secret = secret; master_password = password }))
  vw_credentials keychain vw = ok VwCredentials.keychain

  unfoldable pub build_for : Backend → Config → Result Fetcher
  unfolding bws_credentials vw_credentials
  build_for bws c = do
    credentials ← bws_credentials c.credentials c
    client ←
        context "failed to initialize the Bitwarden Secrets Manager client"
          (BwsNew.new bws_host gate credentials c.server_endpoint)
    ok (bws_rest client)
  build_for vaultwarden c = do
    vw ←
        expect "backend is vaultwarden but the `vaultwarden` config section is missing"
          c.vaultwarden
    credentials ← vw_credentials vw.credentials vw
    fetcher ←
        context "failed to initialize the Vaultwarden client"
          (VwNew.new vw_host vw.server_url vw.email credentials)
    ok (vaultwarden_fetcher fetcher)

  unfoldable pub build_fetcher : Config → Result Fetcher
  unfolding build_for
  build_fetcher c = build_for c.backend c
