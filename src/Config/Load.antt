-- ===== src/Config/Load.antt =====
-- src/config.rs: `Config::validate`, `from_env` and `Config::load`. The file system, the YAML decoder,
-- the UUID parser and the home directory are parameters.
use tapwarden.Base.{
  ℕ, Bool, true, false, not, Option, none, some, List, [], ◌∷◌, ◌++◌, Text, text, trim, split,
  filter, map, is_empty, Result, ok, err, expect, bail_if, message, result_map,
}
use tapwarden.Base.Try.{◌>>=◌, ◌>>◌}
use tapwarden.Base.Action.{Action}
use tapwarden.Secret.Endpoint.{Url, context_text, validate_base_url, validate_bws_server_endpoint}
use tapwarden.Config.{
  Backend, bws, vaultwarden, env, AuthFactor, touch_id, yubikey, Config, default_token_env,
  default_authorization,
}
use tapwarden.Config.Verifier.{VerifierHost, verifier}

pub record ConfigHost (PublicKey W : Type 0) : Type 0 where
  pub verifiers : VerifierHost PublicKey
  pub parse_uuid : Text → Result ℕ
  pub parse_url : Text → Result Url
  pub from_yaml : Text → Result Config
  pub var : Text → Option Text
  -- `home.join(CONFIG_REL)`, if there is a home directory
  pub default_path : Option Text
  pub exists : Text → W → Bool × W
  pub read_to_string : Text → Action W Text

module _ {PublicKey W : Type 0} (host : ConfigHost PublicKey W) where
  unfoldable pub validate_ids : List Text → Result (Unit {0})
  validate_ids [] = ok tt
  validate_ids (id ∷ ids) = do
    context_text (text "secret id `" ++ id ++ text "` is not a UUID")
        (result_map (λ n. tt) (host.parse_uuid id))
    validate_ids ids

  unfoldable pub validate_backend : Backend → Config → Result (Unit {0})
  validate_backend vaultwarden c = do
    vw ←
        expect "backend is vaultwarden but the `vaultwarden` config section is missing"
          c.vaultwarden
    validate_base_url host.parse_url vw.server_url (text "vaultwarden server_url")
  validate_backend bws c = validate_bws_server_endpoint host.parse_url c.server_endpoint

  unfoldable pub validate_factor : AuthFactor → Config → Result (Unit {0})
  validate_factor touch_id c = ok tt
  validate_factor yubikey c = do
    y ←
        expect
          "authorization.factor is yubikey but no credential is registered — run `tapwarden register-yubikey`"
          c.authorization.yubikey
    result_map (λ v. tt) (verifier host.verifiers y)

  unfoldable pub validate : Config → Result (Unit {0})
  unfolding validate_ids validate_backend validate_factor
  validate c = do
    bail_if (is_empty c.secret_ids) (
        message
          "no secret_ids configured (set them in the config file or via TAPWARDEN_SECRET_IDS)")
    validate_ids c.secret_ids
    validate_backend c.backend c
    validate_factor c.authorization.factor c

  unfoldable pub env_ids : Text → List Text
  env_ids s = filter (λ id. not (is_empty id)) (map trim (split b',' s))

  unfoldable pub from_env : Text → Config
  unfolding env_ids
  from_env secret_ids = record {
    backend = bws;
    vaultwarden = none;
    access_token_env = default_token_env;
    credentials = env;
    secret_ids = env_ids secret_ids;
    server_endpoint = host.var (text "TAPWARDEN_SERVER_ENDPOINT");
    authorization = default_authorization;
  }

  -- `std::env::var(...).unwrap_or_default()`
  abbrev pub or_empty : Option Text → Text
  or_empty none = []
  or_empty (some s) = s

  unfoldable pub parsed : Text → Result Text × W → Result Config × W
  parsed path (err e, w) = (err ((text "failed to read config file: " ++ path) ∷ e), w)
  parsed path (ok s, w) =
      (context_text (text "failed to parse " ++ path ++ text " as YAML") (host.from_yaml s), w)

  -- The file, or the environment where there is none.
  unfoldable pub read_config : Text → Bool × W → Result Config × W
  unfolding parsed from_env
  read_config path (true, w) = parsed path (host.read_to_string path w)
  read_config path (false, w) =
      (ok (from_env (or_empty (host.var (text "TAPWARDEN_SECRET_IDS")))), w)

  unfoldable pub checked : Result Config × W → Result Config × W
  unfolding validate
  checked (err e, w) = (err e, w)
  checked (ok c, w) = (validate c >> ok c, w)

  -- From the path on; a missing file is an error only where it was asked for.
  unfoldable pub load_existing : Text → Bool × W → Result Config × W
  unfolding read_config checked
  load_existing path (false, w) =
      (err ((text "config file " ++ path ++ text " does not exist") ∷ []), w)
  load_existing path (true, w) = checked (read_config path (host.exists path w))

  unfoldable pub load_default : Option Text → Action W Config
  unfolding read_config checked
  load_default none w = (err (message "unable to determine home directory"), w)
  load_default (some path) w = checked (read_config path (host.exists path w))

  unfoldable pub load : Option Text → Action W Config
  unfolding load_existing load_default
  load (some path) w = load_existing path (host.exists path w)
  load none w = load_default host.default_path w

  unfoldable pub resolved_path : Option Text → Result Text
  resolved_path (some path) = ok path
  resolved_path none = expect "unable to determine home directory" host.default_path
