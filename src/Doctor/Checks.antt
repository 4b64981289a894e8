-- ===== src/Doctor/Checks.antt =====
-- src/doctor.rs: the checks of the configuration, the credentials, the presence factor, the service and
-- the socket. Each takes the report and the world, and returns both. Where the source looks at the
-- system, the world answers.
use tapwarden.Base.{
  ℕ, ◌/◌, ◌%◌, ◌+◌, Bool, true, false, Option, none, some, List, [], ◌∷◌, ◌++◌, Text, text, join,
  decimal, length, Bytes, Result, ok, err, render, to_option, ◌==◌, if◌then◌else◌,
}
use tapwarden.Base.Action.{Action}
use tapwarden.Authorizer.Biometric.{BiometricHost, biometrics_available}
use tapwarden.Authorizer.Yubikey.{FidoHost, yubikey_present}
use tapwarden.Config.{
  Backend, bws, vaultwarden, CredentialSource, env, keychain, AuthFactor, touch_id, yubikey, Config,
  VaultwardenConfig, access_token, client_id, client_secret, master_password,
}
use tapwarden.Config.Load.{ConfigHost, load, resolved_path}
use tapwarden.Paths.{Files, socket_path}
use tapwarden.Daemon.{label}
use tapwarden.Daemon.Launchd.{DaemonHost, is_loaded}
use tapwarden.Doctor.{Report, fine, warn, fail, line, hint}

-- What doctor looks at. `mode` is `metadata(path)?.permissions().mode()`; `ssh_output` is the standard
-- output of `ssh -G tapwarden-doctor-probe`, if it could be run.
pub record DoctorHost (E Device PublicKey R W : Type 0) : Type 0 where
  pub version : Text
  pub current_exe : W → Option Text × W
  pub config : ConfigHost PublicKey W
  pub mode : Text → Action W ℕ
  pub biometric : BiometricHost E W
  pub fido : FidoHost Device PublicKey R W
  pub daemon : DaemonHost W
  pub files : Files W
  pub exists : Text → W → Bool × W
  pub connect : Text → W → Bool × W
  pub ssh_output : W → Option Bytes × W
  pub var_os : Text → Option Text

-- `{mode:04o}` of a mode below 0o1000.
unfoldable pub octal : ℕ → Text
octal n = b'0' ∷ (48 + n / 64) ∷ (48 + n / 8 % 8) ∷ (48 + n % 8) ∷ []

unfoldable pub report_mode : Text → Result ℕ → Report → Report
unfolding octal
report_mode path (err e) r = r
report_mode path (ok bits) r =
    let mode = bits % 512 in
    if mode % 64 == 0
    then line fine (text "config perms") (text "0600") r
    else hint (text "chmod 600 " ++ path) (
        line warn (text "config perms")
          (path ++ text " is " ++ octal mode ++ text ", expected 0600") r)

unfoldable pub report_presence : AuthFactor → Bool → Report → Report
report_presence touch_id true r =
    line fine (text "touch id") (text "LocalAuthentication policy available") r
report_presence touch_id false r =
    hint (text "signing falls back to the account password prompt")
      (line warn (text "touch id") (text "biometric policy unavailable on this platform") r)
report_presence yubikey true r =
    line fine (text "yubikey") (text "a FIDO2 security key is connected") r
report_presence yubikey false r =
    hint (text "insert your YubiKey — a touch is required for every signature")
      (line warn (text "yubikey") (text "no FIDO2 security key detected") r)

unfoldable pub report_launchagent : Bool → Report → Report
report_launchagent true r = line fine (text "launchagent") (label ++ text " is loaded in launchd") r
report_launchagent false r =
    hint (text "start the background agent with `tapwarden start`")
      (line warn (text "launchagent") (text "not loaded in launchd") r)

unfoldable pub report_token : Result Text → Text → Report → Report
report_token (ok token) name r =
    line fine (text "credentials") (text "$" ++ name ++ text " is set") r
report_token (err e) name r =
    hint
      (text
        "export the token, or run `tapwarden store-token` and set `credentials: keychain` so the background agent can read it")
      (line warn (text "credentials") (text "$" ++ name ++ text " is not set in this shell") r)

-- `missing.then_some(name)`
abbrev pub unset : Result Text → Text → List Text
unset (ok value) name = []
unset (err e) name = name ∷ []

abbrev pub report_unset : List Text → Report → Report
report_unset [] r = line fine (text "credentials") (text "vaultwarden env vars are all set") r
report_unset (name ∷ names) r =
    line warn (text "credentials") (text "unset env var(s): " ++ join (text ", ") (name ∷ names)) r

abbrev pub backend_name : Backend → Text
backend_name bws = text "bitwarden secrets manager"
backend_name vaultwarden = text "vaultwarden"

module _ {E Device PublicKey R W : Type 0} (host : DoctorHost E Device PublicKey R W) where
  unfoldable pub check_config_perms : Option Text → Report → W → Report × W
  unfolding report_mode
  check_config_perms none r w = (r, w)
  check_config_perms (some path) r w =
      let (mode, w') = host.mode path w in (report_mode path mode r, w')

  unfoldable pub report_config :
      Option Text → Report → Result Config × W → Option Config × (Report × W)
  unfolding check_config_perms
  report_config path r (err e, w) = (
    none,
    (
      hint
          (text
            "run `tapwarden setup`, or copy config.yaml.example to ~/.config/tapwarden/config.yaml")
          (line fail (text "config") (render e) r),
      w,
    ),
  )
  report_config path r (ok cfg, w) = (
    some cfg,
    check_config_perms path
        (line fine (text "config")
          (text "loaded, "
            ++ decimal (length cfg.secret_ids)
            ++ text " key id(s), backend: "
            ++ backend_name cfg.backend)
          r)
        w,
  )

  unfoldable pub check_config : Option Text → Report → W → Option Config × (Report × W)
  unfolding report_config
  check_config path r w =
      report_config (to_option (resolved_path host.config path)) r (load host.config path w)

  unfoldable pub report_env : VaultwardenConfig → Report → Report
  unfolding client_id client_secret master_password
  report_env vw r =
      report_unset
        (unset (client_id host.config.var vw) vw.client_id_env
          ++ (unset (client_secret host.config.var vw) vw.client_secret_env
              ++ unset (master_password host.config.var vw) vw.master_password_env))
        r

  abbrev pub vaultwarden_credentials : CredentialSource → VaultwardenConfig → Report → Report
  vaultwarden_credentials env vw r = report_env vw r
  vaultwarden_credentials keychain vw r =
      line fine (text "credentials")
        (text "stored in the macOS Keychain (verified end-to-end with --check-backend)") r

  abbrev pub bws_credentials : CredentialSource → Config → Report → Report
  bws_credentials env cfg r = report_token (access_token host.config.var cfg) cfg.access_token_env r
  bws_credentials keychain cfg r =
      line fine (text "credentials")
        (text "BWS token stored in the macOS Keychain (verified end-to-end with --check-backend)") r

  abbrev pub section_credentials : Option VaultwardenConfig → Report → Report
  section_credentials none r = r
  section_credentials (some vw) r = vaultwarden_credentials vw.credentials vw r

  abbrev pub backend_credentials : Backend → Config → Report → Report
  backend_credentials bws cfg r = bws_credentials cfg.credentials cfg r
  backend_credentials vaultwarden cfg r = section_credentials cfg.vaultwarden r

  unfoldable pub check_credentials : Config → Report → Report
  unfolding report_token report_env
  check_credentials cfg r = backend_credentials cfg.backend cfg r

  abbrev pub credentials_of : Option Config → Report → Report
  credentials_of none r = r
  credentials_of (some cfg) r = check_credentials cfg r

  abbrev pub factor_of : Option Config → AuthFactor
  factor_of none = touch_id
  factor_of (some cfg) = cfg.authorization.factor

  abbrev pub available : AuthFactor → W → Bool × W
  available touch_id w = biometrics_available host.biometric w
  available yubikey w = yubikey_present host.fido w

  unfoldable pub check_presence : Option Config → Report → W → Report × W
  unfolding report_presence
  check_presence cfg r w =
      let (found, w') = available (factor_of cfg) w in (report_presence (factor_of cfg) found r, w')

  abbrev pub answering : Text → Report → Bool × W → Report × W
  answering socket r (true, w) = (line fine (text "socket") (socket ++ text " is live") r, w)
  answering socket r (false, w) = (
    hint (text "restart with `tapwarden start`")
        (line warn (text "socket") (socket ++ text " exists but nothing answers (stale?)") r),
    w,
  )

  abbrev pub existing : Text → Report → Bool × W → Report × W
  existing socket r (false, w) =
      (line warn (text "socket") (socket ++ text " does not exist (agent not running?)") r, w)
  existing socket r (true, w) = answering socket r (host.connect socket w)

  unfoldable pub report_socket : Result Text → Report → W → Report × W
  report_socket (ok socket) r w = existing socket r (host.exists socket w)
  report_socket (err e) r w = (line fail (text "socket") (render e) r, w)

  unfoldable pub check_agent : Report → W → Report × W
  unfolding is_loaded report_launchagent report_socket socket_path
  check_agent r w =
      let (up, w1) = is_loaded host.daemon w in
      let (socket, w2) = socket_path host.files w1 in
      report_socket socket (report_launchagent up r) w2
