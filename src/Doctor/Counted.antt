-- ===== src/Doctor/Counted.antt =====
-- That every check keeps the count of what is printed.
use tapwarden.Base.{
  ℕ, refl, Bool, true, false, Option, none, some, List, [], ◌∷◌, Text, text, starts_with,
  strip_prefix, Result, ok, err, Bool-cases, inl, inr, ◌==◌, ◌%◌,
}
use tapwarden.Config.{
  Backend, bws, vaultwarden, CredentialSource, env, keychain, AuthFactor, touch_id, yubikey, Config,
  VaultwardenConfig,
}
use tapwarden.Config.Load.{load}
use tapwarden.Paths.{socket_path}
use tapwarden.Paths.Compare.{path_eq}
use tapwarden.Doctor.{Report, fine, warn, fail, line, hint}
use tapwarden.Doctor.Checks.{
  DoctorHost, report_mode, report_presence, report_launchagent, check_config_perms, report_config,
  check_config, report_token, report_unset, report_env, check_credentials, credentials_of,
  check_presence, report_socket, existing, answering, check_agent, section_credentials,
  vaultwarden_credentials, bws_credentials, backend_credentials,
}
use tapwarden.Doctor.Wiring.{report_effective, report_ssh_wiring, wired, check_ssh_wiring}
use tapwarden.Doctor.Run.{report_key, report_keys, report_backend, check_backend_keys, backend_of}
use tapwarden.Doctor.Tally.{IsTally, line-IsTally, hint-IsTally, print-IsTally}
use tapwarden.Agent.Probe.{AgentHost}

warned-IsTally :
    (label detail advice : Text) (r : Report)
    → IsTally r
    → IsTally (hint advice (line warn label detail r))
warned-IsTally label detail advice r t = hint-IsTally advice _ (line-IsTally warn label detail r t)

failed-IsTally :
    (label detail advice : Text) (r : Report)
    → IsTally r
    → IsTally (hint advice (line fail label detail r))
failed-IsTally label detail advice r t = hint-IsTally advice _ (line-IsTally fail label detail r t)

report_mode-IsTally :
    (path : Text) (mode : Result ℕ) (r : Report) → IsTally r → IsTally (report_mode path mode r)
unfolding report_mode
report_mode-IsTally path (err e) r t = t
report_mode-IsTally path (ok bits) r t = elim (Bool-cases (bits % 512 % 64 == 0)) [
  | inl private ↦ rw private (line-IsTally fine _ _ r t)
  | inr open_to ↦ rw open_to (warned-IsTally _ _ _ r t)
]

report_presence-IsTally :
    (factor : AuthFactor) (available : Bool) (r : Report)
    → IsTally r
    → IsTally (report_presence factor available r)
unfolding report_presence
report_presence-IsTally touch_id true r t = line-IsTally fine _ _ r t
report_presence-IsTally touch_id false r t = warned-IsTally _ _ _ r t
report_presence-IsTally yubikey true r t = line-IsTally fine _ _ r t
report_presence-IsTally yubikey false r t = warned-IsTally _ _ _ r t

report_launchagent-IsTally :
    (loaded : Bool) (r : Report) → IsTally r → IsTally (report_launchagent loaded r)
unfolding report_launchagent
report_launchagent-IsTally true r t = line-IsTally fine _ _ r t
report_launchagent-IsTally false r t = warned-IsTally _ _ _ r t

report_effective-IsTally :
    (socket : Text) (agent : Text × Option Text) (r : Report)
    → IsTally r
    → IsTally (report_effective socket agent r)
unfolding report_effective
report_effective-IsTally socket (via, none) r t = warned-IsTally _ _ _ r t
report_effective-IsTally socket (via, some val) r t = elim (Bool-cases (path_eq val socket)) [
  | inl same ↦ rw same (line-IsTally fine _ _ r t)
  | inr other ↦ rw other (warned-IsTally _ _ _ r t)
]

report_keys-IsTally :
    (show_id : ℕ → Text) (results : List (ℕ × Result Text)) (r : Report)
    → IsTally r
    → IsTally (report_keys show_id results r)
unfolding report_keys report_key
report_keys-IsTally show_id [] r t = t
report_keys-IsTally show_id ((id, ok comment) ∷ rest) r t =
    report_keys-IsTally show_id rest _ (line-IsTally fine _ _ r t)
report_keys-IsTally show_id ((id, err e) ∷ rest) r t =
    report_keys-IsTally show_id rest _ (line-IsTally fail _ _ r t)

report_backend-IsTally :
    (show_id : ℕ → Text) (results : Result (List (ℕ × Result Text))) (r : Report)
    → IsTally r
    → IsTally (report_backend show_id results r)
unfolding report_backend
report_backend-IsTally show_id (ok results) r t =
    line-IsTally _ _ _ _ (report_keys-IsTally show_id results r t)
report_backend-IsTally show_id (err e) r t = failed-IsTally _ _ _ r t

report_token-IsTally :
    (token : Result Text) (name : Text) (r : Report)
    → IsTally r
    → IsTally (report_token token name r)
unfolding report_token
report_token-IsTally (ok token) name r t = line-IsTally fine _ _ r t
report_token-IsTally (err e) name r t = warned-IsTally _ _ _ r t

report_unset-IsTally : (names : List Text) (r : Report) → IsTally r → IsTally (report_unset names r)
report_unset-IsTally [] r t = line-IsTally fine _ _ r t
report_unset-IsTally (name ∷ names) r t = line-IsTally warn _ _ r t

module _ {E Device PublicKey R W : Type 0} (host : DoctorHost E Device PublicKey R W) where
  check_config_perms-IsTally :
      (path : Option Text) (r : Report) (w : W)
      → IsTally r
      → IsTally (check_config_perms host path r w).0
  unfolding check_config_perms
  check_config_perms-IsTally none r w t = t
  check_config_perms-IsTally (some path) r w t = report_mode-IsTally path (host.mode path w).0 r t

  report_config-IsTally :
      (path : Option Text) (r : Report) (p : Result Config × W)
      → IsTally r
      → IsTally (report_config host path r p).1.0
  unfolding report_config
  report_config-IsTally path r (err e, w) t = failed-IsTally _ _ _ r t
  report_config-IsTally path r (ok cfg, w) t =
      check_config_perms-IsTally path _ w (line-IsTally fine _ _ r t)

  pub check_config-IsTally :
      (path : Option Text) (r : Report) (w : W)
      → IsTally r
      → IsTally (check_config host path r w).1.0
  unfolding check_config
  check_config-IsTally path r w t = report_config-IsTally _ r (load host.config path w) t

  check_credentials-IsTally :
      (cfg : Config) (r : Report) → IsTally r → IsTally (check_credentials host cfg r)
  unfolding check_credentials report_env
  check_credentials-IsTally cfg r t = go cfg.backend
    where
      from_source :
          (source : CredentialSource) (vw : VaultwardenConfig)
          → IsTally (vaultwarden_credentials host source vw r)
      from_source env vw = report_unset-IsTally _ r t
      from_source keychain vw = line-IsTally fine _ _ r t

      from_section : (vw : Option VaultwardenConfig) → IsTally (section_credentials host vw r)
      from_section none = t
      from_section (some vw) = from_source vw.credentials vw

      from_bws : (source : CredentialSource) → IsTally (bws_credentials host source cfg r)
      from_bws env = report_token-IsTally _ _ r t
      from_bws keychain = line-IsTally fine _ _ r t

      go : (backend : Backend) → IsTally (backend_credentials host backend cfg r)
      go bws = from_bws cfg.credentials
      go vaultwarden = from_section cfg.vaultwarden

  pub credentials_of-IsTally :
      (cfg : Option Config) (r : Report) → IsTally r → IsTally (credentials_of host cfg r)
  credentials_of-IsTally none r t = t
  credentials_of-IsTally (some cfg) r t = check_credentials-IsTally cfg r t

  pub check_presence-IsTally :
      (cfg : Option Config) (r : Report) (w : W)
      → IsTally r
      → IsTally (check_presence host cfg r w).0
  unfolding check_presence
  check_presence-IsTally cfg r w t = report_presence-IsTally _ _ r t

  report_socket-IsTally :
      (socket : Result Text) (r : Report) (w : W)
      → IsTally r
      → IsTally (report_socket host socket r w).0
  unfolding report_socket
  report_socket-IsTally (err e) r w t = line-IsTally fail _ _ r t
  report_socket-IsTally (ok socket) r w t = go (host.exists socket w)
    where
      answers : (p : Bool × W) → IsTally (answering host socket r p).0
      answers (true, v) = line-IsTally fine _ _ r t
      answers (false, v) = warned-IsTally _ _ _ r t

      go : (p : Bool × W) → IsTally (existing host socket r p).0
      go (false, v) = line-IsTally warn _ _ r t
      go (true, v) = answers (host.connect socket v)

  pub check_agent-IsTally : (r : Report) (w : W) → IsTally r → IsTally (check_agent host r w).0
  unfolding check_agent
  check_agent-IsTally r w t = report_socket-IsTally _ _ _ (report_launchagent-IsTally _ r t)

  pub check_ssh_wiring-IsTally :
      (r : Report) (w : W) → IsTally r → IsTally (check_ssh_wiring host r w).0
  unfolding check_ssh_wiring report_ssh_wiring
  check_ssh_wiring-IsTally r w t = go (socket_path host.files w)
    where
      go : (p : Result Text × W) → IsTally (wired host r p).0
      go (err e, v) = t
      go (ok socket, v) = report_effective-IsTally socket _ r t

  module _ {Entry PrivateKey : Type 0} (agent : AgentHost Entry Device PublicKey R PrivateKey W)
      (show_id : ℕ → Text) where
    pub backend_of-IsTally :
        (check_backend : Bool) (cfg : Option Config) (r : Report) (w : W)
        → IsTally r
        → IsTally (backend_of host agent show_id check_backend cfg r w).0
    unfolding check_backend_keys text starts_with strip_prefix
    backend_of-IsTally true (some cfg) r w t = report_backend-IsTally show_id _ r t
    backend_of-IsTally true none r w t = line-IsTally warn _ _ r t
    backend_of-IsTally false cfg r w t = print-IsTally _ r (refl, refl, refl, refl) t
