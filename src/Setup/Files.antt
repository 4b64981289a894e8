-- ===== src/Setup/Files.antt =====
-- src/setup.rs: the configuration file that the wizard writes: `render_config`, `confirm_overwrite` and
-- `write_config_file`.
pub mod Mode
use tapwarden.Base.{
  ℕ, Bool, true, false, not, Option, none, some, List, [], ◌∷◌, ◌++◌, Text, text, Bytes, utf8,
  Result, ok, err, message, context, expect, bail_if,
}
use tapwarden.Base.Try as Try
use tapwarden.Base.Action.{Action, ◌>>=◌, ◌>>◌, lift, map_result}
use tapwarden.Config.{CredentialSource, env, keychain}
use tapwarden.Paths.{Files, join_path, reject_symlink}
use tapwarden.Setup.{yaml_quoted, answered_yes}

pub record FileHost (Handle W : Type 0) : Type 0 where
  pub files : Files W
  pub exists : Text → W → Bool × W
  -- for writing, created if it is not there and emptied if it is; the mode is that of a new file
  pub open_truncated : Text → ℕ → Action W Handle
  pub write_all : Handle → Bytes → Action W (Unit {0})
  pub println : Text → W → W

abbrev pub config_rel : Text
config_rel = text ".config/tapwarden/config.yaml"

abbrev comment : CredentialSource → Text
comment keychain =
    text
      "# Written by `tapwarden setup`. Credentials live ONLY in the macOS Keychain\n# (service \"tapwarden\"); every read is gated by a Touch ID prompt.\n"
comment env =
    text
      "# Written by `tapwarden setup`. Credentials live ONLY in the env vars\n# TAPWARDEN_VW_CLIENT_ID / TAPWARDEN_VW_CLIENT_SECRET / TAPWARDEN_VW_MASTER_PASSWORD.\n"

abbrev source_name : CredentialSource → Text
source_name keychain = text "keychain"
source_name env = text "env"

-- One line for each id.
unfoldable pub id_lines : (ℕ → Text) → List ℕ → Text
id_lines show_uuid [] = []
id_lines show_uuid (id ∷ ids) = text "  - " ++ (show_uuid id ++ (10 ∷ id_lines show_uuid ids))

unfoldable pub config_text : (ℕ → Text) → Text → Text → List ℕ → CredentialSource → Text
unfolding id_lines
config_text show_uuid server_url email secret_ids credentials =
    comment credentials
    ++ (text "backend: vaultwarden\nvaultwarden:\n  server_url: "
        ++ (server_url
            ++ (text "\n  email: "
                ++ (email
                    ++ (text "\n  credentials: "
                        ++ (source_name credentials
                            ++ (text "\nsecret_ids:\n"
                                ++ (id_lines show_uuid secret_ids
                                    ++ text
                                        "authorization:\n  mode: per_use\n  grace_seconds: 60\n"))))))))

unfoldable pub render_config : (ℕ → Text) → Text → Text → List ℕ → CredentialSource → Result Text
unfolding yaml_quoted config_text
render_config show_uuid server_url email secret_ids credentials =
    Try.and_then
      (λ url.
        Try.and_then (λ mail. ok (config_text show_uuid url mail secret_ids credentials))
          (yaml_quoted email))
      (yaml_quoted server_url)

module _ {Handle W : Type 0} (host : FileHost Handle W) where
  abbrev in_home : Option Text → Result Text
  in_home none = err (message "unable to determine home directory")
  in_home (some dir) = ok (join_path dir config_rel)

  unfoldable pub config_path : Result Text
  unfolding join_path
  config_path = in_home host.files.home_dir

  abbrev say : Text → Action W (Unit {0})
  say s w = (ok tt, host.println s w)

  abbrev pub overwrite : Text → Action W Text → Bool × W → Result (Unit {0}) × W
  overwrite path confirm (false, w) = (ok tt, w)
  overwrite path confirm (true, w) =
      (do
        say (text "Config file " ++ path ++ text " already exists.")
        answer ← confirm
        lift (
            bail_if (not (answered_yes answer false))
              (message "aborted: the existing config file was left untouched")))
        w

  abbrev if_exists : Text → Action W Text → Action W (Unit {0})
  if_exists path confirm w = overwrite path confirm (host.exists path w)

  unfoldable pub confirm_overwrite : Text → Action W Text → Action W (Unit {0})
  unfolding reject_symlink answered_yes
  confirm_overwrite path confirm = reject_symlink host.files path >> if_exists path confirm

  abbrev create_parent : Option Text → Action W (Unit {0})
  create_parent none = lift (ok tt)
  create_parent (some dir) =
      map_result (context "failed to create the config directory") (host.files.create_dir_all dir)

  unfoldable pub write_config_file : Text → Text → Action W (Unit {0})
  unfolding reject_symlink
  write_config_file path contents = do
    reject_symlink host.files path
    create_parent (host.files.parent path)
    file ←
        map_result (context "failed to open the config file for writing")
          (host.open_truncated path 384)
    map_result (context "failed to write the config file") (host.write_all file (utf8 contents))
    map_result (context "failed to set config file permissions")
        (host.files.set_permissions path 384)
