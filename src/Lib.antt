-- ===== src/Lib.antt =====
-- tapwarden: an SSH agent that takes its keys from a vault and asks the user before every signature.
--
-- A signing request arrives over a socket at the key service (`Agent.Service`, the `KeyService` of
-- src/agent.rs). The service looks for the key in its cache; on a miss it fetches the configured
-- secrets from the backend. Each fetched secret is decoded (`Agent.Key`). Before the key is used, the
-- authorizer (`Authorizer`, src/authorizer.rs) is asked: a biometric prompt (`Authorizer.Biometric`),
-- a security key's touch (`Authorizer.Yubikey`), or either behind a grace window
-- (`Authorizer.Grace`). Two backends fetch secrets: Bitwarden Secrets Manager (`Secret.Bws`, in
-- src/secret_source.rs) and Vaultwarden (`Vaultwarden.Fetcher`, src/vaultwarden.rs). Both keep a
-- session, renew it after a 401, and wait after a failed login; that loop is written twice in the
-- source and modelled once (`Secret.Session`). Credentials come from the environment or from the
-- keychain (`Keychain`, src/keychain.rs), which is read only behind the authorizer (`Secret.Unlock`).
-- At the start a configuration is loaded and validated (`Config`), the authorizer and the backend are
-- built from it (`Agent.Build`), the runtime directory is made private (`Paths`), and the socket in it
-- is claimed (`Agent.Socket`). `Peer` describes the process behind a connection, for the prompt.
-- `Agent.Serve` puts these together. `Daemon` puts the agent under launchd, `Setup` is the wizard for a
-- first configuration, `Doctor` reports what stands in the way of a working agent, and `Main`
-- dispatches the commands.
--
-- Files, by the source they model:
--   src/agent.rs          Agent/Key (LoadedKey, decode_key), Agent/Service (KeyService), Agent/Build
--                         (build_authorizer, build_fetcher), Agent/Socket (claim_socket), Agent/Probe
--                         (probe_keys), Agent/Serve (serve, run_foreground)
--   src/authorizer.rs     Authorizer/Defs (AuthContext, Authorizer, prompt_reason),
--                         Authorizer/Biometric, Authorizer/Yubikey, Authorizer/Grace,
--                         Authorizer/Registration (register_yubikey)
--   src/config.rs         Config (types), Config/Verifier (YubikeyConfig::verifier), Config/Load
--                         (validate, from_env, load)
--   src/daemon.rs         Daemon (render_plist, xml_escape, uses_env_credentials), Daemon/Launchd
--                         (Launchd, is_loaded), Daemon/Start (start_in), Daemon/Stop (stop_in,
--                         uninstall_in), Daemon/Logs (logs_in, read_tail)
--   src/doctor.rs         Doctor (Report, verdict), Doctor/Checks, Doctor/Wiring, Doctor/Run
--   src/keychain.rs       Keychain
--   src/main.rs           Main (run)
--   src/peer.rs           Peer
--   src/runtime_paths.rs  Paths
--   src/secret_source.rs  Secret/Backoff (check_login_backoff), Secret/Crypto (SymKey),
--                         Secret/EncString, Secret/Token (AccessToken), Secret/Body (json_capped),
--                         Secret/Endpoint (service_urls, validate_base_url), Secret/Session (the loop
--                         of get), Secret/Bws (BwsRest) with Secret/Bws/Decode and Secret/Bws/New
--   src/setup.rs          Setup (ssh_key_items, select_indices, validate_email, yaml_quoted,
--                         answered_yes), Setup/Terminal (prompt), Setup/Server (password_login and
--                         the other calls), Setup/Files (render_config, write_config_file),
--                         Setup/Wizard (run, store_bws_token)
--   src/vaultwarden.rs    Vaultwarden/Kdf (derive_master_key), Vaultwarden/Cipher (extract_secret),
--                         Vaultwarden/Decode, Vaultwarden/Fetcher and Vaultwarden/Fetcher/New
-- Base holds what they share; Http is the HTTP client; Tests holds the theorems at concrete inputs.
--
-- Conventions. A call with effects takes a world of any type and returns a result and the world after
-- it (`Base.Action`); prompts, clocks, the network, the keychain and the security key are such calls,
-- collected in records that the definitions take as parameters. A world that is returned unchanged
-- says that no call was made. A text is the list of its code points, a byte string the list of its
-- bytes; an error is its chain of messages, the outermost first. Durations are whole nanoseconds. A
-- `HashMap` is an association list, and the order in which it is iterated is a parameter. Each
-- call of a fetcher runs under its lock from beginning to end, so the lock is not in the model. The key
-- service is a function of one request; the passes of `loaded_keys` of several clients, which meet at
-- the `loading` lock, are a step relation of their own (Agent/Service/Concurrent).
--
-- The loop of a fetcher runs over the two attempts that the source names. The two loops of `start` in
-- src/daemon.rs wait for launchd and look at the clock; they run on fuel, one unit for a turn, and
-- `none` says that it ran out. With a retry budget of 5 s and a sleep of 50 ms in each turn, 101 units
-- are enough on a clock that does not run backwards. Every other recursion is on a list or on the
-- chunks of a response; only a number's digits are printed on fuel, one more than the number, which has
-- no more digits than that. Integers are unbounded except where the source checks: `checked_mul` of the
-- Argon2 memory size is the 32-bit one, and a selected index is parsed below 2^64. A response's length,
-- a duration and the counters of a report are far from the bounds of their types.
--
-- Not modelled: the asynchronous runtime with its listener, its signals and its tasks, panics
-- of blocking tasks, the zeroing of secrets, the parsing of arguments, JSON, YAML, URLs and UUIDs, and
-- the cryptographic primitives, which are parameters; and src/test_support.rs. A path is the text that
-- it is displayed as. The sessions that a fetcher keeps, and the approvals of a grace authorizer, are
-- part of the world where the agent is put together (`Agent.Probe`), and states of their own where they
-- are modelled; `Agent.Service.Backed` puts the key service and the state of a grace authorizer together,
-- for requests that are signed one after the other.
pub mod Base
pub mod Authorizer
pub mod Keychain
pub mod Http
pub mod Secret
pub mod Agent
pub mod Vaultwarden
pub mod Config
pub mod Paths
pub mod Peer
pub mod Daemon
pub mod Setup
pub mod Doctor
pub mod Main
mod Tests
