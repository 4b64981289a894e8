-- ===== src/Daemon/Start.antt =====
-- src/daemon.rs: `start`. The file that is written, then the change of service with its two loops:
-- one waits until the old service has vanished, the other repeats `bootstrap`. Both run on fuel, and
-- `none` says that it ran out. `to_str` gives no text for a path that is not valid UTF-8.
pub mod Refusal
pub mod Termination
pub mod Kickstart
use tapwarden.Base.{
  ℕ, zero, suc, ◌+◌, Bool, true, false, not, ◌&&◌, Option, none, some, List, [], ◌∷◌, ◌++◌, Text,
  text, trim, Bytes, Result, ok, err, message, Error, context, expect, bail_if, leb, if◌then◌else◌,
}
use tapwarden.Base.Lossy.{from_utf8_lossy}
use tapwarden.Base.Time.{Clock}
use tapwarden.Base.Action.{Action, ◌>>=◌, ◌>>◌, lift, map_result, continue_with}
use tapwarden.Secret.Endpoint.{context_text}
use tapwarden.Config.{Config}
use tapwarden.Paths.{Files, socket_path, reject_symlink, identity_agent_line}
use tapwarden.Daemon.{gui_domain, service_target, label, render_plist, uses_env_credentials}
use tapwarden.Daemon.Launchd.{Output, Launchd, DaemonHost, real, loaded, bootout}

pub record StartHost (W : Type 0) : Type 0 where
  pub daemon : DaemonHost W
  pub files : Files W
  pub clock : Clock W
  pub current_exe : Action W Text
  pub canonicalize : Text → Action W Text
  pub to_str : Text → Option Text
  pub write : Text → Text → Action W (Unit {0})
  pub sleep : ℕ → W → W

-- `Duration::from_millis(50)`
abbrev pub poll_interval : ℕ
poll_interval = 50_000_000

abbrev pub env_refusal : Error
env_refusal =
    message
      "this config resolves credentials from env vars, which launchd does not provide, so the background agent could not fetch keys. Either run `tapwarden start --fg` from a shell that exports them, or switch to `credentials: keychain` (`tapwarden setup` for Vaultwarden, `tapwarden store-token` for Bitwarden Secrets Manager)."

module _ {W : Type 0} (host : StartHost W) where
  abbrev canonicalized : Result Text × W → Result (Option Text) × W
  canonicalized (err e, w) = (err e, w)
  canonicalized (ok path, w) = (ok (some path), w)

  abbrev canonical : Option Text → Action W (Option Text)
  canonical none w = (ok none, w)
  canonical (some path) w = canonicalized (host.canonicalize path w)

  abbrev valid_config : Option Text → Result (Option Text)
  valid_config none = ok none
  valid_config (some path) = valid_path (host.to_str path)
    where
      valid_path : Option Text → Result (Option Text)
      valid_path none = err (message "the config file path is not valid UTF-8")
      valid_path (some p) = ok (some p)

  -- Up to the permissions of the property list. The path of the socket is kept for the output.
  unfoldable pub install : Launchd W → Config → Option Text → Action W Text
  unfolding uses_env_credentials render_plist socket_path reject_symlink
  install launchd config config_path = do
    lift (bail_if (uses_env_credentials config) env_refusal)
    exe_path ←
        map_result (context "failed to resolve the tapwarden executable path") host.current_exe
    exe ← lift (expect "the tapwarden executable path is not valid UTF-8" (host.to_str exe_path))
    resolved ← map_result (context "failed to resolve the config file path") (canonical config_path)
    config_str ← lift (valid_config resolved)
    log ← lift (expect "the log file path is not valid UTF-8" (host.to_str launchd.log))
    socket ← socket_path host.files
    socket_str ← lift (expect "the socket path is not valid UTF-8" (host.to_str socket))
    dir ← lift (
        expect "the LaunchAgent plist path has no parent directory"
          (host.files.parent launchd.plist))
    map_result (context_text (text "failed to create " ++ dir)) (host.files.create_dir_all dir)
    reject_symlink host.files launchd.plist
    reject_symlink host.files launchd.log
    map_result (context_text (text "failed to write " ++ launchd.plist))
        (host.write launchd.plist (render_plist exe log config_str socket_str))
    map_result (context_text (text "failed to set permissions on " ++ launchd.plist))
        (host.files.set_permissions launchd.plist 420)
    lift (ok socket)

  module _ (launchd : Launchd W) where
    -- One turn of the wait: `again` is the rest of it.
    unfoldable pub wait_turn : (W → Option W) → ℕ → Bool × W → Option W
    wait_turn again deadline (false, w) = some w
    wait_turn again deadline (true, w) =
        let (now, w') = host.clock.instant w in
        elim (leb deadline now) [ true ↦ some w' | false ↦ again (host.sleep poll_interval w') ]

    unfoldable pub wait_unloaded : ℕ → ℕ → W → Option W
    unfolding wait_turn loaded
    wait_unloaded zero deadline w = none
    wait_unloaded (suc n) deadline w =
        wait_turn (wait_unloaded n deadline) deadline (loaded host.daemon launchd w)

    -- After a `bootstrap` that did not exit with success, and the look at what is loaded.
    unfoldable pub retry_turn :
        (W → Option (Result Output × W)) → ℕ → Bool → Output → Bool × W → Option (Result Output × W)
    retry_turn again deadline booted_out out (true, w) = some (ok out, w)
    retry_turn again deadline false out (false, w) = some (ok out, w)
    retry_turn again deadline true out (false, w) =
        let (now, w') = host.clock.instant w in
        elim (leb deadline now) [
          | true ↦ some (ok out, w')
          | false ↦ again (host.sleep poll_interval w')
        ]

    unfoldable pub exited :
        (W → Option (Result Output × W)) → ℕ → Bool → Output → Bool → W → Option (Result Output × W)
    unfolding retry_turn loaded
    exited again deadline booted_out out true w = some (ok out, w)
    exited again deadline booted_out out false w =
        retry_turn again deadline booted_out out (loaded host.daemon launchd w)

    unfoldable pub bootstrap_turn :
        (W → Option (Result Output × W)) → ℕ → Bool → Result Output × W → Option (Result Output × W)
    unfolding exited
    bootstrap_turn again deadline booted_out (err e, w) = some (err e, w)
    bootstrap_turn again deadline booted_out (ok out, w) =
        exited again deadline booted_out out out.success w

    unfoldable pub bootstrap : ℕ → ℕ → Bool → Text → W → Option (Result Output × W)
    unfolding bootstrap_turn gui_domain
    bootstrap zero deadline booted_out plist w = none
    bootstrap (suc n) deadline booted_out plist w =
        bootstrap_turn (bootstrap n deadline booted_out plist) deadline booted_out
          (launchd.run (text "bootstrap" ∷ gui_domain host.daemon.uid ∷ plist ∷ []) w)

    abbrev stderr_of : Output → Text
    stderr_of out = trim (from_utf8_lossy out.stderr)

    abbrev accepted : Output → Bool × W → Result (Unit {0}) × W
    accepted out (true, w) = (ok tt, w)
    accepted out (false, w) = (err ((text "launchctl bootstrap failed: " ++ stderr_of out) ∷ []), w)

    -- `!out.status.success() && !launchd.is_loaded()`
    unfoldable pub accept : Output → Bool → Action W (Unit {0})
    unfolding loaded
    accept out true w = (ok tt, w)
    accept out false w = accepted out (loaded host.daemon launchd w)

    abbrev say : Text → Action W (Unit {0})
    say s w = (ok tt, host.daemon.print s w)

    unfoldable pub kickstart : Text → Action W (Unit {0})
    unfolding service_target identity_agent_line
    kickstart socket = do
      out ← launchd.run (text "kickstart" ∷ text "-k" ∷ service_target host.daemon.uid ∷ [])
      lift (bail_if (not out.success) ((text "launchctl kickstart failed: " ++ stderr_of out) ∷ []))
      say (
          text "tapwarden is running in the background (LaunchAgent "
          ++ label
          ++ text ", starts at login).")
      say (text "socket: " ++ socket)
      say []
      say (text "Point SSH at it permanently — add to ~/.ssh/config:")
      say (text "  Host *")
      say (text "    " ++ identity_agent_line socket)
      say []
      say (text "Logs: `tapwarden logs` — stop: `tapwarden stop` — remove: `tapwarden uninstall`")

    unfoldable pub finish : Text → Result Output × W → Result (Unit {0}) × W
    unfolding accept kickstart
    finish socket p = continue_with p (λ out. accept out out.success >> kickstart socket)

    abbrev finished : Text → Option (Result Output × W) → Option (Result (Unit {0}) × W)
    finished socket none = none
    finished socket (some p) = some (finish socket p)

    abbrev bootstrapped : ℕ → ℕ → Bool → Text → Text → Option W → Option (Result (Unit {0}) × W)
    bootstrapped fuel deadline booted_out plist socket none = none
    bootstrapped fuel deadline booted_out plist socket (some w) =
        finished socket (bootstrap fuel deadline booted_out plist w)

    -- From the deadline on.
    unfoldable pub change_service : ℕ → Bool → Text → Text → W → Option (Result (Unit {0}) × W)
    unfolding wait_unloaded bootstrap finish
    change_service fuel booted_out plist socket w =
        let (now, w') = host.clock.instant w in
        let deadline = now + launchd.retry_budget in
        bootstrapped fuel deadline booted_out plist socket (wait_unloaded fuel deadline w')

    abbrev with_plist : ℕ → Text → Option Text → Bool × W → Option (Result (Unit {0}) × W)
    with_plist fuel socket none (booted_out, w) =
        some (err (message "the LaunchAgent plist path is not valid UTF-8"), w)
    with_plist fuel socket (some plist) (booted_out, w) =
        change_service fuel booted_out plist socket w

    abbrev restart : ℕ → Result Text × W → Option (Result (Unit {0}) × W)
    restart fuel (err e, w) = some (err e, w)
    restart fuel (ok socket, w) =
        with_plist fuel socket (host.to_str launchd.plist) (bootout host.daemon launchd w)

    unfoldable pub start_in : ℕ → Config → Option Text → W → Option (Result (Unit {0}) × W)
    unfolding install change_service bootout
    start_in fuel config config_path w = restart fuel (install launchd config config_path w)

  abbrev started :
      ℕ → Config → Option Text → Result (Launchd W) → W → Option (Result (Unit {0}) × W)
  started fuel config config_path (err e) w = some (err e, w)
  started fuel config config_path (ok launchd) w = start_in launchd fuel config config_path w

  unfoldable pub start : ℕ → Config → Option Text → W → Option (Result (Unit {0}) × W)
  unfolding real start_in
  start fuel config config_path w = started fuel config config_path (real host.daemon) w
