-- ===== src/Daemon/Launchd.antt =====
-- src/daemon.rs: `Launchd`, where the property list and the log are, and what `launchctl` says of the
-- service. `launchctl`, the removal of a file and the output are calls on the world.
use tapwarden.Base.{
  ℕ, Bool, false, Option, List, [], ◌∷◌, ◌++◌, Text, text, Bytes, Result, ok, err, expect,
}
use tapwarden.Base.Try.{◌>>=◌}
use tapwarden.Base.Action.{Action}
use tapwarden.Base.Time.{from_secs}
use tapwarden.Paths.{join_path}
use tapwarden.Agent.Socket.{Removed}
use tapwarden.Daemon.{label, service_target}

-- `std::process::Output`, as far as it is read.
pub record Output : Type 0 where
  pub success : Bool
  pub stderr : Bytes

pub record Launchd (W : Type 0) : Type 0 where
  pub plist : Text
  pub log : Text
  pub run : List Text → Action W Output
  pub retry_budget : ℕ

-- What the commands use of the system: `launchctl` with arguments, the user's id and home directory,
-- the removal of a file and the standard output.
pub record DaemonHost (W : Type 0) : Type 0 where
  pub launchctl : List Text → Action W Output
  pub uid : ℕ
  pub home_dir : Option Text
  pub remove_file : Text → W → Removed × W
  pub print : Text → W → W

-- `BOOTSTRAP_RETRY_BUDGET`
abbrev pub bootstrap_retry_budget : ℕ
bootstrap_retry_budget = from_secs 5

module _ {W : Type 0} (host : DaemonHost W) where
  unfoldable pub home : Result Text
  home = expect "unable to determine home directory" host.home_dir

  unfoldable pub plist_path : Result Text
  unfolding home join_path
  plist_path = do
    dir ← home
    ok (join_path (join_path dir (text "Library/LaunchAgents")) (label ++ text ".plist"))

  unfoldable pub log_path : Result Text
  unfolding home join_path
  log_path = do dir ← home; ok (join_path dir (text "Library/Logs/tapwarden.log"))

  -- `Launchd::real`
  unfoldable pub real : Result (Launchd W)
  unfolding plist_path log_path
  real = do
    plist ← plist_path
    log ← log_path
    ok (record {
      plist = plist;
      log = log;
      run = host.launchctl;
      retry_budget = bootstrap_retry_budget;
    })

  abbrev ran : Result Output → Bool
  ran (ok out) = out.success
  ran (err e) = false

  -- `Launchd::is_loaded`: a call that fails counts as not loaded.
  unfoldable pub loaded : Launchd W → W → Bool × W
  unfolding service_target
  loaded launchd w =
      let (out, w') = launchd.run (text "print" ∷ service_target host.uid ∷ []) w in (ran out, w')

  abbrev loaded_in : Result (Launchd W) → W → Bool × W
  loaded_in (err e) w = (false, w)
  loaded_in (ok launchd) w = loaded launchd w

  unfoldable pub is_loaded : W → Bool × W
  unfolding real loaded
  is_loaded w = loaded_in real w

  -- `is_ok_and(|out| out.status.success())` of the `bootout`.
  unfoldable pub bootout : Launchd W → W → Bool × W
  unfolding service_target
  bootout launchd w =
      let (out, w') = launchd.run (text "bootout" ∷ service_target host.uid ∷ []) w in (ran out, w')
