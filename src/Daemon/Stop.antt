-- ===== src/Daemon/Stop.antt =====
-- src/daemon.rs: `stop` and `uninstall`.
use tapwarden.Base.{not, [], ◌∷◌, ◌++◌, Text, text, Result, ok, err, bail_if}
use tapwarden.Base.Action.{Action, ◌>>=◌, ◌>>◌, lift}
use tapwarden.Agent.Socket.{Removed, removed, missing, failed}
use tapwarden.Daemon.{service_target}
use tapwarden.Daemon.Launchd.{Launchd, DaemonHost, real}

module _ {W : Type 0} (host : DaemonHost W) where
  abbrev pub printed : Text → Action W (Unit {0})
  printed s w = (ok tt, host.print s w)

  unfoldable pub stop_in : Launchd W → Action W (Unit {0})
  unfolding service_target
  stop_in launchd = do
    out ← launchd.run (text "bootout" ∷ service_target host.uid ∷ [])
    lift (
        bail_if (not out.success) (
          text
            "tapwarden is not running under launchd (nothing to stop) — if you started it with `tapwarden start --fg`, stop it with Ctrl-C in that shell"
          ∷ []))
    printed (text "tapwarden stopped.")

  abbrev uninstalled : Launchd W → Removed × W → Result (Unit {0}) × W
  uninstalled launchd (removed, w) =
      printed (text "tapwarden stopped and LaunchAgent removed (" ++ (launchd.plist ++ text ").")) w
  uninstalled launchd (missing, w) =
      printed (text "no LaunchAgent installed (" ++ (launchd.plist ++ text " not found).")) w
  uninstalled launchd (failed e, w) = (err ((text "failed to remove " ++ launchd.plist) ∷ e), w)

  -- The result of `bootout` is dropped: the service may simply not be loaded.
  unfoldable pub uninstall_in : Launchd W → Action W (Unit {0})
  unfolding service_target
  uninstall_in launchd w =
      let (result, w1) = launchd.run (text "bootout" ∷ service_target host.uid ∷ []) w in
      uninstalled launchd (host.remove_file launchd.plist w1)

  unfoldable pub stop : Action W (Unit {0})
  unfolding real stop_in
  stop = do launchd ← lift (real host); stop_in launchd

  unfoldable pub uninstall : Action W (Unit {0})
  unfolding real uninstall_in
  uninstall = do launchd ← lift (real host); uninstall_in launchd
