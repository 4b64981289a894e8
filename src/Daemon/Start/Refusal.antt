-- ===== src/Daemon/Start/Refusal.antt =====
-- The configurations that are never put under launchd.
use tapwarden.Base.{ℕ, ◌≡◌, refl, true, Option, some, Text, err}
use tapwarden.Config.{Config}
use tapwarden.Daemon.{uses_env_credentials}
use tapwarden.Daemon.Launchd.{Launchd}
use tapwarden.Daemon.Start.{StartHost, start_in, install, env_refusal}

module _ {W : Type 0} (host : StartHost W) (launchd : Launchd W) where
  -- A configuration whose credentials come from environment variables is refused before anything is
  -- done: nothing is written, and the service that runs is left alone.
  pub start_in_refused :
      (fuel : ℕ) (config : Config) (path : Option Text) (w : W)
      → uses_env_credentials config ≡ true
      → start_in host launchd fuel config path w ≡ some (err env_refusal, w)
  unfolding start_in install
  start_in_refused fuel config path w h = rw h refl
