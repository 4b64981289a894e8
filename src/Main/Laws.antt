-- ===== src/Main/Laws.antt =====
-- What a bad configuration stops, and that every command gives a result.
use tapwarden.Base.{
  ℕ, ◌≤◌, ◌≡◌, refl, Bool, true, false, Option, some, ◌∷◌, Text, text, Result, ok, err, Error,
}
use tapwarden.Config.{Config}
use tapwarden.Config.Load.{load}
use tapwarden.Config.Laws.{IsValid}
use tapwarden.Config.Loading.{load-IsValid}
use tapwarden.Daemon.Start.Termination.{IsClock, start_ends}
use tapwarden.Main.{
  Commands, start_agent, setup, store_token, register_key, doctor, stop_agent, show_logs,
  uninstall_agent, show_socket_path, Program, begin, run,
}

module _ {Entry E Device PublicKey R Attestation PrivateKey Listener Handle Log W : Type 0}
    (program : Program Entry E Device PublicKey R Attestation PrivateKey Listener Handle Log
      W) where
  begin_ends :
      (time : W → ℕ)
      → IsClock program.start program.start.daemon.launchctl time
      → (fuel : ℕ) (fg : Bool) (path socket : Option Text) (p : Result Config × W) → 101 ≤ fuel
      → (r : Result (Unit {0}) × W) × (begin program fuel fg path socket p ≡ some r)
  unfolding begin
  begin_ends time view fuel fg path socket (err e, w) h = (_, refl)
  begin_ends time view fuel true path socket (ok cfg, w) h = (_, refl)
  begin_ends time view fuel false path socket (ok cfg, w) h =
      start_ends program.start time view fuel cfg path w h

  -- Every command gives a result: on a clock that does not run backwards and on which a sleep takes its
  -- time, 101 turns for each loop of `start` are enough, whatever `launchctl` answers; no other command
  -- has a loop without an end of its own.
  pub run_ends :
      (time : W → ℕ)
      → IsClock program.start program.start.daemon.launchctl time
      → (fuel : ℕ) (command : Commands) (w : W) → 101 ≤ fuel
      → (r : Result (Unit {0}) × W) × (run program fuel command w ≡ some r)
  unfolding run
  run_ends time view fuel (start_agent fg path socket) w h =
      begin_ends time view fuel fg path socket (load program.config path w) h
  run_ends time view fuel setup w h = (_, refl)
  run_ends time view fuel store_token w h = (_, refl)
  run_ends time view fuel register_key w h = (_, refl)
  run_ends time view fuel (doctor path check_backend) w h = (_, refl)
  run_ends time view fuel stop_agent w h = (_, refl)
  run_ends time view fuel show_logs w h = (_, refl)
  run_ends time view fuel uninstall_agent w h = (_, refl)
  run_ends time view fuel show_socket_path w h = (_, refl)

  began_with :
      (fuel : ℕ) (fg : Bool) (path socket : Option Text) (p : Result Config × W) (w' : W)
      → begin program fuel fg path socket p ≡ some (ok tt, w')
      → (cfg : Config) × (p.0 ≡ ok cfg)
  unfolding begin
  began_with fuel fg path socket (err e, v) w' h = cc
  began_with fuel fg path socket (ok cfg, v) w' h = (cfg, refl)

  -- A start that succeeds, in the foreground or under launchd, has loaded a configuration that passes
  -- the validation.
  pub start_agent-IsValid :
      (fuel : ℕ) (fg : Bool) (path socket : Option Text) (w w' : W)
      → run program fuel (start_agent fg path socket) w ≡ some (ok tt, w')
      → (cfg : Config) × ((load program.config path w).0 ≡ ok cfg) × IsValid program.config cfg
  unfolding run
  start_agent-IsValid fuel fg path socket w w' h =
      let (cfg, e) = began_with fuel fg path socket (load program.config path w) w' h in
      (cfg, e, load-IsValid program.config path w cfg e)

  -- A start that cannot load its configuration, in the foreground or under launchd, ends right there
  -- with that error: no service is installed and no socket is claimed.
  pub start_agent_stops :
      (fuel : ℕ) (fg : Bool) (path socket : Option Text) (w v : W) (e : Error)
      → load program.config path w ≡ (err e, v)
      → run program fuel (start_agent fg path socket) w
        ≡ some (err (text "failed to load configuration" ∷ e), v)
  unfolding run begin
  start_agent_stops fuel fg path socket w v e h = rw h refl
