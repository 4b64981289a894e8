-- ===== src/Main.antt =====
-- src/main.rs: the subcommands and their dispatch. clap's parser is not modelled: a command is given
-- parsed. `fuel` is that of the loops of `start`, and `none` says that it ran out.
pub mod Laws
use tapwarden.Base.{
  ℕ, Bool, true, false, Option, none, some, List, [], ◌∷◌, ◌++◌, Text, text, Result, ok, err,
  context,
}
use tapwarden.Base.Action.{Action, ◌>>=◌, ◌>>◌, lift, map_result}
use tapwarden.Config.{Config}
use tapwarden.Config.Load.{ConfigHost, load}
use tapwarden.Authorizer.Registration.{RegisterHost, RegisteredYubikey, register_yubikey}
use tapwarden.Agent.Serve.{ServeHost, run_foreground}
use tapwarden.Agent.Probe.{AgentHost}
use tapwarden.Daemon.Start.{StartHost, start}
use tapwarden.Daemon.Stop.{stop, uninstall}
use tapwarden.Daemon.Logs.{LogHost, logs}
use tapwarden.Doctor.{Report}
use tapwarden.Doctor.Checks.{DoctorHost}
use tapwarden.Doctor.Run as Doctor
use tapwarden.Setup.Wizard.{SetupHost, store_bws_token}
use tapwarden.Setup.Wizard as Setup
use tapwarden.Paths.{socket_path}

pub data Commands : Type 0 where
  start_agent : Bool → Option Text → Option Text → Commands
  setup store_token register_key : Commands
  doctor : Option Text → Bool → Commands
  stop_agent show_logs uninstall_agent show_socket_path : Commands

pub record Program
    (Entry E Device PublicKey R Attestation PrivateKey Listener Handle Log W : Type 0)
    : Type 0 where
  pub config : ConfigHost PublicKey W
  pub serve : ServeHost Entry Device PublicKey R PrivateKey Listener W
  pub start : StartHost W
  pub setup : SetupHost Entry Handle W
  pub register : RegisterHost Device PublicKey R Attestation W
  pub doctor : DoctorHost E Device PublicKey R W
  pub logs : LogHost Log W
  pub println : Text → W → W

module _ {Entry E Device PublicKey R Attestation PrivateKey Listener Handle Log W : Type 0}
    (program : Program Entry E Device PublicKey R Attestation PrivateKey Listener Handle Log
      W) where
  abbrev say : Text → Action W (Unit {0})
  say s w = (ok tt, program.println s w)

  unfoldable pub show_registered : RegisteredYubikey → Action W (Unit {0})
  show_registered r = do
    say (10 ∷ (text "Registered. Add this to ~/.config/tapwarden/config.yaml:" ++ (10 ∷ [])))
    say (text "authorization:")
    say (text "  factor: yubikey")
    say (text "  yubikey:")
    say (text "    credential_id: " ++ r.credential_id)
    say (text "    public_key:")
    say (text "      algorithm: " ++ r.public_key_algorithm)
    say (text "      bytes: " ++ r.public_key_bytes)

  -- `?` on what doctor returns; its report has been printed.
  abbrev examined : (Result (Unit {0}) × Report) × W → Result (Unit {0}) × W
  examined ((r, report), w) = (r, w)

  unfoldable pub begin :
      ℕ → Bool → Option Text → Option Text → Result Config × W → Option (Result (Unit {0}) × W)
  unfolding run_foreground start
  begin fuel fg path socket (err e, w) = some (err (text "failed to load configuration" ∷ e), w)
  begin fuel true path socket (ok cfg, w) = some (run_foreground program.serve cfg socket w)
  begin fuel false path socket (ok cfg, w) = start program.start fuel cfg path w

  unfoldable pub run : ℕ → Commands → W → Option (Result (Unit {0}) × W)
  unfolding load begin register_yubikey show_registered stop logs uninstall socket_path
  run fuel (start_agent fg path socket) w = begin fuel fg path socket (load program.config path w)
  run fuel setup w = some (Setup.run program.setup w)
  run fuel store_token w = some (store_bws_token program.setup w)
  run fuel register_key w = some ((register_yubikey program.register >>= show_registered) w)
  run fuel (doctor path check_backend) w = some (
      examined
        (Doctor.run program.doctor program.serve.agent program.serve.show_id path check_backend w))
  run fuel stop_agent w = some (stop program.start.daemon w)
  run fuel show_logs w = some (logs program.logs w)
  run fuel uninstall_agent w = some (uninstall program.start.daemon w)
  run fuel show_socket_path w = some ((socket_path program.start.files >>= say) w)
