-- ===== src/Agent/Serve.antt =====
-- src/agent.rs: `serve` and `run_foreground`, `KeyService::new`, and the sessions. The runtime's
-- `select!` of the listener and the shutdown signals is one call on the world.
pub mod Laws
use tapwarden.Base.{
  ℕ, Option, none, some, List, [], ◌∷◌, ◌++◌, Text, text, Result, ok, err, Error, render, context,
}
use tapwarden.Base.Action.{Action, ◌>>=◌, ◌>>◌, lift, continue_with}
use tapwarden.Authorizer.{Authorizer}
use tapwarden.Config.{Config}
use tapwarden.Paths.{Files, socket_path, ensure_socket_dir, export_line}
use tapwarden.Peer.{describe}
use tapwarden.Agent.Build.{Fetcher}
use tapwarden.Agent.Service.{
  Keys, KeyService, ServiceState, Identity, SignRequest, Signed, identities, sign_request,
}
use tapwarden.Agent.Socket.{SocketHost, claim_socket, release_socket}
use tapwarden.Agent.Key.{Ssh}
use tapwarden.Agent.Probe.{AgentHost, built}

-- How the `select!` ends.
pub data Selected : Type 0 where
  listened : Result (Unit {0}) → Selected
  shut_down : Selected

pub record ServeHost (Entry Device PublicKey R PrivateKey Listener W : Type 0) : Type 0 where
  pub agent : AgentHost Entry Device PublicKey R PrivateKey W
  pub sockets : SocketHost Listener W
  pub files : Files W
  pub print : Text → W → W
  pub log : Text → W → W
  pub show_id : ℕ → Text
  pub iteration : Keys PrivateKey → Keys PrivateKey
  -- until the listener fails or a signal arrives
  pub select : Listener → KeyService PrivateKey W → W → Selected × W

unfoldable pub outcome_of : Selected → Result (Unit {0})
outcome_of (listened r) = context "agent listener failed" r
outcome_of shut_down = ok tt

-- The cache and the noted errors of a service that has just been made.
abbrev pub new_state : {PrivateKey W : Type 0} → W → ServiceState PrivateKey W
new_state w = record { keys = []; last_errors = []; world = w }

-- `requester`: no peer or no process id gives none.
unfoldable pub requester :
    {W : Type 0}
    → (ℕ → W → Option Text × W)
    → (ℕ → W → Option ℕ × W)
    → Option ℕ
    → W
    → Option Text × W
unfolding describe
requester executable_path parent_pid none w = (none, w)
requester executable_path parent_pid (some pid) w =
    let (s, w') = describe executable_path parent_pid pid w in (some s, w')

pub record TapwardenSession (PrivateKey W : Type 0) : Type 0 where
  pub service : KeyService PrivateKey W
  pub requester : Option Text

module _ {PrivateKey W : Type 0} (ssh : Ssh PrivateKey) where
  unfoldable pub request_identities :
      TapwardenSession PrivateKey W
      → ServiceState PrivateKey W
      → List Identity × ServiceState PrivateKey W
  unfolding identities
  request_identities session s = identities ssh session.service s

  unfoldable pub sign :
      TapwardenSession PrivateKey W
      → SignRequest
      → ServiceState PrivateKey W
      → Signed × ServiceState PrivateKey W
  unfolding sign_request
  sign session request s = sign_request ssh session.service request session.requester s

module _ {Entry Device PublicKey R PrivateKey Listener W : Type 0}
    (host : ServeHost Entry Device PublicKey R PrivateKey Listener W) where
  -- `KeyService::new`
  unfoldable pub new_service : List ℕ → Fetcher → Authorizer W → KeyService PrivateKey W
  new_service ids fetcher authorizer = record {
    secret_ids = ids;
    fetch = host.agent.fetch fetcher;
    authorizer = authorizer;
    log = host.log;
    show_id = host.show_id;
    iteration = host.iteration;
  }

  abbrev logged : Text → Result (Unit {0}) × W → W
  logged socket (ok u, w) = w
  logged socket (err e, w) =
      host.log (text "tapwarden: failed to remove socket " ++ socket ++ text ": " ++ render e) w

  abbrev cleaned : Text → Selected × W → Result (Unit {0}) × W
  cleaned socket (selected, w) =
      (outcome_of selected, logged socket (release_socket host.sockets socket w))

  -- From the claimed socket on.
  unfoldable pub serve_on : Text → KeyService PrivateKey W → Listener → Action W (Unit {0})
  unfolding outcome_of release_socket export_line
  serve_on socket service listener w =
      cleaned socket (host.select listener service (host.print (export_line socket) w))

  abbrev served : Text → Result (List ℕ × (Authorizer W × Fetcher)) → W → Result (Unit {0}) × W
  served socket (err e) w = (err e, w)
  served socket (ok (ids, (authorizer, fetcher))) w =
      continue_with (claim_socket host.sockets socket w)
        (serve_on socket (new_service ids fetcher authorizer))

  unfoldable pub serve : Config → Text → Action W (Unit {0})
  unfolding built claim_socket serve_on new_service
  serve config socket w = served socket (built host.agent config) w

  unfoldable pub socket_for : Option Text → Action W Text
  unfolding ensure_socket_dir socket_path
  socket_for (some path) = ensure_socket_dir host.files path >> lift (ok path)
  socket_for none = socket_path host.files

  unfoldable pub run_foreground : Config → Option Text → Action W (Unit {0})
  unfolding socket_for serve
  run_foreground config socket = do path ← socket_for socket; serve config path
