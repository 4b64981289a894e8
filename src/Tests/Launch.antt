-- ===== src/Tests/Launch.antt =====
-- src/daemon.rs and the start of the agent at concrete inputs: a world is the time in nanoseconds.
use tapwarden.Base.{
  ℕ, ◌+◌, ◌≡◌, ◌⊎◌, refl, true, false, Bool, none, some, List, [], ◌∷◌, Text, text_eq, ok, is_ok,
  Result, arith,
}
use tapwarden.Base.Action.{Action}
use tapwarden.Agent.Probe.{AgentHost}
use tapwarden.Agent.Serve.{ServeHost, shut_down, serve}
use tapwarden.Agent.Serve.Laws.{serve_live}
use tapwarden.Tests.Start.{config_host, biometric, fido, sockets}
use tapwarden.Tests.Vault.{bws_host, vw_host}
use tapwarden.Tests.Service.{ssh, secret}
use tapwarden.Config.{Backend, keychain, per_use, touch_id, Config}
use tapwarden.Paths.{Files}
use tapwarden.Agent.Socket.{missing}
use tapwarden.Daemon.Launchd.{Output, Launchd}
use tapwarden.Daemon.Start.{StartHost, start, start_in}
use tapwarden.Daemon.Start.Termination.{IsClock, start_ends}
use tapwarden.Daemon.Start.Kickstart.{Running, start_in-Running}

abbrev config : Config
config = record {
  backend = Backend.bws;
  access_token_env = [];
  credentials = keychain;
  secret_ids = [];
  server_endpoint = none;
  vaultwarden = none;
  authorization = record { mode = per_use; factor = touch_id; yubikey = none; grace_seconds = 60 };
}

-- Every call of `launchctl` takes ten nanoseconds; whether it succeeds depends on the arguments.
abbrev launchctl : (List Text → Bool) → List Text → Action ℕ Output
launchctl succeeds args w = (ok (record { success = succeeds args; stderr = [] }), w + 10)

abbrev pub files : Files ℕ
files = record {
  uid = 501;
  home_dir = some (1 ∷ []);
  create_dir_all = λ dir w. (ok tt, w);
  symlink_metadata = λ path w. (ok (record { is_file = true; is_dir = true; uid = 501 }), w);
  set_permissions = λ path mode w. (ok tt, w);
  parent = λ path. some (2 ∷ []);
}

abbrev pub host : (List Text → Bool) → StartHost ℕ
host succeeds = record {
  daemon = record {
    launchctl = launchctl succeeds;
    uid = 501;
    home_dir = some (1 ∷ []);
    remove_file = λ path w. (missing, w);
    print = λ s w. w;
  };
  files = files;
  clock = record { instant = λ w. (w, w); wall = λ w. (w, w) };
  current_exe = λ w. (ok (3 ∷ []), w);
  canonicalize = λ path w. (ok path, w);
  to_str = λ path. some path;
  write = λ path s w. (ok tt, w);
  sleep = λ d w. w + d;
}

abbrev pub always : List Text → Bool
always args = true

host-IsClock : (succeeds : List Text → Bool) → IsClock (host succeeds) (launchctl succeeds) (λ w. w)
host-IsClock succeeds = record {
  reads = λ w. omega arith;
  read_keeps = λ w. omega arith;
  run_keeps = λ args w. omega arith;
  sleeps = λ d w. omega arith;
}

-- A `launchctl` that succeeds with everything, so that the service never stops being loaded.
start_ends_example : (r : Result (Unit {0}) × ℕ) × (start (host always) 101 config none 0 ≡ some r)
start_ends_example =
    start_ends (host always) (λ w. w) (host-IsClock always) 101 config none 0 (omega arith)

-- With no time for retries.
abbrev launchd : Launchd ℕ
launchd = record { plist = 4 ∷ []; log = 5 ∷ []; run = launchctl always; retry_budget = 0 }

start_in-Running_example : Running (host always) launchd
unfolding start_in
start_in-Running_example = start_in-Running (host always) launchd 1 config none 0 40 refl

abbrev pub agent : AgentHost ℕ ℕ ℕ ℕ ℕ ℕ
agent = record {
  config = config_host;
  biometric = biometric;
  fido = fido;
  grace = λ factor window. factor;
  bws = bws_host;
  vaultwarden = vw_host;
  fetch = λ fetcher id w. (ok secret, w + 1);
  ssh = ssh;
}

abbrev serve_host : ServeHost ℕ ℕ ℕ ℕ ℕ ℕ ℕ
serve_host = record {
  agent = agent;
  sockets = sockets;
  files = files;
  print = λ s w. w;
  log = λ s w. w;
  show_id = λ id. [];
  iteration = λ keys. keys;
  select = λ listener service w. (shut_down, w);
}

serve_live_example :
    (is_ok (serve serve_host config (1 ∷ []) 18).0 ≡ false)
    × (((serve serve_host config (1 ∷ []) 18).1 ≡ (sockets.connect (1 ∷ []) 18).1)
        ⊎ ((serve serve_host config (1 ∷ []) 18).1 ≡ 18))
unfolding text_eq
serve_live_example = serve_live serve_host config (1 ∷ []) 18 refl
