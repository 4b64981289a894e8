-- ===== src/Tests/Start.antt =====
-- src/config.rs, src/runtime_paths.rs and the start of src/agent.rs at concrete inputs: a world counts
-- the calls.
use tapwarden.Base.{
  split, trim, trim_start_by, trim_end_by, is_whitespace, ℕ, ◌+◌, ◌≡◌, ◌↔◌, refl, true, false, none,
  some, [], ◌∷◌, ◌++◌, Text, Bytes, text, ok, length, text_eq,
}
use tapwarden.Authorizer.{Authorizer}
use tapwarden.Authorizer.Yubikey.{FidoHost}
use tapwarden.Secret.Endpoint.{validate_base_url, has_extras, is_secure, check_base}
use tapwarden.Config.{Backend, yubikey, grace, env, ed25519, Config}
use tapwarden.Config.Verifier.{verifier, key_type}
use tapwarden.Config.Load.{
  ConfigHost, validate, validate_ids, validate_backend, validate_factor, load,
}
use tapwarden.Config.Laws.{IsValid, validate_iff}
use tapwarden.Config.Loading.{Loads, load_iff}
use tapwarden.Agent.Build.{Gate, build_authorizer, IsMode, IsFactor, build_authorizer_valid}
use tapwarden.Agent.Socket.{SocketHost, removed, claim_socket, IsMask, claim_socket_mask}
use tapwarden.Paths.{Files, export_line, runtime_dir_at}
use tapwarden.Paths.Quoting.{shell_word, bare, export_line-shell_word}
use tapwarden.Paths.Laws.{Secured, runtime_dir_at-Secured}
use tapwarden.Setup.{select_indices, select_parts, parse_usize, digits}
use tapwarden.Setup.Selection.{IsSelection, select_indices-IsSelection}

-- A configuration for a Vaultwarden server, with a registered security key.
abbrev pub config : Config
config = record {
  backend = Backend.vaultwarden;
  access_token_env = [];
  credentials = env;
  secret_ids = (1 ∷ []) ∷ [];
  server_endpoint = none;
  vaultwarden = some (record {
    server_url = 1 ∷ [];
    email = [];
    credentials = env;
    client_id_env = [];
    client_secret_env = [];
    master_password_env = [];
  });
  authorization = record {
    mode = grace;
    factor = yubikey;
    yubikey = some (record {
      credential_id = 1 ∷ [];
      public_key = some (record { algorithm = ed25519; bytes = [] });
    });
    grace_seconds = 60;
  };
}

abbrev key_bytes : Bytes
key_bytes =
    1 ∷ 1 ∷ 1 ∷ 1 ∷ 1 ∷ 1 ∷ 1 ∷ 1 ∷ 1 ∷ 1 ∷ 1 ∷ 1 ∷ 1 ∷ 1 ∷ 1 ∷ 1 ∷ 1 ∷ 1 ∷ 1 ∷ 1 ∷ 1 ∷ 1 ∷ 1 ∷ 1
    ∷ 1 ∷ 1 ∷ 1 ∷ 1 ∷ 1 ∷ 1 ∷ 1 ∷ 1 ∷ []

abbrev pub config_host : ConfigHost ℕ ℕ
config_host = record {
  verifiers = record { b64_decode = λ t. ok key_bytes; with_der = λ b k. length b };
  parse_uuid = λ t. ok (length t);
  parse_url = λ t. ok (record {
    scheme = text "https";
    host = some t;
    username = [];
    password = none;
    path = text "/";
    query = none;
    fragment = none;
  });
  from_yaml = λ t. ok config;
  var = λ name. none;
  default_path = none;
  exists = λ path w. (true, w + 1);
  read_to_string = λ path w. (ok [], w + 1);
}

validate_iff_example : (validate config_host config ≡ ok tt) ↔ IsValid config_host config
validate_iff_example = validate_iff config_host config

load_iff_example :
    ((load config_host (some (9 ∷ [])) 0).0 ≡ ok config)
    ↔ Loads config_host (some (9 ∷ [])) 0 config
load_iff_example = load_iff config_host (some (9 ∷ [])) 0 config

abbrev pub biometric : Authorizer ℕ
biometric = record { approve = λ ctx w. (ok true, w + 1) }

abbrev pub fido : FidoHost ℕ ℕ ℕ ℕ
fido = record {
  create = λ w. (ok 1, w + 1);
  create_challenge = λ w. (w ∷ [], w + 1);
  get_assertion = λ d rp challenge id w. (none, w + 1);
  verify_assertion = λ rp key challenge a. false;
}

build_authorizer_valid_example :
    (gate : Gate ℕ) × (factor : Authorizer ℕ) × (build_authorizer config_host biometric fido config
      ≡ ok gate)
    × IsMode config_host biometric fido grace 60 factor gate
    × IsFactor config_host biometric fido yubikey config factor
unfolding validate validate_ids validate_backend validate_factor validate_base_url check_base
    has_extras is_secure verifier key_type text_eq text
build_authorizer_valid_example = build_authorizer_valid config_host biometric fido config refl

export_line-shell_word_example :
    (word : Text) × (export_line (text "it's") ≡ text "export SSH_AUTH_SOCK=" ++ word)
    × (shell_word bare word ≡ some (text "it's"))
export_line-shell_word_example = export_line-shell_word (text "it's")

-- A file system whose directories belong to the user 501.
abbrev files : ℕ → Files ℕ
files uid = record {
  uid = uid;
  home_dir = none;
  create_dir_all = λ dir w. (ok tt, w + 1);
  symlink_metadata = λ path w. (ok (record { is_file = false; is_dir = true; uid = 501 }), w + 1);
  set_permissions = λ path mode w. (ok tt, w + 1);
  parent = λ path. none;
}

runtime_dir_at-Secured_example : (text "/run" ≡ text "/run") × Secured (files 501) (text "/run") 0 3
unfolding runtime_dir_at
runtime_dir_at-Secured_example =
    runtime_dir_at-Secured (files 501) (text "/run") (text "/run") 0 3 refl

-- A world that is the process's mask; something answers at the path 1 only.
abbrev pub sockets : SocketHost ℕ ℕ
sockets = record {
  connect = λ path mask. (text_eq path (1 ∷ []), mask);
  remove_file = λ path mask. (removed, mask);
  umask = λ new mask. (mask, new);
  bind = λ path mask. (ok 7, mask);
}

sockets-IsMask : IsMask sockets (λ mask. mask)
sockets-IsMask = record {
  sets = λ m w. refl;
  returns = λ m w. refl;
  connect_keeps = λ path w. refl;
  remove_keeps = λ path w. refl;
  bind_keeps = λ path w. refl;
}

claim_socket_mask_example :
    ((claim_socket sockets (2 ∷ []) 18).1 ≡ 18)
    × ((l : ℕ)
        → (claim_socket sockets (2 ∷ []) 18).0 ≡ ok l
        → (w1 : ℕ) × (w1 ≡ 63) × ((sockets.bind (2 ∷ []) w1).0 ≡ ok l))
claim_socket_mask_example = claim_socket_mask sockets (λ mask. mask) sockets-IsMask (2 ∷ []) 18

select_indices-IsSelection_example : IsSelection 3 (2 ∷ 0 ∷ [])
unfolding select_indices select_parts parse_usize digits text split trim trim_start_by trim_end_by
    is_whitespace
select_indices-IsSelection_example = select_indices-IsSelection (text " 3,1,3") 3 (2 ∷ 0 ∷ []) refl
