-- ===== src/Tests/Wizard.antt =====
-- src/setup.rs and the registration of a security key at concrete inputs: a world counts the calls.
use tapwarden.Base.{
  ℕ, ◌+◌, ◌≡◌, ◌↔◌, ◌⊎◌, refl, ap, true, false, none, some, [], ◌∷◌, ◌++◌, Text, text, ok, err,
  length, is_control, text_eq, to_ascii_lowercase, trim,
}
use tapwarden.Config.Verifier.{VerifierHost}
use tapwarden.Authorizer.Registration.{
  RegisterHost, RegisteredYubikey, ed, Verified, register_yubikey, attest, read_verified,
  with_debug,
}
use tapwarden.Authorizer.Registration.Attested.{Attested, register_yubikey-Attested}
use tapwarden.Setup.Terminal.{Terminal, prompt}
use tapwarden.Setup.Server.{ServerHost, TokenSuccess, success, login_attempt, password_login}
use tapwarden.Setup.Server.Login.{WithCode, password_login_iff}
use tapwarden.Setup.Files.{FileHost, write_config_file}
use tapwarden.Setup.Files.Mode.{Private, write_config_file-Private}
use tapwarden.Tests.Formats.{toy, zeros, encode, decode, decode-encode}
use tapwarden.Tests.Start.{fido}
use tapwarden.Config.{keychain}
use tapwarden.Setup.Files.{config_path, confirm_overwrite}
use tapwarden.Setup.Wizard.{SetupHost, Answers, write_answers, finish}
use tapwarden.Setup.Wizard.Stored.{StoredAll}
use tapwarden.Setup.Wizard.Order.{Leave, Written, finish-StoredAll}
use tapwarden.Tests.Vault.{http, keyring, kdf_host}
use tapwarden.Tests.Launch as Launch

abbrev terminal : Terminal ℕ
terminal = record {
  println = λ s w. w + 1;
  print = λ s w. w + 1;
  flush = λ w. (ok tt, w + 1);
  read_line = λ w. (ok (text "123456" ++ 10 ∷ []), w + 1);
  prompt_password = λ label w. (ok [], w + 1);
}

-- A server that gives a token at once.
abbrev token : TokenSuccess
token = record { access_token = 1 ∷ []; key = 2 ∷ [] }

abbrev server : ServerHost ℕ
server = record {
  http = http;
  terminal = terminal;
  prelogin = λ b. none;
  token = λ b. some token;
  two_factor = λ b. none;
  api_key = λ b. none;
  profile = λ b. none;
  sync = λ b. none;
}

password_login_iff_example : (password_login server [] [] [] 0 ≡ (ok token, 1)) ↔ (
    (login_attempt server [] [] [] none 0 ≡ (ok (success token), 1))
    ⊎ WithCode server [] [] [] token 0 1)
password_login_iff_example = password_login_iff server [] [] [] token 0 1

abbrev disk : FileHost ℕ ℕ
disk = record {
  files = Launch.files;
  exists = λ path w. (false, w + 1);
  open_truncated = λ path mode w. (ok mode, w + 1);
  write_all = λ file bytes w. (ok tt, w + 1);
  println = λ s w. w + 1;
}

write_config_file-Private_example : Private disk (1 ∷ []) (7 ∷ 7 ∷ []) 2
unfolding write_config_file
write_config_file-Private_example = write_config_file-Private disk (1 ∷ []) (7 ∷ 7 ∷ []) 0 2 refl

-- A security key with an Ed25519 credential.
abbrev verified : Verified
verified = record { is_success = true; credential_id = 9 ∷ []; kind = ed; der = zeros 32 }

abbrev registration : RegisterHost ℕ ℕ ℕ ℕ ℕ
registration = record {
  fido = fido;
  prompt_password = λ label w. (ok [], w + 1);
  println = λ s w. w + 1;
  make_credential = λ device rp challenge pin w. (ok 1, w + 1);
  verify_attestation = λ rp challenge attestation. verified;
  b64_encode = encode;
}

abbrev verifiers : VerifierHost ℕ
verifiers = record { b64_decode = λ t. ok (decode t); with_der = λ b k. length b }

abbrev registered : RegisteredYubikey
registered = record {
  credential_id = encode (9 ∷ []);
  public_key_algorithm = text "ed25519";
  public_key_bytes = encode (zeros 32);
}

register_yubikey-Attested_example : Attested registration verifiers registered 0 5
unfolding register_yubikey attest read_verified with_debug
register_yubikey-Attested_example =
    register_yubikey-Attested registration verifiers (λ b. ap ok (decode-encode b)) registered 0 5
      refl

abbrev wizard : SetupHost ℕ ℕ ℕ
wizard = record {
  server = server;
  disk = disk;
  keyring = keyring;
  crypto = toy;
  kdf = kdf_host;
  parse_url = λ t. err [];
  parse_uuid = λ t. ok 1;
  show_uuid = λ id. [];
  client = ok tt;
}

abbrev answers : Answers
answers = record {
  server_url = 97 ∷ [];
  email = 64 ∷ [];
  master_password = [];
  client_id = [];
  client_secret = [];
  credentials = keychain;
  chosen = [];
}

-- The file is there already, and the user answers `y`.
abbrev overwriting : SetupHost ℕ ℕ ℕ
overwriting = record wizard {
  disk = record disk { exists = λ path w. (true, w + 1) };
  server = record server {
    terminal = record terminal { read_line = λ w. (ok (b'y' ∷ 10 ∷ []), w + 1) };
  };
}

finish-StoredAll_example :
    (path : Text) × (w1 : ℕ) × (w2 : ℕ) × (config_path disk ≡ ok path)
    × Leave overwriting path 0 w1
    × StoredAll overwriting answers w1 w2
    × Written overwriting path answers w2
unfolding finish config_path confirm_overwrite write_answers is_control prompt text_eq
    to_ascii_lowercase trim text
finish-StoredAll_example = finish-StoredAll overwriting answers 0 22 refl refl
