-- ===== src/Tests/Vault.antt =====
-- The two backends at concrete inputs: a world counts the calls.
use tapwarden.Base.{
  ◌==◌, ℕ, ◌+◌, ◌≡◌, ◌↔◌, ◌⊎◌, refl, true, false, none, some, [], ◌∷◌, ◌++◌, Text, text, ok, err,
  is_ok, length, strip_prefix, split, text_eq,
}
use tapwarden.Base.Time.{Clock}
use tapwarden.Authorizer.{Authorizer}
use tapwarden.Keychain.{Keyring, no_entry}
use tapwarden.Http.{Http}
use tapwarden.Secret.Body.{end, chunk}
use tapwarden.Secret.EncString
use tapwarden.Secret.Session.{AuthState}
use tapwarden.Secret.Bws as Bws
use tapwarden.Secret.Bws.{BwsHost, BwsRest, in_keychain, login_from}
use tapwarden.Secret.Bws.Decode as BwsDecode
use tapwarden.Secret.Bws.Decode.{SecretData}
use tapwarden.Secret.Bws.Laws.{login_denied, Rests, get_secret-Rests}
use tapwarden.Vaultwarden.Kdf.{KdfHost, KdfParams, derive_master_key}
use tapwarden.Vaultwarden.Kdf.Laws.{Pbkdf2, Argon2, derive_master_key_iff}
use tapwarden.Vaultwarden.Cipher.{CipherResponse, extract_secret, resolve_cipher_key}
use tapwarden.Vaultwarden.Cipher.Laws.{Extracts, extract_secret_sound}
use tapwarden.Vaultwarden.Decode as VwDecode
use tapwarden.Vaultwarden.Fetcher as Fetcher
use tapwarden.Vaultwarden.Fetcher.{VwHost, VaultwardenFetcher, keychain, login}
use tapwarden.Vaultwarden.Fetcher.Laws.{keychain_login_denied, Fetched, get_secret-Fetched}
use tapwarden.Tests.Formats.{zeros, encode, toy, some_key}

abbrev clock : Clock ℕ
clock = record { instant = λ w. (w, w); wall = λ w. (w, w) }

-- A server that answers every request with one byte.
abbrev pub http : Http ℕ
http = record {
  send = λ request w. (ok (record { status = 200; body = chunk (1 ∷ []) end }), w + 1);
  success = λ n. n == 200;
  show_status = λ n. [];
}

abbrev pub keyring : Keyring ℕ ℕ
keyring = record {
  open_entry = λ service account w. (some 1, w + 1);
  set_password = λ e v w. (true, w + 1);
  get_password = λ e w. (no_entry, w + 1);
  delete_credential = λ e w. w + 1;
}

abbrev denies : Authorizer ℕ
denies = record { approve = λ ctx w. (ok false, w + 1) }

abbrev pub kdf_host : KdfHost
kdf_host = record {
  pbkdf2 = λ password salt n. zeros 32;
  sha256 = λ b. b;
  argon2_params = λ m t p n. true;
  argon2 = λ m t p password salt. some (zeros 32);
  b64_encode = encode;
  to_lowercase = λ t. t;
}

-- `2.<iv>|<data>|<mac>` of one byte, as the toy encoding writes it.
abbrev sealed_byte : Text
sealed_byte =
    text "2." ++ (encode (zeros 16) ++ b'|' ∷ (encode (5 ∷ []) ++ b'|' ∷ encode (zeros 32)))

abbrev pub bws_host : BwsHost ℕ ℕ
bws_host = record {
  http = http;
  client = ok tt;
  keyring = keyring;
  clock = clock;
  crypto = toy;
  json = record {
    token_response = λ b. some (text "bearer", text "2.a|b|c");
    payload = λ b. ok [];
    secret_response = λ b. some (sealed_byte, sealed_byte);
  };
  parse_uuid = λ t. ok (length t);
  show_uuid = λ id. [];
  parse_url = λ t. err [];
}

abbrev bws_client : BwsRest
bws_client = record { identity_url = []; api_url = []; source = in_keychain }

abbrev bws_state : AuthState BwsDecode.Session ℕ
bws_state = record {
  session = some (record { bearer = []; org_key = some_key });
  failed_at = none;
  world = 3;
}

login_denied_example :
    ((login_from bws_host denies bws_client in_keychain 3).1
      ≡ (denies.approve (Bws.unlock bws_host denies) 3).1)
    × (is_ok (login_from bws_host denies bws_client in_keychain 3).0 ≡ false)
login_denied_example = login_denied bws_host denies bws_client 3 (λ e. cc)

get_secret-Rests_example :
    Rests bws_host denies bws_client 7 (Bws.get_secret bws_host denies bws_client 30 7 bws_state)
get_secret-Rests_example = get_secret-Rests bws_host denies bws_client 30 7 bws_state

abbrev item : CipherResponse
item = record {
  atype = 5;
  organization_id = none;
  key = none;
  name = sealed_byte;
  ssh_key = some sealed_byte;
}

abbrev pub vw_host : VwHost ℕ ℕ
vw_host = record {
  http = http;
  keyring = keyring;
  clock = clock;
  crypto = toy;
  kdf = kdf_host;
  token = λ b. none;
  cipher = λ b. some item;
  show_uuid = λ id. [];
  parse_url = λ t. err [];
  client = ok tt;
}

abbrev vw_fetcher : VaultwardenFetcher
vw_fetcher = record { server_url = []; email = []; source = keychain }

abbrev vw_state : AuthState VwDecode.Session ℕ
vw_state = record {
  session = some (record { bearer = []; user_key = some_key });
  failed_at = none;
  world = 3;
}

keychain_login_denied_example :
    ((login vw_host denies vw_fetcher 3).1 ≡ (denies.approve (Fetcher.unlock vw_host denies) 3).1)
    × (is_ok (login vw_host denies vw_fetcher 3).0 ≡ false)
keychain_login_denied_example = keychain_login_denied vw_host denies vw_fetcher 3 refl (λ e. cc)

get_secret-Fetched_example :
    Fetched vw_host denies vw_fetcher 7 (Fetcher.get_secret vw_host denies vw_fetcher 30 7 vw_state)
get_secret-Fetched_example = get_secret-Fetched vw_host denies vw_fetcher 30 7 vw_state

abbrev argon : KdfParams
argon = record { kdf = 1; iterations = 3; memory = some 64; parallelism = some 4 }

derive_master_key_iff_example :
    (derive_master_key kdf_host (text "p") (text "a@b") argon ≡ ok (zeros 32)) ↔ (
      Pbkdf2 kdf_host (text "p") (text "a@b") argon (zeros 32)
      ⊎ Argon2 kdf_host (text "p") (text "a@b") argon (zeros 32))
derive_master_key_iff_example =
    derive_master_key_iff kdf_host (text "p") (text "a@b") argon (zeros 32)

abbrev plain : SecretData
plain = record { name = 5 ∷ []; openssh_private_key = 5 ∷ [] }

extract_secret_sound_example : Extracts toy item some_key plain
unfolding extract_secret resolve_cipher_key EncString.parse strip_prefix text split
    EncString.decrypt_to_string text_eq
extract_secret_sound_example = extract_secret_sound toy item some_key plain refl
