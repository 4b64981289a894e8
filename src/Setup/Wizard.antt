-- ===== src/Setup/Wizard.antt =====
-- src/setup.rs: `store_bws_token` and `run`.
pub mod Stored
pub mod Order
use tapwarden.Base.{
  ℕ, ◌+◌, zero, suc, Bool, true, false, not, Option, none, some, List, [], ◌∷◌, ◌++◌, Text, text,
  trim, trim_end_matches, decimal, is_empty, Bytes, Result, ok, err, message, context, expect,
  bail_if, length, if◌then◌else◌,
}
use tapwarden.Base.Try as Try
use tapwarden.Base.Action.{Action, ◌>>=◌, ◌>>◌, lift, map_result}
use tapwarden.Keychain
use tapwarden.Keychain.{
  Keyring, vw_client_id, vw_client_secret, vw_master_password, bws_access_token,
}
use tapwarden.Config.{CredentialSource, env, keychain}
use tapwarden.Secret.Endpoint.{Url, validate_base_url}
use tapwarden.Secret.Crypto.{Crypto, SymKey, from_bytes}
use tapwarden.Secret.EncString
use tapwarden.Secret.Token as Token
use tapwarden.Vaultwarden.Kdf.{KdfHost, derive_master_key, server_auth_hash, stretch_master_key}
use tapwarden.Setup.{validate_email, answered_yes, ssh_key_items, select_indices}
use tapwarden.Setup.Terminal.{Terminal, prompt, say}
use tapwarden.Setup.Server.{
  ServerHost, kdf_params, prelogin, password_login, fetch_api_key, fetch_profile, fetch_sync,
}
use tapwarden.Setup.Files.{
  FileHost, config_path, confirm_overwrite, write_config_file, render_config,
}

pub record SetupHost (Entry Handle W : Type 0) : Type 0 where
  pub server : ServerHost W
  pub disk : FileHost Handle W
  pub keyring : Keyring Entry W
  pub crypto : Crypto
  pub kdf : KdfHost
  pub parse_url : Text → Result Url
  pub parse_uuid : Text → Result ℕ
  pub show_uuid : ℕ → Text
  -- `http_client()`
  pub client : Result (Unit {0})

-- What the wizard has before it stores anything.
pub record Answers : Type 0 where
  pub server_url : Text
  pub email : Text
  pub master_password : Text
  pub client_id : Text
  pub client_secret : Text
  pub credentials : CredentialSource
  pub chosen : List ℕ

-- `items[i].0` for each index, which is below the length.
abbrev pub id_at : List (ℕ × Text) → ℕ → List ℕ
id_at [] i = []
id_at ((id, name) ∷ rest) zero = id ∷ []
id_at ((id, name) ∷ rest) (suc i) = id_at rest i

abbrev pub ids_at : List (ℕ × Text) → List ℕ → List ℕ
ids_at items [] = []
ids_at items (i ∷ is) = id_at items i ++ ids_at items is

module _ {Entry Handle W : Type 0} (host : SetupHost Entry Handle W) where
  abbrev terminal : Terminal W
  terminal = host.server.terminal

  abbrev tell : Text → Action W (Unit {0})
  tell = say host.server.terminal

  unfoldable pub store_bws_token : Action W (Unit {0})
  unfolding Token.validate_access_token Keychain.store
  store_bws_token = do
    entered ←
        map_result (context "failed to read the access token")
          (host.server.terminal.prompt_password (text "BWS access token (hidden): "))
    lift (bail_if (is_empty (trim entered)) (message "no token entered"))
    lift (
        context "that does not look like a BWS access token (expected 0.<uuid>.<uuid>:<key>)"
          (Token.validate_access_token host.crypto host.parse_uuid (trim entered)))
    Keychain.store host.keyring bws_access_token (trim entered)
    tell (text "Stored the access token in the macOS Keychain (service \"tapwarden\").")
    tell (text "Set `credentials: keychain` in your config so tapwarden reads it from there.")

  unfoldable pub ask_server_url : Action W Text
  unfolding prompt validate_base_url
  ask_server_url = do
    url ← prompt host.server.terminal (text "Server URL (https://...): ")
    lift (validate_base_url host.parse_url url (text "vaultwarden server_url"))
    lift (ok (trim_end_matches b'/' url))

  unfoldable pub wrapped_user_key : Text → SymKey → Result SymKey
  unfolding from_bytes
  wrapped_user_key key stretched =
      Try.and_then
        (λ parsed. context "login failed: bad user key" (
          Try.and_then from_bytes (
            context "login failed: user key decryption"
              (EncString.decrypt host.crypto parsed stretched))))
        (context "login failed: bad user key EncString" (EncString.parse host.crypto key))

  unfoldable pub source_of : Text → CredentialSource
  unfolding answered_yes
  source_of answer = if answered_yes answer true then keychain else env

  unfoldable pub list_items : ℕ → List (ℕ × Text) → Action W (Unit {0})
  list_items i [] = lift (ok tt)
  list_items i ((id, name) ∷ rest) =
      tell (text "  " ++ decimal (i + 1) ++ text ". " ++ name) >> list_items (suc i) rest

  unfoldable pub choose_keys : List (ℕ × Text) → Action W (List ℕ)
  unfolding list_items prompt select_indices
  choose_keys items = do
    lift (
        bail_if (is_empty items) (
          message
            "no SSH-key items (type 5) found in this account's personal vault; create one in the web vault (the server needs EXPERIMENTAL_CLIENT_FEATURE_FLAGS=ssh-key-vault-item)"))
    tell (10 ∷ text "SSH keys in this account:")
    list_items 0 items
    selection ←
        prompt host.server.terminal
          (text "Keys tapwarden should serve (comma-separated numbers, empty = all): ")
    indices ← lift (select_indices selection (length items))
    lift (ok (ids_at items indices))

  -- Up to the question about an existing configuration; nothing is stored yet.
  unfoldable pub collect : Action W Answers
  unfolding ask_server_url wrapped_user_key source_of choose_keys
  collect = do
    tell (text "tapwarden setup — Vaultwarden backend")
    tell (text "Use the DEDICATED account that holds only tapwarden's SSH keys." ++ (10 ∷ []))
    server_url ← ask_server_url
    email ← prompt host.server.terminal (text "Account email: ")
    lift (validate_email email)
    master_password ←
        map_result (context "failed to read the master password")
          (host.server.terminal.prompt_password (text "Master password (hidden): "))
    lift host.client
    kdf ← prelogin host.server server_url email
    master_key ← lift (
        context "setup failed: master key derivation"
          (derive_master_key host.kdf master_password email (kdf_params kdf)))
    token ←
        password_login host.server server_url email
          (server_auth_hash host.kdf master_key master_password)
    tell (text "Logged in.")
    user_key ← lift (wrapped_user_key token.key (stretch_master_key host.crypto master_key))
    api ←
        fetch_api_key host.server server_url token.access_token
          (server_auth_hash host.kdf master_key master_password)
    profile ← fetch_profile host.server server_url token.access_token
    tell (text "Obtained the personal API key.")
    answer ← prompt host.server.terminal (text "Store credentials in the macOS Keychain? [Y/n]: ")
    vault ← fetch_sync host.server server_url token.access_token
    items ← lift (ssh_key_items host.crypto vault.ciphers user_key)
    chosen ← choose_keys items
    lift (
        ok (record {
          server_url = server_url;
          email = email;
          master_password = master_password;
          client_id = text "user." ++ host.show_uuid profile.id;
          client_secret = api.api_key;
          credentials = source_of answer;
          chosen = chosen;
        }))

  -- `keychain::delete(account); keychain::store(account, value)?`
  unfoldable pub replace_entry : Text → Text → Action W (Unit {0})
  unfolding Keychain.delete Keychain.store
  replace_entry account value w =
      Keychain.store host.keyring account value (Keychain.delete host.keyring account w)

  unfoldable pub store_credentials : CredentialSource → Answers → Action W (Unit {0})
  unfolding replace_entry
  store_credentials env a = lift (ok tt)
  store_credentials keychain a = do
    replace_entry vw_client_id a.client_id
    replace_entry vw_client_secret a.client_secret
    replace_entry vw_master_password a.master_password

  unfoldable pub advise : CredentialSource → Answers → Action W (Unit {0})
  advise keychain a = do
    tell (10 ∷ text "Stored the credentials in the macOS Keychain (service \"tapwarden\").")
    tell (text "Every agent read of them is gated by a Touch ID prompt; no env vars needed.")
  advise env a = do
    tell (
        10
        ∷ (text
              "Add these to your environment (e.g. ~/.zshenv — keep them out of anything world-readable):"
            ++ (10 ∷ [])))
    tell (text "  export TAPWARDEN_VW_CLIENT_ID='" ++ a.client_id ++ text "'")
    tell (text "  export TAPWARDEN_VW_CLIENT_SECRET='" ++ a.client_secret ++ text "'")
    tell (text "  export TAPWARDEN_VW_MASTER_PASSWORD='<type your master password here>'")
    tell (10 ∷ text "tapwarden never stores or prints the master password; fill it in yourself.")

  -- From the rendered file on.
  unfoldable pub write_answers : Text → Answers → Action W (Unit {0})
  unfolding render_config write_config_file advise
  write_answers path a = do
    contents ← lift (render_config host.show_uuid a.server_url a.email a.chosen a.credentials)
    write_config_file host.disk path contents
    tell (10 ∷ (text "Wrote " ++ path ++ text " (mode 0600, no secrets inside)."))
    advise a.credentials a

  -- The question comes before anything is stored, and the keychain before the file.
  unfoldable pub finish : Answers → Action W (Unit {0})
  unfolding confirm_overwrite store_credentials write_answers
  finish a = do
    path ← lift (config_path host.disk)
    confirm_overwrite host.disk path (prompt host.server.terminal (text "Overwrite it? [y/N]: "))
    store_credentials a.credentials a
    write_answers path a

  unfoldable pub run : Action W (Unit {0})
  unfolding collect finish
  run = do a ← collect; finish a
