-- ===== src/Secret/Token.antt =====
-- src/secret_source.rs: `AccessToken`. `Uuid::parse_str` is a parameter; a UUID is its number.
pub mod Laws
use tapwarden.Base.{
  ℕ, ◌≡◌, ◌↔◌, refl, sym, ap, ◌∙◌, Bool, true, false, Option, none, some, List, [], ◌∷◌, ◌++◌, Text,
  Bytes, text, text_eq, text_eq_iff, split, split_once, join, String, Result, ok, err, message,
  context, expect, bail_if, result_map, arith, length, not, ◌==◌, if◌then◌else◌, All,
}
use tapwarden.Base.Try.{◌>>=◌, ◌>>◌}
use tapwarden.Base.Split.{
  Without, split-Without, split-append, split-pieces, join-split, split_once_iff,
}
use tapwarden.Secret.Crypto.{Crypto, SymKey, derive_access_token_key}
use tapwarden.Secret.EncString.{to_array}

pub record AccessToken : Type 0 where
  pub client_id : ℕ
  pub client_secret : Text
  pub encryption_key : SymKey

module _ (crypto : Crypto) (parse_uuid : Text → Result ℕ) where
  -- The three parts before the colon.
  unfoldable pub parse_parts : Text → List Text → Result AccessToken
  unfolding to_array
  parse_parts key_b64 (version ∷ client_id ∷ client_secret ∷ []) = do
    bail_if (not (text_eq version (text "0")))
        (message "unsupported access token version (expected 0)")
    id ← context "malformed access token: client id is not a UUID" (parse_uuid client_id)
    bytes ←
        context "malformed access token: encryption key is not base64" (crypto.b64_decode key_b64)
    seed ← to_array 16 "malformed access token: encryption key is not 16 bytes" bytes
    ok (record {
      client_id = id;
      client_secret = client_secret;
      encryption_key = derive_access_token_key crypto seed;
    })
  parse_parts key_b64 _ =
      err (message "malformed access token: wrong number of '.'-separated parts")

  unfoldable pub parse : Text → Result AccessToken
  unfolding parse_parts
  parse token = do
    (first, key_b64) ←
        expect "malformed access token: missing encryption key part" (split_once b':' token)
    parse_parts key_b64 (split b'.' first)

  -- `validate_access_token`
  unfoldable pub validate_access_token : Text → Result (Unit {0})
  unfolding parse
  validate_access_token token = result_map (λ t. tt) (parse token)

  -- `0.<client_id>.<client_secret>:<seed>`: no part before the colon holds a dot or a colon.
  pub record Reads (token : Text) (t : AccessToken) : Type 0 where
    pub id_text : Text
    pub key_text : Text
    pub seed : Bytes
    pub dots : Without b'.' id_text × Without b'.' t.client_secret
    pub colons : Without b':' id_text × Without b':' t.client_secret
    pub form : token ≡ text "0." ++ (id_text ++ b'.' ∷ (t.client_secret ++ b':' ∷ key_text))
    pub id_parses : parse_uuid id_text ≡ ok t.client_id
    pub key_decodes : crypto.b64_decode key_text ≡ ok seed
    pub seed_size : length seed ≡ 16
    pub derived : t.encryption_key ≡ derive_access_token_key crypto seed
