-- ===== src/Vaultwarden/Cipher.antt =====
-- src/vaultwarden.rs: a fetched vault item, and the secret that is taken from it.
pub mod Laws
use tapwarden.Base.{
  ℕ, Bool, not, Option, none, some, List, [], ◌∷◌, Text, text, Result, ok, err, message, context,
  expect, bail_if, result_map, option_is_some, ◌==◌,
}
use tapwarden.Base.Try.{◌>>=◌, ◌>>◌}
use tapwarden.Secret.Crypto.{Crypto, SymKey, from_bytes}
use tapwarden.Secret.EncString
use tapwarden.Secret.Bws.Decode.{SecretData}

-- `sshKey` holds the encrypted private key.
pub record CipherResponse : Type 0 where
  pub atype : ℕ
  pub organization_id : Option Text
  pub key : Option Text
  pub name : Text
  pub ssh_key : Option Text

abbrev pub cipher_type_ssh_key : ℕ
cipher_type_ssh_key = 5

abbrev pub unwrap_or {ℓ} : {A : Type ℓ} → A → Option A → A
unwrap_or a (some b) = b
unwrap_or a none = a

module _ (crypto : Crypto) where
  unfoldable pub item_key : Text → SymKey → Result SymKey
  unfolding from_bytes
  item_key k user_key = do
    wrapped ← EncString.parse crypto k
    context "cipher item key decryption" (EncString.decrypt crypto wrapped user_key >>= from_bytes)

  unfoldable pub resolve_cipher_key : Option Text → SymKey → Result (Option SymKey)
  unfolding item_key
  resolve_cipher_key none user_key = ok none
  resolve_cipher_key (some k) user_key = result_map some (item_key k user_key)

  -- The two fields, under the key of the item.
  unfoldable pub decrypt_item : Text → Text → SymKey → Result SecretData
  decrypt_item name_text private_key key = do
    name_enc ← EncString.parse crypto name_text
    name ← context "cipher name decryption" (EncString.decrypt_to_string crypto name_enc key)
    private_enc ← EncString.parse crypto private_key
    openssh ←
        context "cipher privateKey decryption" (EncString.decrypt_to_string crypto private_enc key)
    ok (record { name = name; openssh_private_key = openssh })

  unfoldable pub extract_secret : CipherResponse → SymKey → Result SecretData
  unfolding decrypt_item
  extract_secret cipher user_key = do
    bail_if (option_is_some cipher.organization_id) (
        message
          "org-owned items unsupported; put the key in the dedicated account's personal vault")
    bail_if (not (cipher.atype == cipher_type_ssh_key))
        (message "cipher is not an SSH key item (expected type 5)")
    private_key ←
        expect "cipher has no usable sshKey data (server nulls invalid ssh entries)" cipher.ssh_key
    own ← resolve_cipher_key cipher.key user_key
    decrypt_item cipher.name private_key (unwrap_or user_key own)
