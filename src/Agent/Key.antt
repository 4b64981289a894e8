-- ===== src/Agent/Key.antt =====
-- src/agent.rs: `LoadedKey` and `decode_key`. The ssh-key library is a record of functions over its
-- private keys; a public key's data and a signature are byte strings.
use tapwarden.Base.{
  ◌≡◌, ◌↔◌, Bool, true, false, not, [], ◌∷◌, ◌++◌, Text, Bytes, text, is_empty, Result, ok, context,
  bail_if, arith, Result-cases, inl, inr, if◌then◌else◌,
}
use tapwarden.Base.Try.{◌>>=◌, ◌>>◌}
use tapwarden.Secret.Bws.Decode.{SecretData}

pub record Ssh (PrivateKey : Type 0) : Type 0 where
  pub from_openssh : Text → Result PrivateKey
  -- `key.algorithm() == Algorithm::Ed25519`, and how an algorithm is displayed
  pub is_ed25519 : PrivateKey → Bool
  pub show_algorithm : PrivateKey → Text
  pub is_encrypted : PrivateKey → Bool
  pub comment : PrivateKey → Text
  -- the SHA-256 fingerprint, displayed
  pub fingerprint : PrivateKey → Text
  -- `public_key().key_data()`
  pub key_data : PrivateKey → Bytes
  pub try_sign : PrivateKey → Bytes → Result Bytes

pub record LoadedKey (PrivateKey : Type 0) : Type 0 where
  pub key : PrivateKey
  pub comment : Text
  pub fingerprint : Text

module _ {PrivateKey : Type 0} (ssh : Ssh PrivateKey) where
  -- The key's comment, or the secret's name if it has none.
  unfoldable pub display_comment : PrivateKey → SecretData → Text
  display_comment key secret = if is_empty (ssh.comment key) then secret.name else ssh.comment key

  unfoldable pub decode_key : SecretData → Result (LoadedKey PrivateKey)
  unfolding display_comment
  decode_key secret = do
    key ←
        context "secret value is not an OpenSSH private key"
          (ssh.from_openssh secret.openssh_private_key)
    bail_if (not (ssh.is_ed25519 key)) (
        (text "secret \""
          ++ secret.name
          ++ text "\" holds a "
          ++ ssh.show_algorithm key
          ++ text " key — tapwarden serves Ed25519 keys only")
        ∷ [])
    bail_if (ssh.is_encrypted key) (
        (text "secret \""
          ++ secret.name
          ++ text "\" holds a passphrase-protected key — tapwarden needs an unencrypted key")
        ∷ [])
    ok (record {
      key = key;
      comment = display_comment key secret;
      fingerprint = ssh.fingerprint key;
    })

  -- A loaded key can be served: it signs, and its fingerprint is its own.
  pub record IsServable (k : LoadedKey PrivateKey) : Type 0 where
    pub ed25519 : ssh.is_ed25519 k.key ≡ true
    pub unencrypted : ssh.is_encrypted k.key ≡ false
    pub own_fingerprint : k.fingerprint ≡ ssh.fingerprint k.key

  -- Exactly the unencrypted Ed25519 keys are loaded, under their own comment or, where that is
  -- empty, the secret's name.
  pub decode_key_iff :
      (secret : SecretData) (k : LoadedKey PrivateKey)
      → (decode_key secret ≡ ok k) ↔ (
          (ssh.from_openssh secret.openssh_private_key ≡ ok k.key)
          × (k.comment ≡ display_comment k.key secret)
          × IsServable k)
  unfolding decode_key
  decode_key_iff secret k = elim (Result-cases (ssh.from_openssh secret.openssh_private_key)) [
    | inl (key, e) ↦ (λ h. ground arith, λ c. ground arith)
    | inr (x, e) ↦ (λ h. ground arith, λ c. ground arith)
  ]
