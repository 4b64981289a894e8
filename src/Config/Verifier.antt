-- ===== src/Config/Verifier.antt =====
-- src/config.rs: `YubikeyConfig::verifier`. The base64 decoder and the constructor of a public key are
-- parameters.
use tapwarden.Base.{
  ℕ, ◌≡◌, ◌↔◌, refl, Bool, true, false, not, ◌&&◌, some, [], ◌∷◌, Text, Bytes, length, is_empty,
  Result, ok, message, context, expect, bail_if, ◌==◌, arith, ok-injective, sym, subst,
}
use tapwarden.Base.Try.{
  ◌>>=◌, ◌>>◌, >>=-eq-ok, bail_if-eq-ok, bail_if-eq-pass, context-eq-ok, expect-eq-ok,
}
use tapwarden.Config.{YubikeyPublicKeyAlgorithm, es256, ed25519, YubikeyPublicKey, YubikeyConfig}

pub data PublicKeyType : Type 0 where
  ecdsa256 ed25519_key : PublicKeyType

pub record VerifierHost (PublicKey : Type 0) : Type 0 where
  pub b64_decode : Text → Result Bytes
  pub with_der : Bytes → PublicKeyType → PublicKey

-- `bytes[0] == b`, after the length is known.
abbrev pub begins : ℕ → Bytes → Bool
begins b [] = false
begins b (c ∷ cs) = c == b

-- The type of a key of this form.
unfoldable pub key_type : YubikeyPublicKeyAlgorithm → Bytes → Result PublicKeyType
key_type es256 bytes = do
  bail_if (not (length bytes == 65 && begins 4 bytes))
      (message "authorization.yubikey.public_key.bytes is not a valid ES256 public key")
  ok ecdsa256
key_type ed25519 bytes = do
  bail_if (not (length bytes == 32))
      (message "authorization.yubikey.public_key.bytes is not a valid Ed25519 public key")
  ok ed25519_key

module _ {PublicKey : Type 0} (host : VerifierHost PublicKey) where
  unfoldable pub verifier : YubikeyConfig → Result (Bytes × PublicKey)
  unfolding key_type
  verifier y = do
    credential_id ←
        context "authorization.yubikey.credential_id is not valid base64"
          (host.b64_decode y.credential_id)
    bail_if (is_empty credential_id)
        (message "authorization.yubikey.credential_id must not be empty")
    public_key ←
        expect
          "authorization.yubikey.public_key is missing — run `tapwarden register-yubikey` again"
          y.public_key
    bytes ←
        context "authorization.yubikey.public_key.bytes is not valid base64"
          (host.b64_decode public_key.bytes)
    kind ← key_type public_key.algorithm bytes
    ok (credential_id, host.with_der bytes kind)

  -- A public key in the form of its algorithm: an uncompressed point, or 32 bytes.
  abbrev pub IsKey : YubikeyPublicKeyAlgorithm → Bytes → PublicKeyType → Type 0
  IsKey es256 bytes kind = (length bytes ≡ 65) × (begins 4 bytes ≡ true) × (kind ≡ ecdsa256)
  IsKey ed25519 bytes kind = (length bytes ≡ 32) × (kind ≡ ed25519_key)

  pub record Verifies (y : YubikeyConfig) (credential_id : Bytes) (key : PublicKey) : Type 0 where
    pub public_key : YubikeyPublicKey
    pub bytes : Bytes
    pub kind : PublicKeyType
    pub id_decodes : host.b64_decode y.credential_id ≡ ok credential_id
    pub id_given : is_empty credential_id ≡ false
    pub key_given : y.public_key ≡ some public_key
    pub key_decodes : host.b64_decode public_key.bytes ≡ ok bytes
    pub well_formed : IsKey public_key.algorithm bytes kind
    pub made : host.with_der bytes kind ≡ key

  key_type_iff :
      (a : YubikeyPublicKeyAlgorithm) (bytes : Bytes) (kind : PublicKeyType)
      → (key_type a bytes ≡ ok kind) ↔ IsKey a bytes kind
  unfolding key_type
  key_type_iff es256 bytes kind = (
    λ h.
        let (t, e) = bail_if-eq-ok (length bytes == 65 && begins 4 bytes) _ _ h in
        (ground arith, ground arith, ok-injective (sym e)),
    λ c. ground arith,
  )
  key_type_iff ed25519 bytes kind = (
    λ h.
        let (t, e) = bail_if-eq-ok (length bytes == 32) _ _ h in
        (ground arith, ok-injective (sym e)),
    λ c. ground arith,
  )

  verifier_sound :
      (y : YubikeyConfig) (credential_id : Bytes) (key : PublicKey)
      → verifier y ≡ ok (credential_id, key)
      → Verifies y credential_id key
  unfolding verifier
  verifier_sound y credential_id key h =
      let (id, e1, h1) = >>=-eq-ok (context _ (host.b64_decode y.credential_id)) _ h in
      let (given, h2) = bail_if-eq-pass (is_empty id) _ _ h1 in
      let (pk, e3, h3) = expect-eq-ok _ y.public_key _ h2 in
      let (bytes, e4, h4) = >>=-eq-ok (context _ (host.b64_decode pk.bytes)) _ h3 in
      let (kind, e5, h5) = >>=-eq-ok (key_type pk.algorithm bytes) _ h4 in
      let same : id ≡ credential_id = cc (h5) in
      record {
        public_key = pk;
        bytes = bytes;
        kind = kind;
        id_decodes =
            subst (λ x. host.b64_decode y.credential_id ≡ ok x) same (context-eq-ok _ _ id e1);
        id_given = subst (λ x. is_empty x ≡ false) same given;
        key_given = e3;
        key_decodes = context-eq-ok _ _ bytes e4;
        well_formed = (key_type_iff pk.algorithm bytes kind).0 e5;
        made = cc (h5);
      }

  -- A verifier is made exactly from a credential id that is base64 of something and a public key that
  -- is there, is base64, and has the form of its algorithm: 65 bytes that begin with 4 for ES256, or
  -- 32 bytes for Ed25519. It is then that id and that key.
  pub verifier_iff :
      (y : YubikeyConfig) (credential_id : Bytes) (key : PublicKey)
      → (verifier y ≡ ok (credential_id, key)) ↔ Verifies y credential_id key
  unfolding verifier
  verifier_iff y credential_id key = (
    verifier_sound y credential_id key,
    λ r.
        rw
          (
            r.id_decodes,
            r.id_given,
            r.key_given,
            r.key_decodes,
            (key_type_iff r.public_key.algorithm r.bytes r.kind).1 r.well_formed,
            r.made,
          )
          refl,
  )
