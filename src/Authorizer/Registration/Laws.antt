-- ===== src/Authorizer/Registration/Laws.antt =====
-- What a registration has checked when it succeeds.
use tapwarden.Base.{
  ◌≡◌, ◌≢◌, [], ◌∷◌, refl, ap, sym, ◌∙◌, true, some, Text, text, Bytes, is_empty, ok, Error,
  bail_if, message, ok-injective,
}
use tapwarden.Base.Try.{bail_if-passed}
use tapwarden.Base.Action.{continue_with_ok, lift}
use tapwarden.Config.{YubikeyPublicKeyAlgorithm, es256, ed25519, YubikeyConfig}
use tapwarden.Config.Verifier.{PublicKeyType, ecdsa256, ed25519_key}
use tapwarden.Authorizer.Registration.{
  KeyKind, ecdsa, ed, unsupported, Verified, RegisterHost, RegisteredYubikey, key_algorithm,
  read_verified,
}

-- serde's names of the algorithms, and the kinds of key they stand for.
abbrev pub algorithm_name : YubikeyPublicKeyAlgorithm → Text
algorithm_name es256 = text "es256"
algorithm_name ed25519 = text "ed25519"

abbrev pub kind_of : YubikeyPublicKeyAlgorithm → PublicKeyType
kind_of es256 = ecdsa256
kind_of ed25519 = ed25519_key

-- The section of the configuration that holds what was registered.
abbrev pub configured : YubikeyPublicKeyAlgorithm → RegisteredYubikey → YubikeyConfig
configured a r = record {
  credential_id = r.credential_id;
  public_key = some (record { algorithm = a; bytes = r.public_key_bytes });
}

-- The kind of key that the library found is the one that the algorithm is for.
abbrev pub IsFor : YubikeyPublicKeyAlgorithm → KeyKind → Type 0
IsFor es256 kind = kind ≡ ecdsa
IsFor ed25519 kind = kind ≡ ed

not_empty : (b : Bytes) (e : Error) (u : Unit {0}) → bail_if (is_empty b) e ≡ ok u → b ≢ []
not_empty [] e u h = cc
not_empty (x ∷ b) e u h = λ k. cc

module _ {Device PublicKey R Attestation W : Type 0}
    (host : RegisterHost Device PublicKey R Attestation W) where
  -- What was registered, of what the library found.
  pub record Registers (v : Verified) (r : RegisteredYubikey) (a : YubikeyPublicKeyAlgorithm)
      : Type 0 where
    pub verified : v.is_success ≡ true
    pub kind : IsFor a v.kind
    pub algorithm : r.public_key_algorithm ≡ algorithm_name a
    pub credential_id : r.credential_id ≡ host.b64_encode v.credential_id
    pub bytes : r.public_key_bytes ≡ host.b64_encode v.der
    pub some_key : v.der ≢ []

  kind_algorithm :
      (kind : KeyKind) (name : Text)
      → key_algorithm kind ≡ ok name
      → (a : YubikeyPublicKeyAlgorithm) × (name ≡ algorithm_name a) × IsFor a kind
  unfolding key_algorithm
  kind_algorithm ecdsa name h = (es256, sym (ok-injective h), refl)
  kind_algorithm ed name h = (ed25519, sym (ok-injective h), refl)
  kind_algorithm unsupported name h = cc

  pub read_verified-Registers :
      (v : Verified) (r : RegisteredYubikey) (w w' : W)
      → read_verified host v w ≡ (ok r, w')
      → (a : YubikeyPublicKeyAlgorithm) × Registers v r a × (w ≡ w')
  unfolding read_verified
  read_verified-Registers v r w w' h =
      let (u1, w1, e1, h1) = continue_with_ok (lift _ w) _ h in
      let (name, w2, e2, h2) = continue_with_ok (lift (key_algorithm v.kind) w1) _ h1 in
      let (u3, w3, e3, h3) =
        continue_with_ok
          (lift
            (bail_if (is_empty v.der)
              (message "registered credential returned an empty public key"))
            w2)
          _ h2 in
      let (a, n, k) = kind_algorithm v.kind name (ap (λ x. x.0) e2) in
      let same = ok-injective (ap (λ x. x.0) h3) in
      (
        a,
        record {
          verified = bail_if-passed v.is_success _ u1 (ap (λ x. x.0) e1);
          kind = k;
          algorithm = sym (ap (λ x. x.public_key_algorithm) same) ∙ n;
          credential_id = sym (ap (λ x. x.credential_id) same);
          bytes = sym (ap (λ x. x.public_key_bytes) same);
          some_key = not_empty v.der _ u3 (ap (λ x. x.0) e3);
        },
        ap (λ x. x.1) e1 ∙ ap (λ x. x.1) e2 ∙ ap (λ x. x.1) e3 ∙ ap (λ x. x.1) h3,
      )
