-- ===== src/Authorizer/Registration/Attested.antt =====
-- What a registration has gone through, and when the configuration accepts what it returns.
use tapwarden.Base.{
  ◌≡◌, ◌≢◌, ◌↔◌, [], ◌∷◌, subst, Result, err, refl, ap, sym, ◌∙◌, false, Text, text, trim, Bytes,
  is_empty, ok, ok-injective, context,
}
use tapwarden.Base.Try.{context-eq-ok}
use tapwarden.Base.Action.{continue_with_ok, map_result}
use tapwarden.Authorizer.Yubikey.{yubikey_rp_id}
use tapwarden.Config.{YubikeyPublicKeyAlgorithm, es256, ed25519}
use tapwarden.Config.Verifier.{VerifierHost, PublicKeyType, verifier, IsKey, verifier_iff}
use tapwarden.Authorizer.Registration.{
  Verified, RegisterHost, RegisteredYubikey, with_debug, given_pin, create_challenge, attest,
  register_yubikey,
}
use tapwarden.Authorizer.Registration.Laws.{kind_of, configured, Registers, read_verified-Registers}

with_debug-eq-ok : {A : Type 0} (m : Text) (r : Result A) (a : A) → with_debug m r ≡ ok a → r ≡ ok a
unfolding with_debug
with_debug-eq-ok m (ok b) a h = h
with_debug-eq-ok m (err e) a h = cc

-- A call whose error is only decorated has itself succeeded.
decorated :
    {W A : Type 0} (f : Result A → Result A) (p : Result A × W) {a : A} {w : W}
    → ((r : Result A) (b : A) → f r ≡ ok b → r ≡ ok b)
    → ◌≡◌ {A = Result A × W} (f p.0, p.1) (ok a, w)
    → p ≡ (ok a, w)
decorated f (r, v) {a} {w} plain h =
    let same : r ≡ ok a = plain r a (ap (λ x. x.0) h) in
    let moved : v ≡ w = ap (λ x. x.1) h in λ i. (same i, moved i)

none_empty : (b : Bytes) → is_empty b ≡ false → b ≢ []
none_empty [] h = cc
none_empty (x ∷ b) h = λ k. cc

given_empty : (b : Bytes) → b ≢ [] → is_empty b ≡ false
given_empty [] h = absurd (h refl)
given_empty (x ∷ b) h = refl

module _ {Device PublicKey R Attestation W : Type 0}
    (host : RegisterHost Device PublicKey R Attestation W)
    (verifiers : VerifierHost PublicKey) where
  -- base64 decodes what it encoded.
  abbrev pub Decodes : Type 0
  Decodes = (b : Bytes) → verifiers.b64_decode (host.b64_encode b) ≡ ok b

  -- How the configuration takes what was registered: as this credential id with this key, exactly if
  -- the id is not empty and the key has the form of its algorithm.
  abbrev pub Accepts : Verified → RegisteredYubikey → YubikeyPublicKeyAlgorithm → Type 0
  Accepts v r a =
      (id : Bytes) (key : PublicKey)
      → (verifier verifiers (configured a r) ≡ ok (id, key)) ↔ (
          (id ≡ v.credential_id)
          × (id ≢ [])
          × IsKey verifiers a v.der (kind_of a)
          × (key ≡ verifiers.with_der v.der (kind_of a)))

  kind_known :
      (a : YubikeyPublicKeyAlgorithm) (der : Bytes) (kind : PublicKeyType)
      → IsKey verifiers a der kind
      → kind ≡ kind_of a
  kind_known es256 der kind (l, b, k) = k
  kind_known ed25519 der kind (l, k) = k

  Registers-Accepts :
      Decodes
      → (v : Verified) (r : RegisteredYubikey) (a : YubikeyPublicKeyAlgorithm)
      → Registers host v r a
      → Accepts v r a
  Registers-Accepts decodes v r a p id key =
      let id_decodes : verifiers.b64_decode r.credential_id ≡ ok v.credential_id =
        ap verifiers.b64_decode p.credential_id ∙ decodes v.credential_id in
      let key_decodes : verifiers.b64_decode r.public_key_bytes ≡ ok v.der =
        ap verifiers.b64_decode p.bytes ∙ decodes v.der in
      (accepted id_decodes key_decodes, accepts id_decodes key_decodes)
    where
      accepted :
          verifiers.b64_decode r.credential_id ≡ ok v.credential_id
          → verifiers.b64_decode r.public_key_bytes ≡ ok v.der
          → verifier verifiers (configured a r) ≡ ok (id, key)
          → (id ≡ v.credential_id)
            × (id ≢ [])
            × IsKey verifiers a v.der (kind_of a)
            × (key ≡ verifiers.with_der v.der (kind_of a))
      accepted id_decodes key_decodes h =
          let q = (verifier_iff verifiers (configured a r) id key).0 h in
          let pk : record { algorithm = a; bytes = r.public_key_bytes } ≡ q.public_key =
            cc (q.key_given) in
          let der : q.bytes ≡ v.der =
            ok-injective
              (sym q.key_decodes ∙ ap (λ k. verifiers.b64_decode k.bytes) (sym pk) ∙ key_decodes) in
          let form : IsKey verifiers a v.der q.kind =
            subst (λ d. IsKey verifiers a d q.kind) der
              (subst (λ k. IsKey verifiers k.algorithm q.bytes q.kind) (sym pk) q.well_formed) in
          let kind = kind_known a v.der q.kind form in
          (
            ok-injective (sym q.id_decodes ∙ id_decodes),
            none_empty id q.id_given,
            subst (λ k. IsKey verifiers a v.der k) kind form,
            sym q.made
                ∙ ap (λ d. verifiers.with_der d q.kind) der
                ∙ ap (λ k. verifiers.with_der v.der k) kind,
          )

      accepts :
          verifiers.b64_decode r.credential_id ≡ ok v.credential_id
          → verifiers.b64_decode r.public_key_bytes ≡ ok v.der
          → (id ≡ v.credential_id)
            × (id ≢ [])
            × IsKey verifiers a v.der (kind_of a)
            × (key ≡ verifiers.with_der v.der (kind_of a))
          → verifier verifiers (configured a r) ≡ ok (id, key)
      accepts id_decodes key_decodes (same, given, form, made) =
          (verifier_iff verifiers (configured a r) id key).1 (record {
            public_key = record { algorithm = a; bytes = r.public_key_bytes };
            bytes = v.der;
            kind = kind_of a;
            id_decodes = id_decodes ∙ ap ok (sym same);
            id_given = given_empty id given;
            key_given = refl;
            key_decodes = key_decodes;
            well_formed = form;
            made = sym made;
          })

  -- What a registration has gone through, from the world `w` on: a connected device, a PIN or none, a
  -- fresh challenge, and an attestation for that challenge, which the library has verified.
  pub record Attested (r : RegisteredYubikey) (w w' : W) : Type 0 where
    pub device : Device
    pub pin : Text
    pub challenge : Bytes
    pub attestation : Attestation
    pub algorithm : YubikeyPublicKeyAlgorithm
    pub w1 : W
    pub w2 : W
    pub w3 : W
    pub connected : host.fido.create w ≡ (ok device, w1)
    pub asked :
        host.prompt_password (text "YubiKey PIN (leave empty if the key has none): ") w1
        ≡ (ok pin, w2)
    pub drawn : host.fido.create_challenge w2 ≡ (challenge, w3)
    pub touched :
        host.make_credential device yubikey_rp_id challenge
          (given_pin (trim pin))
          (host.println (text "Touch your YubiKey to register...") w3)
        ≡ (ok attestation, w')
    pub registers :
        Registers host (host.verify_attestation yubikey_rp_id challenge attestation) r algorithm
    pub accepts : Accepts (host.verify_attestation yubikey_rp_id challenge attestation) r algorithm

  -- If base64 decodes what it encoded: a registration that succeeds has asked a connected key to attest
  -- a fresh challenge, and the library has verified the attestation, with an ES256 or Ed25519 key that is
  -- not empty. It returns that credential id and that key, under the key's algorithm; and the agent's
  -- configuration, with them in it, accepts them as just these exactly if the id is not empty and the
  -- key has the form of its algorithm, 65 bytes that begin with 4 or 32 bytes, which the registration
  -- leaves unchecked.
  pub register_yubikey-Attested :
      Decodes
      → (r : RegisteredYubikey) (w w' : W) → register_yubikey host w ≡ (ok r, w')
      → Attested r w w'
  unfolding register_yubikey attest
  register_yubikey-Attested decodes r w w' h =
      let (device, w1, e1, h1) =
        continue_with_ok
          (map_result (with_debug (text "no FIDO2 security key found (or more than one connected)"))
            host.fido.create w)
          _ h in
      let (pin, w2, e2, h2) =
        continue_with_ok
          (map_result (context "failed to read the PIN")
            (host.prompt_password (text "YubiKey PIN (leave empty if the key has none): ")) w1)
          _ h1 in
      let (challenge, w3, e3, h3) =
        continue_with_ok (create_challenge host w2) (attest host device pin) h2 in
      let (attestation, w4, e4, h4) =
        continue_with_ok
          (map_result (with_debug (text "registration failed (touch timed out or wrong PIN?)"))
            (host.make_credential device yubikey_rp_id challenge (given_pin (trim pin)))
            (host.println (text "Touch your YubiKey to register...") w3))
          _ h3 in
      let (a, p, same) =
        read_verified-Registers host (host.verify_attestation yubikey_rp_id challenge attestation) r
          w4 w' h4 in
      record {
        device = device;
        pin = pin;
        challenge = challenge;
        attestation = attestation;
        algorithm = a;
        w1 = w1;
        w2 = w2;
        w3 = w3;
        connected =
            decorated _ _
              (with_debug-eq-ok (text "no FIDO2 security key found (or more than one connected)"))
              e1;
        asked = decorated _ _ (context-eq-ok "failed to read the PIN") e2;
        drawn = λ i. (ok-injective (ap (λ x. x.0) e3) i, ap (λ x. x.1) e3 i);
        touched =
            subst
              (λ x.
                host.make_credential device yubikey_rp_id challenge (given_pin (trim pin))
                  (host.println (text "Touch your YubiKey to register...") w3)
                ≡ (ok attestation, x))
              same
              (decorated _ _
                (with_debug-eq-ok (text "registration failed (touch timed out or wrong PIN?)")) e4);
        registers = p;
        accepts =
            Registers-Accepts decodes (host.verify_attestation yubikey_rp_id challenge attestation)
              r a p;
      }
