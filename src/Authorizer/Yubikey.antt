-- ===== src/Authorizer/Yubikey.antt =====
-- src/authorizer.rs: `YubikeyTouch` and the registration of a security key. The FIDO2 library
-- (ctap-hid-fido2) is a record of calls on the world; its public keys and its debug texts of errors
-- are parameters, and so are its two verifiers. Byte strings are lists of bytes. A panic of the
-- blocking task is not modelled.
use tapwarden.Base.{
  ◌≡◌, ◌↔◌, ◌⊎◌, refl, Bool, true, false, not, ◌&&◌, ◌||◌, Option, none, some, List, [], ◌∷◌, ◌++◌,
  Text, Bytes, text, text_eq, text_eq_iff, is_empty, Result, ok, err, is_ok, render, ok-injective,
  subst, sym, arith,
}
use tapwarden.Base.Action.{Action}
use tapwarden.Authorizer.Defs.{AuthContext, Authorizer}

abbrev pub yubikey_rp_id : Text
yubikey_rp_id = text "tapwarden"

-- The fields of an assertion that tapwarden reads; the verifier reads the whole assertion `rest`.
pub record Assertion (R : Type 0) : Type 0 where
  pub credential_id : Bytes
  pub user_present_result : Bool
  pub attested_credential_data_included : Bool
  pub rest : R

-- An empty id is allowed: the allow-list has one entry.
unfoldable pub yubikey_credential_matches : Bytes → Bytes → Bool
yubikey_credential_matches expected returned = is_empty returned || text_eq returned expected

pub record FidoHost (Device PublicKey R W : Type 0) : Type 0 where
  -- `FidoKeyHidFactory::create`; an error is its debug text
  pub create : Action W Device
  -- `verifier::create_challenge`
  pub create_challenge : W → Bytes × W
  -- `get_assertion_with_args`: relying party, challenge, the one allowed credential
  pub get_assertion : Device → Text → Bytes → Bytes → W → Option (List (Assertion R)) × W
  -- `verifier::verify_assertion`
  pub verify_assertion : Text → PublicKey → Bytes → Assertion R → Bool

module _ {Device PublicKey R W : Type 0} (host : FidoHost Device PublicKey R W) where
  unfoldable pub yubikey_assertion_is_valid : Bytes → PublicKey → Bytes → Assertion R → Bool
  unfolding yubikey_credential_matches
  yubikey_assertion_is_valid credential_id public_key challenge assertion =
      yubikey_credential_matches credential_id assertion.credential_id
      && assertion.user_present_result
      && not assertion.attested_credential_data_included
      && host.verify_assertion yubikey_rp_id public_key challenge assertion

  -- The `matches!` on the returned slice: exactly one assertion, and a valid one.
  unfoldable pub single_valid : Bytes → PublicKey → Bytes → Option (List (Assertion R)) → Bool
  unfolding yubikey_assertion_is_valid
  single_valid credential_id public_key challenge (some (assertion ∷ [])) =
      yubikey_assertion_is_valid credential_id public_key challenge assertion
  single_valid credential_id public_key challenge (some []) = false
  single_valid credential_id public_key challenge (some (a ∷ b ∷ more)) = false
  single_valid credential_id public_key challenge none = false

  abbrev reached : Result Device × W → Bool × W
  reached (device, w) = (is_ok device, w)

  unfoldable pub yubikey_present : W → Bool × W
  yubikey_present w = reached (host.create w)

  module _ (credential_id : Bytes) (public_key : PublicKey) where
    unfoldable pub touch : Device → Action W Bool
    unfolding single_valid
    touch device w =
        let (challenge, w1) = host.create_challenge w in
        let (assertions, w2) = host.get_assertion device yubikey_rp_id challenge credential_id w1 in
        (ok (single_valid credential_id public_key challenge assertions), w2)

    unfoldable pub found : Result Device × W → Result Bool × W
    unfolding touch render
    found (err e, w) = (
      err ((text "no FIDO2 security key found (or more than one connected): " ++ render e) ∷ []),
      w,
    )
    found (ok device, w) = touch device w

    unfoldable pub approve : AuthContext → Action W Bool
    unfolding found
    approve ctx w = found (host.create w)

    abbrev pub yubikey_touch : Authorizer W
    yubikey_touch = record { approve = approve }

    -- One device answered the challenge made for this approval with one assertion that names the
    -- registered credential (or none), was touched, carries no attested data and is signed.
    pub record Touched (d : Device) (w : W) (a : Assertion R) : Type 0 where
      pub answered :
          (host.get_assertion d yubikey_rp_id
            (host.create_challenge w).0
            credential_id
            (host.create_challenge w).1).0
          ≡ some (a ∷ [])
      pub named : (a.credential_id ≡ []) ⊎ (a.credential_id ≡ credential_id)
      pub present : a.user_present_result ≡ true
      pub plain : a.attested_credential_data_included ≡ false
      pub signed :
          host.verify_assertion yubikey_rp_id public_key (host.create_challenge w).0 a ≡ true

    single_valid-Touched :
        (d : Device) (w : W) → (touch d w).0 ≡ ok true → (a : Assertion R) × Touched d w a
    unfolding touch
    single_valid-Touched d w h = go _ refl (ground arith)
      where
        go :
            (r : Option (List (Assertion R)))
            → (host.get_assertion d yubikey_rp_id
                (host.create_challenge w).0
                credential_id
                (host.create_challenge w).1).0
              ≡ r
            → single_valid credential_id public_key (host.create_challenge w).0 r ≡ true
            → (a : Assertion R) × Touched d w a
        go none e v = cc
        go (some []) e v = cc
        go (some (a ∷ b ∷ more)) e v = cc
        go (some (a ∷ [])) e v = (
          a,
          record {
            answered = e;
            named = ground (arith, text_eq_iff a.credential_id credential_id);
            present = ground arith;
            plain = ground arith;
            signed = ground arith;
          },
        )

    Touched-valid : (d : Device) (w : W) (a : Assertion R) → Touched d w a → (touch d w).0 ≡ ok true
    unfolding touch
    Touched-valid d w a t =
        rw t.answered (ground (arith, text_eq_iff a.credential_id credential_id))

    -- An approval is exactly one touched, signed assertion by the registered key.
    pub yubikey_approve_iff :
        (ctx : AuthContext) (w : W)
        → ((approve ctx w).0 ≡ ok true) ↔ (
            (d : Device) × ((host.create w).0 ≡ ok d)
            × ((a : Assertion R) × Touched d (host.create w).1 a))
    unfolding approve
    yubikey_approve_iff ctx w = go (host.create w)
      where
        go :
            (p : Result Device × W)
            → ((found p).0 ≡ ok true)
              ↔ ((d : Device) × (p.0 ≡ ok d) × ((a : Assertion R) × Touched d p.1 a))
        go (ok d, w') = (
          λ h. (d, refl, single_valid-Touched d w' h),
          λ (d', e, (a, t)).
              Touched-valid d w' a (subst (λ x. Touched x w' a) (sym (ok-injective e)) t),
        )
        go (err e, w') = (λ h. cc, λ (d, e, t). cc)
