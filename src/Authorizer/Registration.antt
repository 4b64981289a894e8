-- ===== src/Authorizer/Registration.antt =====
-- src/authorizer.rs: `register_yubikey`. The FIDO2 library's registration and its check of an
-- attestation are parameters, and so is base64.
pub mod Laws
pub mod Attested
use tapwarden.Base.{
  ◌≡◌, refl, ap, sym, subst, Bool, true, false, not, Option, none, some, List, [], ◌∷◌, ◌++◌, Text,
  text, trim, Bytes, is_empty, Result, ok, err, message, context, render, bail_if, ok-injective,
  if◌then◌else◌, Error,
}
use tapwarden.Base.Action.{Action, ◌>>=◌, ◌>>◌, lift, map_result, continue_with_ok}
use tapwarden.Authorizer.Yubikey.{FidoHost, yubikey_rp_id}
use tapwarden.Config.{YubikeyPublicKeyAlgorithm, es256, ed25519, YubikeyPublicKey, YubikeyConfig}
use tapwarden.Config.Verifier.{
  VerifierHost, PublicKeyType, ecdsa256, ed25519_key, verifier, IsKey, verifier_iff,
}

-- `PublicKeyType` of the library.
pub data KeyKind : Type 0 where
  ecdsa ed unsupported : KeyKind

-- What `verify_attestation` finds.
pub record Verified : Type 0 where
  pub is_success : Bool
  pub credential_id : Bytes
  pub kind : KeyKind
  pub der : Bytes

pub record RegisterHost (Device PublicKey R Attestation W : Type 0) : Type 0 where
  pub fido : FidoHost Device PublicKey R W
  pub prompt_password : Text → Action W Text
  pub println : Text → W → W
  -- relying party, challenge and, if the key has one, the PIN; an error is its debug text
  pub make_credential : Device → Text → Bytes → Option Text → Action W Attestation
  pub verify_attestation : Text → Bytes → Attestation → Verified
  pub b64_encode : Bytes → Text

pub record RegisteredYubikey : Type 0 where
  pub credential_id : Text
  pub public_key_algorithm : Text
  pub public_key_bytes : Text

-- `map_err(|e| anyhow!("... {e:?}"))`
unfoldable pub with_debug : {A : Type 0} → Text → Result A → Result A
unfolding render
with_debug what (ok a) = ok a
with_debug what (err e) = err ((what ++ text ": " ++ render e) ∷ [])

unfoldable pub key_algorithm : KeyKind → Result Text
key_algorithm ecdsa = ok (text "es256")
key_algorithm ed = ok (text "ed25519")
key_algorithm unsupported =
    err (message "registered credential uses an unsupported public-key algorithm")

-- An empty PIN is none.
unfoldable pub given_pin : Text → Option Text
given_pin pin = if is_empty pin then none else some pin

module _ {Device PublicKey R Attestation W : Type 0}
    (host : RegisterHost Device PublicKey R Attestation W) where
  abbrev challenge_of : Bytes × W → Result Bytes × W
  challenge_of (challenge, w) = (ok challenge, w)

  abbrev create_challenge : Action W Bytes
  create_challenge w = challenge_of (host.fido.create_challenge w)

  abbrev tell : Text → Action W (Unit {0})
  tell s w = (ok tt, host.println s w)

  unfoldable pub read_verified : Verified → Action W RegisteredYubikey
  unfolding key_algorithm
  read_verified verify = do
    lift (bail_if (not verify.is_success) (message "attestation verification failed"))
    algorithm ← lift (key_algorithm verify.kind)
    lift (
        bail_if (is_empty verify.der)
          (message "registered credential returned an empty public key"))
    lift (
        ok (record {
          credential_id = host.b64_encode verify.credential_id;
          public_key_algorithm = algorithm;
          public_key_bytes = host.b64_encode verify.der;
        }))

  -- From the challenge on.
  unfoldable pub attest : Device → Text → Bytes → Action W RegisteredYubikey
  unfolding with_debug given_pin read_verified
  attest device pin challenge = do
    tell (text "Touch your YubiKey to register...")
    attestation ←
        map_result (with_debug (text "registration failed (touch timed out or wrong PIN?)"))
          (host.make_credential device yubikey_rp_id challenge (given_pin (trim pin)))
    read_verified (host.verify_attestation yubikey_rp_id challenge attestation)

  unfoldable pub register_yubikey : Action W RegisteredYubikey
  unfolding with_debug attest
  register_yubikey = do
    device ←
        map_result (with_debug (text "no FIDO2 security key found (or more than one connected)"))
          host.fido.create
    pin ←
        map_result (context "failed to read the PIN")
          (host.prompt_password (text "YubiKey PIN (leave empty if the key has none): "))
    challenge ← create_challenge
    attest device pin challenge
