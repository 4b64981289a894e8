-- ===== src/Tests/Service.antt =====
-- src/agent.rs at concrete inputs: a private key is a number, and a world counts the calls.
use tapwarden.Base.{
  List, ◌++◌, ℕ, ◌+◌, ◌≡◌, inl, inr, refl, true, false, none, some, [], ◌∷◌, In, Bytes, text_eq,
  nat_eq, ok,
}
use tapwarden.Base.Map.{get, insert, remove}
use tapwarden.Secret.Bws.Decode.{SecretData}
use tapwarden.Agent.Key.{Ssh, LoadedKey, display_comment, decode_key, IsServable}
use tapwarden.Agent.Service.{
  ServiceState, KeyService, Identity, SignRequest, find, or_load, key_for, identities, sign_request,
  authorize, conclude, missing, keep, note, failure_of,
}
use tapwarden.Base.Time.{Clock}
use tapwarden.Authorizer.Grace.{GraceState, approve, elapsed_within, wall_elapsed}
use tapwarden.Authorizer.Grace.History.{Grant}
use tapwarden.Agent.Service.Backed.{guarded, asked, Life, Signature, signature_backed}
use tapwarden.Agent.Service.Concurrent.{Reach, Loading, Distinct, IsNew, fetches-Distinct}
use tapwarden.Agent.Service.Serving.{AllServable}
use tapwarden.Agent.Service.Listing.{identities_complete}
use tapwarden.Agent.Service.Signing.{Gated, key_for-IsServable, sign_request-Gated}

abbrev pub ssh : Ssh ℕ
ssh = record {
  from_openssh = λ t. ok 4;
  is_ed25519 = λ k. true;
  show_algorithm = λ k. [];
  is_encrypted = λ k. false;
  comment = λ k. [];
  fingerprint = λ k. k ∷ [];
  key_data = λ k. k ∷ [];
  try_sign = λ k payload. ok (k ∷ payload);
}

abbrev pub secret : SecretData
secret = record { name = 8 ∷ []; openssh_private_key = [] }

abbrev service : KeyService ℕ ℕ
service = record {
  secret_ids = 1 ∷ [];
  fetch = λ id w. (ok secret, w + 1);
  authorizer = record { approve = λ ctx w. (ok true, w + 1) };
  log = λ line w. w + 1;
  show_id = λ id. [];
  iteration = λ keys. keys;
}

abbrev loaded : LoadedKey ℕ
loaded = record { key = 4; comment = 8 ∷ []; fingerprint = 4 ∷ [] }

abbrev cached : ServiceState ℕ ℕ
cached = record { keys = (1, some loaded) ∷ []; last_errors = []; world = 0 }

abbrev unloaded : ServiceState ℕ ℕ
unloaded = record { keys = []; last_errors = []; world = 0 }

abbrev request : Bytes → SignRequest
request credential = record { credential = credential; payload = 6 ∷ [] }

loaded-IsServable : IsServable ssh loaded
loaded-IsServable = record { ed25519 = refl; unencrypted = refl; own_fingerprint = refl }

cached-AllServable : AllServable ssh service cached.keys
cached-AllServable id k (inl e) = let same : k ≡ loaded = cc in rw same loaded-IsServable
cached-AllServable id k (inr h) = absurd h

abbrev shown_identity : Identity
shown_identity = record { credential = 4 ∷ []; comment = 8 ∷ [] }

identities_complete_example : In shown_identity (identities ssh service unloaded).0
unfolding decode_key display_comment get
identities_complete_example =
    identities_complete ssh service unloaded 1 secret loaded (inl refl) refl (λ w. refl) refl

key_for-IsServable_example : (ssh.key_data loaded.key ≡ 4 ∷ []) × IsServable ssh loaded
unfolding key_for or_load find text_eq
key_for-IsServable_example =
    key_for-IsServable ssh service (4 ∷ []) cached loaded (λ keys x h. h) cached-AllServable refl

sign_request-Gated_example :
    Gated ssh service
      (request (4 ∷ []))
      none
      loaded
      (key_for ssh service (4 ∷ []) cached).1
      (sign_request ssh service (request (4 ∷ [])) none cached).0
      (sign_request ssh service (request (4 ∷ [])) none cached).1
unfolding key_for or_load find text_eq
sign_request-Gated_example =
    sign_request-Gated ssh service (request (4 ∷ [])) none loaded cached refl

-- One client's pass is dropped with the secret in its hands; a second client's pass fetches and stores
-- it; a third one has nothing left to fetch.
abbrev met : Reach ssh service Loading.free (keep ssh service 1 (ok secret, 0) unloaded) (1 ∷ [])
unfolding missing keep note get insert remove decode_key display_comment failure_of
met = Reach.release 3 (
    Reach.look 3 (
      Reach.enter 3 (
        Reach.release 2 (
          Reach.store 2 1 [] secret (
            Reach.answer 2 1 [] secret (
              Reach.ask 2 1 [] (
                Reach.look 2 (
                  Reach.enter 2 (
                    Reach.abandon (
                      Reach.answer 1 1 [] secret
                        (Reach.ask 1 1 [] (Reach.look 1 (Reach.enter 1 (Reach.start 0))))))))))))))

fetches-Distinct_example : IsNew ssh service Loading.free (1 ∷ []) × Distinct (1 ∷ [])
fetches-Distinct_example =
    fetches-Distinct ssh service (tt, tt) Loading.free (keep ssh service 1 (ok secret, 0) unloaded)
      (1 ∷ []) met

-- A clock that stands still, and a service whose first signature was approved by the user.
abbrev still : Clock ℕ
still = record { instant = λ w. (7, w); wall = λ w. (7, w) }

abbrev first : ServiceState ℕ (GraceState ℕ)
first = record { keys = []; last_errors = []; world = record { last = []; world = 0 } }

abbrev second : ServiceState ℕ (GraceState ℕ)
second = (sign_request ssh (guarded ssh still 60 service) (request (4 ∷ [])) none first).1

abbrev history : List Grant
history =
    asked ssh still 60 service none (key_for ssh (guarded ssh still 60 service) (4 ∷ []) first)

-- The second request is served inside the window of the first.
signature_backed_example :
    Signature ssh still 60 service (history ++ []) (request (4 ∷ [])) none second (4 ∷ 6 ∷ [])
unfolding sign_request key_for or_load find text_eq authorize conclude approve get insert decode_key
    elapsed_within wall_elapsed
signature_backed_example =
    signature_backed ssh still 60 service second (history ++ []) (request (4 ∷ [])) none
      (4 ∷ 6 ∷ []) (Life.request (request (4 ∷ [])) none (Life.start 0)) refl
