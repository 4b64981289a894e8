-- ===== src/Agent/Service.antt =====
-- src/agent.rs: `KeyService`. The fetcher, the authorizer and the log are calls on the world. A
-- `HashMap` is an association list, and `values()` goes through it in an order that the program does
-- not choose: `iteration` is that order, at each map. The functions here are a client's calls without
-- interruption; `Concurrent` has the passes of several clients, step by step.
pub mod Loading
pub mod Serving
pub mod Listing
pub mod Signing
pub mod Concurrent
pub mod Backed
use tapwarden.Base.{
  ℕ, ◌≡◌, Bool, true, false, not, Option, none, some, List, [], ◌∷◌, ◌++◌, Text, Bytes, text,
  text_eq, Result, ok, err, Error, render, to_option, filter, nat_eq, option_is_some, if◌then◌else◌,
}
use tapwarden.Base.Map.{get, insert, remove}
use tapwarden.Base.Action.{Action}
use tapwarden.Authorizer.{AuthContext, sign, Authorizer, requester_name}
use tapwarden.Secret.Bws.Decode.{SecretData}
use tapwarden.Agent.Key.{Ssh, LoadedKey, decode_key}

abbrev pub Keys : Type 0 → Type 0
Keys PrivateKey = List (ℕ × Option (LoadedKey PrivateKey))

pub record ServiceState (PrivateKey W : Type 0) : Type 0 where
  -- `none` marks a secret that was fetched and is not a usable key
  pub keys : Keys PrivateKey
  pub last_errors : List (ℕ × Text)
  pub world : W

-- What the service is built from.
pub record KeyService (PrivateKey W : Type 0) : Type 0 where
  pub secret_ids : List ℕ
  pub fetch : ℕ → Action W SecretData
  pub authorizer : Authorizer W
  pub log : Text → W → W
  pub show_id : ℕ → Text
  pub iteration : Keys PrivateKey → Keys PrivateKey

pub record Identity : Type 0 where
  pub credential : Bytes
  pub comment : Text

pub record SignRequest : Type 0 where
  pub credential : Bytes
  pub payload : Bytes

-- `Result<Signature, AgentError>`: `failure` is SSH_AGENT_FAILURE.
pub data Signed : Type 0 where
  signature : Bytes → Signed
  failure : Signed
  other : Error → Signed

module _ {PrivateKey W : Type 0} (ssh : Ssh PrivateKey) (service : KeyService PrivateKey W) where
  abbrev State : Type 0
  State = ServiceState PrivateKey W

  -- `Some(message) if last_errors.get(&id) != Some(&message)`
  unfoldable pub is_repeated : Option Text → Text → Bool
  is_repeated none m = false
  is_repeated (some old) m = text_eq old m

  -- A failure is logged if it is not the last one logged for the id; a success forgets it.
  unfoldable pub note : ℕ → Option Text → State → State
  unfolding is_repeated insert remove get
  note id (some m) s = if is_repeated (get id s.last_errors) m then s else record s {
    last_errors = insert id m s.last_errors;
    world =
        service.log (text "tapwarden: skipping secret " ++ service.show_id id ++ text ": " ++ m)
          s.world;
  }
  note id none s = record s { last_errors = remove id s.last_errors }

  unfoldable pub failure_of : {A : Type 0} → Result A → Option Text
  unfolding render
  failure_of (ok a) = none
  failure_of (err e) = some (render e)

  -- One turn of the loop over the missing ids, from the fetched secret on.
  unfoldable pub keep : ℕ → Result SecretData × W → State → State
  unfolding note failure_of decode_key insert
  keep id (ok secret, w) s =
      let decoded = decode_key ssh secret in
      note id (failure_of decoded)
        (record s { keys = insert id (to_option decoded) s.keys; world = w })
  keep id (err e, w) s = note id (some (render e)) (record s { world = w })

  unfoldable pub load : List ℕ → State → State
  unfolding keep
  load [] s = s
  load (id ∷ ids) s = load ids (keep id (service.fetch id s.world) s)

  unfoldable pub missing : State → List ℕ
  unfolding get
  missing s = filter (λ id. not (option_is_some (get id s.keys))) service.secret_ids

  unfoldable pub loaded_keys : State → State
  unfolding load missing
  loaded_keys s = load (missing s) s

  -- `keys.values().flatten().find(...)`
  unfoldable pub find : Bytes → Keys PrivateKey → Option (LoadedKey PrivateKey)
  find wanted [] = none
  find wanted ((id, none) ∷ rest) = find wanted rest
  find wanted ((id, some k) ∷ rest) =
      let later = find wanted rest in if text_eq (ssh.key_data k.key) wanted then some k else later

  -- The cache first; only a miss loads.
  unfoldable pub or_load :
      Bytes → Option (LoadedKey PrivateKey) → State → Option (LoadedKey PrivateKey) × State
  unfolding loaded_keys find
  or_load wanted (some k) s = (some k, s)
  or_load wanted none s = let s' = loaded_keys s in (find wanted (service.iteration s'.keys), s')

  unfoldable pub key_for : Bytes → State → Option (LoadedKey PrivateKey) × State
  unfolding or_load
  key_for wanted s = or_load wanted (find wanted (service.iteration s.keys)) s

  abbrev listed : Option (Option (LoadedKey PrivateKey)) → List Identity
  listed (some (some k)) = record { credential = ssh.key_data k.key; comment = k.comment } ∷ []
  listed (some none) = []
  listed none = []

  -- In the order of the configuration.
  unfoldable pub list_keys : List ℕ → Keys PrivateKey → List Identity
  unfolding get
  list_keys [] keys = []
  list_keys (id ∷ ids) keys = listed (get id keys) ++ list_keys ids keys

  unfoldable pub identities : State → List Identity × State
  unfolding loaded_keys list_keys
  identities s = let s' = loaded_keys s in (list_keys service.secret_ids s'.keys, s')

  unfoldable pub outcome : Result Bool → Text
  outcome (ok true) = text "approved"
  outcome (ok false) = text "denied"
  outcome (err e) = text "failed"

  unfoldable pub signed_as : Result Bytes → Signed
  signed_as (ok sig) = signature sig
  signed_as (err e) = other e

  -- After the verdict: the audit line is written in every case.
  unfoldable pub conclude : LoadedKey PrivateKey → Bytes → Result Bool → Signed
  unfolding signed_as
  conclude k payload (ok true) = signed_as (ssh.try_sign k.key payload)
  conclude k payload (ok false) = failure
  conclude k payload (err e) = other e

  unfoldable pub audit_line : LoadedKey PrivateKey → Option Text → Result Bool → Text
  unfolding outcome requester_name
  audit_line k requester verdict =
      text "tapwarden: signature with key \""
      ++ k.comment
      ++ text "\" for "
      ++ requester_name requester
      ++ text ": "
      ++ outcome verdict

  unfoldable pub authorize :
      SignRequest → Option Text → Option (LoadedKey PrivateKey) × State → Signed × State
  unfolding conclude audit_line
  authorize request requester (none, s) = (failure, s)
  authorize request requester (some k, s) =
      let (verdict, w) =
        service.authorizer.approve (sign k.comment k.fingerprint requester) s.world in
      (
        conclude k request.payload verdict,
        record s { world = service.log (audit_line k requester verdict) w },
      )

  unfoldable pub sign_request : SignRequest → Option Text → State → Signed × State
  unfolding key_for authorize
  sign_request request requester s = authorize request requester (key_for request.credential s)
