-- ===== src/Agent/Service/Signing.antt =====
-- The gate in front of every signature.
use tapwarden.Base.{
  ◌≡◌, inl, inr, refl, ◌∙◌, Bool, true, false, Option, none, some, Text, Bytes, Result, ok, err,
  Error, Result-cases,
}
use tapwarden.Authorizer.{sign}
use tapwarden.Agent.Key.{Ssh, LoadedKey, IsServable}
use tapwarden.Agent.Service.{
  ServiceState, KeyService, SignRequest, Signed, signature, failure, other, loaded_keys, find,
  or_load, key_for, conclude, signed_as, audit_line, authorize, sign_request,
}
use tapwarden.Agent.Service.Serving.{AllServable, Iterates, find-In, loaded_keys-AllServable}

module _ {PrivateKey W : Type 0} (ssh : Ssh PrivateKey) (service : KeyService PrivateKey W) where
  abbrev State : Type 0
  State = ServiceState PrivateKey W

  or_load-IsServable :
      (wanted : Bytes) (o : Option (LoadedKey PrivateKey)) (s : State) (k : LoadedKey PrivateKey)
      → Iterates ssh service
      → AllServable ssh service s.keys
      → find ssh service wanted (service.iteration s.keys) ≡ o
      → (or_load ssh service wanted o s).0 ≡ some k
      → (ssh.key_data k.key ≡ wanted) × IsServable ssh k
  unfolding or_load
  or_load-IsServable wanted (some c) s k it h e f =
      let (same, (id, m)) = find-In ssh service wanted (service.iteration s.keys) k (e ∙ f) in
      (same, h id k (it s.keys (id, some k) m))
  or_load-IsServable wanted none s k it h e f =
      let s' = loaded_keys ssh service s in
      let (same, (id, m)) = find-In ssh service wanted (service.iteration s'.keys) k f in
      (same, loaded_keys-AllServable ssh service s h id k (it s'.keys (id, some k) m))

  -- The key that a request is served with has the requested public half and is an unencrypted Ed25519
  -- key under its own fingerprint, if all keys of the cache were that before and if an iteration of
  -- the map shows only its entries.
  pub key_for-IsServable :
      (wanted : Bytes) (s : State) (k : LoadedKey PrivateKey)
      → Iterates ssh service
      → AllServable ssh service s.keys
      → (key_for ssh service wanted s).0 ≡ some k
      → (ssh.key_data k.key ≡ wanted) × IsServable ssh k
  unfolding key_for
  key_for-IsServable wanted s k it h f =
      or_load-IsServable wanted (find ssh service wanted (service.iteration s.keys)) s k it h refl f

  -- The question that the gate is asked about a key, and its answer, in the state after the lookup.
  abbrev pub verdict : SignRequest → Option Text → LoadedKey PrivateKey → State → Result Bool × W
  verdict request requester k s =
      service.authorizer.approve (sign k.comment k.fingerprint requester) s.world

  -- What a request for the key `k` amounts to, from the state after the lookup: one question, one
  -- line in the log, and the answer.
  pub record Gated (request : SignRequest) (requester : Option Text) (k : LoadedKey PrivateKey)
      (s : State) (r : Signed) (t : State) : Type 0 where
    pub logged :
        t.world
        ≡ service.log
            (audit_line ssh service k requester (verdict request requester k s).0)
            (verdict request requester k s).1
    pub cache : t.keys ≡ s.keys
    pub signed :
        (sig : Bytes)
        → r ≡ signature sig
        → ((verdict request requester k s).0 ≡ ok true)
          × (ssh.try_sign k.key request.payload ≡ ok sig)
    pub approved :
        (verdict request requester k s).0 ≡ ok true
        → (sig : Bytes) → ssh.try_sign k.key request.payload ≡ ok sig
        → r ≡ signature sig
    pub denied : (verdict request requester k s).0 ≡ ok false → r ≡ failure
    pub failed : (e : Error) → (verdict request requester k s).0 ≡ err e → r ≡ other e

  conclude-signed :
      (k : LoadedKey PrivateKey) (payload : Bytes) (v : Result Bool) (sig : Bytes)
      → conclude ssh service k payload v ≡ signature sig
      → (v ≡ ok true) × (ssh.try_sign k.key payload ≡ ok sig)
  unfolding conclude signed_as
  conclude-signed k payload (ok true) sig h = elim (Result-cases (ssh.try_sign k.key payload)) [
    | inl (x, e) ↦ (refl, e ∙ cc (rw e at h))
    | inr (x, e) ↦ absurd (cc (rw e at h))
  ]
  conclude-signed k payload (ok false) sig h = cc
  conclude-signed k payload (err e) sig h = cc

  authorize-Gated :
      (request : SignRequest) (requester : Option Text) (k : LoadedKey PrivateKey)
      (o : Option (LoadedKey PrivateKey)) (s : State)
      → o ≡ some k
      → Gated request requester k s
          (authorize ssh service request requester (o, s)).0
          (authorize ssh service request requester (o, s)).1
  unfolding authorize conclude signed_as
  authorize-Gated request requester k o s h = rw h record {
    logged = refl;
    cache = refl;
    signed = λ sig e. conclude-signed k request.payload (verdict request requester k s).0 sig e;
    approved = λ e sig f. rw (e, f) refl;
    denied = λ e. rw e refl;
    failed = λ x e. rw e refl;
  }

  -- A request for a key that the service holds: after the lookup the gate is asked about that key
  -- and for that requester, and then the audit line with its answer is written, whatever that is;
  -- nothing else is called. A signature is returned only if the gate said yes and the key made it;
  -- with a yes and a key that signs it is returned; a no is the agent's failure, and an error of the
  -- gate is passed on. The cache is as the lookup left it.
  pub sign_request-Gated :
      (request : SignRequest) (requester : Option Text) (k : LoadedKey PrivateKey) (s : State)
      → (key_for ssh service request.credential s).0 ≡ some k
      → let (r, t) = sign_request ssh service request requester s in
        Gated request requester k (key_for ssh service request.credential s).1 r t
  sign_request-Gated request requester k s h =
      unfold sign_request in
      authorize-Gated request requester k (key_for ssh service request.credential s).0
        (key_for ssh service request.credential s).1 h

  authorize_unknown :
      (request : SignRequest) (requester : Option Text) (o : Option (LoadedKey PrivateKey))
      (s : State)
      → o ≡ none
      → authorize ssh service request requester (o, s) ≡ (failure, s)
  unfolding authorize
  authorize_unknown request requester o s h = rw h refl

  -- Without a key for the request the answer is the agent's failure, and nothing is called after the
  -- lookup: there is no prompt and no line in the log.
  pub sign_request_unknown :
      (request : SignRequest) (requester : Option Text) (s : State)
      → (key_for ssh service request.credential s).0 ≡ none
      → sign_request ssh service request requester s
        ≡ (failure, (key_for ssh service request.credential s).1)
  sign_request_unknown request requester s h =
      unfold sign_request in
      authorize_unknown request requester (key_for ssh service request.credential s).0
        (key_for ssh service request.credential s).1 h
