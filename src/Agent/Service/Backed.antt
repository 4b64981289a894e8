-- ===== src/Agent/Service/Backed.antt =====
-- src/agent.rs with src/authorizer.rs: the key service behind a `Grace` authorizer, the way
-- `build_authorizer` and `run_foreground` put them together for `mode: grace`.
use tapwarden.Base.{
  ℕ, ◌≡◌, ◌⊎◌, inl, inr, refl, sym, ap, ◌∙◌, subst, true, Option, none, some, List, [], ◌∷◌, ◌++◌,
  In, Text, text_key, Bytes, Result, ok, err, render, arith, Option-cases,
}
use tapwarden.Base.Action.{Action}
use tapwarden.Base.Time.{Clock}
use tapwarden.Secret.Bws.Decode.{SecretData}
use tapwarden.Authorizer.{sign, unlock_credentials}
use tapwarden.Authorizer.Grace.{Approval, GraceState, approve, grace}
use tapwarden.Authorizer.Grace.Laws.{CoversAt, before_prompt}
use tapwarden.Authorizer.Grace.History.{Grant, grants, Session, approve_backed}
use tapwarden.Agent.Key.{Ssh, LoadedKey}
use tapwarden.Agent.Service.{
  ServiceState, KeyService, SignRequest, signature, note, keep, load, loaded_keys, or_load, key_for,
  find, missing, identities, authorize, sign_request,
}
use tapwarden.Agent.Service.Signing.{sign_request-Gated, sign_request_unknown}

-- A call that leaves the remembered approvals alone.
abbrev pub outside : {W A : Type 0} → Action W A → Action (GraceState W) A
outside m s = let (r, w) = m s.world in (r, record { last = s.last; world = w })

module _ {PrivateKey W : Type 0} (ssh : Ssh PrivateKey) (clock : Clock W) (window : ℕ)
    (service : KeyService PrivateKey W) where
  -- The service with its authorizer put behind a window. Fetches and the log act on the rest of the
  -- world: the only thing that a fetch asks of the authorizer is an unlock.
  abbrev pub guarded : KeyService PrivateKey (GraceState W)
  guarded = record {
    secret_ids = service.secret_ids;
    fetch = λ id. outside (service.fetch id);
    authorizer = grace clock service.authorizer window;
    log = λ line s. record { last = s.last; world = service.log line s.world };
    show_id = service.show_id;
    iteration = service.iteration;
  }

  -- An unlock by the window's authorizer is a call that leaves the approvals alone.
  pub unlock_outside :
      (reason : Text) (s : GraceState W)
      → guarded.authorizer.approve (unlock_credentials reason) s
        ≡ outside (service.authorizer.approve (unlock_credentials reason)) s
  unfolding approve
  unlock_outside reason s = refl

  abbrev State : Type 0
  State = ServiceState PrivateKey (GraceState W)

  note-last :
      (id : ℕ) (m : Option Text) (s : State) → (note ssh guarded id m s).world.last ≡ s.world.last
  unfolding note
  note-last id none s = refl
  note-last id (some m) s = ground arith

  keep-last :
      (id : ℕ) (p : Result SecretData × GraceState W) (s : State)
      → (keep ssh guarded id p s).world.last ≡ p.1.last
  unfolding keep
  keep-last id (ok secret, w) s = note-last id _ _
  keep-last id (err e, w) s = note-last id (some (render e)) (record s { world = w })

  load-last : (ids : List ℕ) (s : State) → (load ssh guarded ids s).world.last ≡ s.world.last
  unfolding load
  load-last [] s = refl
  load-last (id ∷ ids) s = load-last ids _ ∙ keep-last id _ s

  or_load-last :
      (wanted : Bytes) (o : Option (LoadedKey PrivateKey)) (s : State)
      → (or_load ssh guarded wanted o s).1.world.last ≡ s.world.last
  unfolding or_load loaded_keys
  or_load-last wanted (some k) s = refl
  or_load-last wanted none s = load-last (missing ssh guarded s) s

  key_for-last :
      (wanted : Bytes) (s : State) → (key_for ssh guarded wanted s).1.world.last ≡ s.world.last
  unfolding key_for
  key_for-last wanted s = or_load-last wanted (find ssh guarded wanted (guarded.iteration s.keys)) s

  -- Listing the keys leaves the approvals alone.
  pub identities-last : (s : State) → (identities ssh guarded s).1.world.last ≡ s.world.last
  unfolding identities loaded_keys
  identities-last s = load-last (missing ssh guarded s) s

  -- What a request adds to the history: a grant if its key's window is closed and the user approves.
  abbrev pub asked : Option Text → Option (LoadedKey PrivateKey) × State → List Grant
  asked requester (none, s) = []
  asked requester (some k, s) =
      grants clock service.authorizer window (sign k.comment k.fingerprint requester) s.world

  -- The life of a service: it starts with no keys and no approvals; signing requests are served one
  -- by one; and between them all but the approvals may change, by listings, by passes of other clients
  -- and with time.
  pub data Life : State → List Grant → Type 0 where
    start :
        (w : W)
        → Life (record { keys = []; last_errors = []; world = record { last = []; world = w } }) []
    other :
        {s : State} {h : List Grant} (t : State) → Life s h → t.world.last ≡ s.world.last → Life t h
    request :
        {s : State} {h : List Grant} (r : SignRequest) (requester : Option Text)
        → Life s h
        → Life
            (sign_request ssh guarded r requester s).1
            (asked requester (key_for ssh guarded r.credential s) ++ h)

  moved :
      (s t : GraceState W) (h : List Grant)
      → t.last ≡ s.last
      → Session clock service.authorizer window s h
      → Session clock service.authorizer window t h
  moved s t h e past =
      subst (λ l. Session clock service.authorizer window (record { last = l; world = t.world }) h)
        (sym e) (Session.elapse t.world past)

  authorize-Session :
      (r : SignRequest) (requester : Option Text) (p : Option (LoadedKey PrivateKey) × State)
      (h : List Grant)
      → Session clock service.authorizer window p.1.world h
      → Session clock service.authorizer window
          (authorize ssh guarded r requester p).1.world
          (asked requester p ++ h)
  unfolding authorize
  authorize-Session r requester (none, s) h past = past
  authorize-Session r requester (some k, s) h past =
      moved
        (approve clock service.authorizer window (sign k.comment k.fingerprint requester) s.world).1
        _ _ refl (Session.request (sign k.comment k.fingerprint requester) past)

  Life-Session :
      {s : State} {h : List Grant} → Life s h → Session clock service.authorizer window s.world h
  unfolding sign_request
  Life-Session (start w) = Session.start w
  Life-Session (other {s} {h} t past e) = moved s.world t.world h e (Life-Session past)
  Life-Session (request {s} {h} r requester past) =
      authorize-Session r requester (key_for ssh guarded r.credential s) h
        (moved s.world _ h (key_for-last r.credential s) (Life-Session past))

  -- What stands behind a signature: a key of the service made it, and the user has approved that key,
  -- for this request or, by the history, less than the window ago.
  pub record Signature (h : List Grant) (r : SignRequest) (requester : Option Text) (s : State)
      (sig : Bytes) : Type 0 where
    pub key : LoadedKey PrivateKey
    pub found : (key_for ssh guarded r.credential s).0 ≡ some key
    pub made : ssh.try_sign key.key r.payload ≡ ok sig
    pub approved :
        let now = (key_for ssh guarded r.credential s).1.world in
        ((a : Approval) × In (key.fingerprint, a) h × CoversAt clock a window now.world)
        ⊎ ((service.authorizer.approve
              (sign key.comment key.fingerprint requester)
              (before_prompt clock service.authorizer window key.fingerprint now)).0
            ≡ ok true)

  -- At any moment in the life of a service in grace mode, a signature that it returns was made over
  -- the request's payload by the key that the request looks up, and that key was approved: the user
  -- said yes to this very request, or to an earlier one for the same key, less than the window ago on
  -- both clocks. No approval of another key, no denial and no unlock of credentials leads to one.
  pub signature_backed :
      (s : State) (h : List Grant) (r : SignRequest) (requester : Option Text) (sig : Bytes)
      → Life s h
      → (sign_request ssh guarded r requester s).0 ≡ signature sig
      → Signature h r requester s sig
  signature_backed s h r requester sig life e =
      elim (Option-cases (key_for ssh guarded r.credential s).0) [
        | inl unknown ↦
            absurd (cc (ap (λ p. p.0) (sign_request_unknown ssh guarded r requester s unknown), e))
        | inr (k, found) ↦
            let (said_yes, made) =
              (sign_request-Gated ssh guarded r requester k s found).signed sig e in
            record {
              key = k;
              found = found;
              made = made;
              approved =
                  approve_backed clock service.authorizer window
                    (moved s.world _ h (key_for-last r.credential s) (Life-Session life)) k.comment
                    k.fingerprint requester said_yes;
            }
      ]
