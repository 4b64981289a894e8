-- ===== src/Agent/Service/Concurrent.antt =====
-- src/agent.rs: `loaded_keys` under its two locks, for any number of clients at once. A pass holds the
-- `loading` lock from its look at the cache to its end, and it waits for the lock of the map before
-- that look and before each insertion. A step of this model is what happens between two `await`s, and
-- at each of them the pass may be dropped.
use tapwarden.Base.{
  ℕ, ◌≡◌, inl, inr, sym, ◌∙◌, subst, Bool, not, none, List, [], ◌∷◌, Result, ok, err, Error,
  to_option, filter, nat_eq, option_is_some, arith, ◌==◌, Bool-cases, Option-cases, All,
}
use tapwarden.Base.Map.{get, insert, get-insert}
use tapwarden.Secret.Bws.Decode.{SecretData}
use tapwarden.Agent.Key.{Ssh, decode_key}
use tapwarden.Agent.Service.{Keys, ServiceState, KeyService, keep, load, missing, loaded_keys}
use tapwarden.Agent.Service.Loading.{kept, keep_keys, Avoids}

-- The `loading` lock, and where the client's pass that holds it stands: at the lock of the map, before
-- it looks at the cache; in the loop, with the ids that are left; at the fetch of an id; or, with the
-- secret, at the lock of the map.
pub data Loading : Type 0 where
  free : Loading
  entered : ℕ → Loading
  held : ℕ → List ℕ → Loading
  fetching : ℕ → ℕ → List ℕ → Loading
  storing : ℕ → ℕ → SecretData → List ℕ → Loading

abbrev pub Distinct : List ℕ → Type 0
Distinct [] = Unit
Distinct (id ∷ ids) = Avoids id ids × Distinct ids

module _ {PrivateKey W : Type 0} (ssh : Ssh PrivateKey) (service : KeyService PrivateKey W) where
  abbrev State : Type 0
  State = ServiceState PrivateKey W

  -- The states that a service comes to, with the ids whose secrets have been stored so far, the latest
  -- first. Between any two steps the world may change in any way: other clients sign, look keys up and
  -- write to the log, and time passes. The answer of a fetch is any.
  pub data Reach : Loading → State → List ℕ → Type 0 where
    start : (w : W) → Reach free (record { keys = []; last_errors = []; world = w }) []
    elapse :
        {l : Loading} {s : State} {h : List ℕ} (w : W)
        → Reach l s h
        → Reach l (record s { world = w }) h
    enter : {s : State} {h : List ℕ} (client : ℕ) → Reach free s h → Reach (entered client) s h
    look :
        {s : State} {h : List ℕ} (client : ℕ)
        → Reach (entered client) s h
        → Reach (held client (missing ssh service s)) s h
    ask :
        {s : State} {h : List ℕ} (client id : ℕ) (ids : List ℕ)
        → Reach (held client (id ∷ ids)) s h
        → Reach (fetching client id ids) s h
    answer :
        {s : State} {h : List ℕ} (client id : ℕ) (ids : List ℕ) (secret : SecretData)
        → Reach (fetching client id ids) s h
        → Reach (storing client id secret ids) s h
    fail :
        {s : State} {h : List ℕ} (client id : ℕ) (ids : List ℕ) (e : Error)
        → Reach (fetching client id ids) s h
        → Reach (held client ids) (keep ssh service id (err e, s.world) s) h
    store :
        {s : State} {h : List ℕ} (client id : ℕ) (ids : List ℕ) (secret : SecretData)
        → Reach (storing client id secret ids) s h
        → Reach (held client ids) (keep ssh service id (ok secret, s.world) s) (id ∷ h)
    release : {s : State} {h : List ℕ} (client : ℕ) → Reach (held client []) s h → Reach free s h
    -- the pass is dropped where it waits, and with it its lock and a secret that it has not stored
    abandon : {l : Loading} {s : State} {h : List ℕ} → Reach l s h → Reach free s h

  -- The ids are not in the cache, and no id stands twice.
  abbrev Fresh : Keys PrivateKey → List ℕ → Type 0
  Fresh keys ids = All (λ id. get id keys ≡ none) ids × Distinct ids

  abbrev Waits : Loading → Keys PrivateKey → Type 0
  Waits free keys = Unit
  Waits (entered client) keys = Unit
  Waits (held client ids) keys = Fresh keys ids
  Waits (fetching client id ids) keys = Fresh keys (id ∷ ids)
  Waits (storing client id secret ids) keys = Fresh keys (id ∷ ids)

  -- Whatever is not in the cache has not been stored, and nothing was stored twice.
  abbrev Once : Keys PrivateKey → List ℕ → Type 0
  Once keys h = ((j : ℕ) → get j keys ≡ none → Avoids j h) × Distinct h

  uncached-Avoids : (p : ℕ → Bool) (j : ℕ) (ids : List ℕ) → Avoids j ids → Avoids j (filter p ids)
  uncached-Avoids p j [] a = tt
  uncached-Avoids p j (id ∷ ids) (ne, a) = elim (Bool-cases (p id)) [
    | inl keeps ↦ rw keeps (ne, uncached-Avoids p j ids a)
    | inr drops ↦ rw drops (uncached-Avoids p j ids a)
  ]

  missing-Fresh :
      (keys : Keys PrivateKey) (ids : List ℕ)
      → Distinct ids
      → Fresh keys (filter (λ id. not (option_is_some (get id keys))) ids)
  missing-Fresh keys [] d = (tt, tt)
  missing-Fresh keys (id ∷ ids) (a, d) =
      let (absent, distinct) = missing-Fresh keys ids d in
      elim (Option-cases (get id keys)) [
        | inr (k, cached) ↦ rw cached (absent, distinct)
        | inl none_yet ↦ rw none_yet ((none_yet, absent), (uncached-Avoids _ id ids a, distinct))
      ]

  inserted-All :
      (id : ℕ) (r : Result SecretData) (keys : Keys PrivateKey) (ids : List ℕ)
      → Avoids id ids
      → All (λ i. get i keys ≡ none) ids
      → All (λ i. get i (kept ssh service id r keys) ≡ none) ids
  inserted-All id r keys [] a f = tt
  inserted-All id (err e) keys (i ∷ ids) a f = f
  inserted-All id (ok secret) keys (i ∷ ids) (ne, a) (absent, f) = (
    get-insert id i (to_option (decode_key ssh secret)) keys ∙ ground arith,
    inserted-All id (ok secret) keys ids a f,
  )

  stored-Once :
      (id : ℕ) (secret : SecretData) (keys : Keys PrivateKey) (h : List ℕ)
      → get id keys ≡ none
      → Once keys h
      → Once (kept ssh service id (ok secret) keys) (id ∷ h)
  stored-Once id secret keys h absent (uncached, distinct) = (new, (uncached id absent, distinct))
    where
      new :
          (j : ℕ)
          → get j (insert id (to_option (decode_key ssh secret)) keys) ≡ none
          → Avoids j (id ∷ h)
      new j e = elim (Bool-cases (id == j)) [
        | inl same ↦
            absurd (cc (rw (get-insert id j (to_option (decode_key ssh secret)) keys, same) at e))
        | inr other ↦ (
          other,
          uncached j (rw (get-insert id j (to_option (decode_key ssh secret)) keys, other) at e),
        )
      ]

  Reach-Once :
      Distinct service.secret_ids
      → {l : Loading} {s : State} {h : List ℕ} → Reach l s h
      → Once s.keys h × Waits l s.keys
  unfolding missing
  Reach-Once d (start w) = ((λ j e. tt, tt), tt)
  Reach-Once d (elapse w r) = Reach-Once d r
  Reach-Once d (enter client r) = ((Reach-Once d r).0, tt)
  Reach-Once d (look {s} client r) = ((Reach-Once d r).0, missing-Fresh s.keys service.secret_ids d)
  Reach-Once d (ask client id ids r) = Reach-Once d r
  Reach-Once d (answer client id ids secret r) = Reach-Once d r
  Reach-Once d (fail {s} {h} client id ids e r) =
      let (once, ((absent, rest), (a, distinct))) = Reach-Once d r in
      subst (λ keys. Once keys h × Fresh keys ids)
        (sym (keep_keys ssh service id (err e, s.world) s)) (once, (rest, distinct))
  Reach-Once d (store {s} {h} client id ids secret r) =
      let (once, ((absent, rest), (a, distinct))) = Reach-Once d r in
      subst (λ keys. Once keys (id ∷ h) × Fresh keys ids)
        (sym (keep_keys ssh service id (ok secret, s.world) s))
        (
          stored-Once id secret s.keys h absent once,
          (inserted-All id (ok secret) s.keys ids a rest, distinct),
        )
  Reach-Once d (release client r) = ((Reach-Once d r).0, tt)
  Reach-Once d (abandon r) = ((Reach-Once d r).0, tt)

  -- The id whose fetch is under way, or whose secret is about to be stored, is not in the list.
  abbrev pub IsNew : Loading → List ℕ → Type 0
  IsNew free h = Unit
  IsNew (entered client) h = Unit
  IsNew (held client ids) h = Unit
  IsNew (fetching client id ids) h = Avoids id h
  IsNew (storing client id secret ids) h = Avoids id h

  Waits-IsNew :
      (l : Loading) (keys : Keys PrivateKey) (h : List ℕ) → Once keys h → Waits l keys → IsNew l h
  Waits-IsNew free keys h once f = tt
  Waits-IsNew (entered client) keys h once f = tt
  Waits-IsNew (held client ids) keys h once f = tt
  Waits-IsNew (fetching client id ids) keys h once f = once.0 id f.0.0
  Waits-IsNew (storing client id secret ids) keys h once f = once.0 id f.0.0

  -- If no id stands twice in the configuration, then however many clients list and sign at the same
  -- time, however their passes meet and wherever they are dropped: a secret that is being fetched, or
  -- waits to be stored, has not been stored before, so that a stored secret is never fetched again; and
  -- no secret is stored twice.
  pub fetches-Distinct :
      Distinct service.secret_ids
      → (l : Loading) (s : State) (h : List ℕ) → Reach l s h
      → IsNew l h × Distinct h
  fetches-Distinct d l s h r =
      let (once, waits) = Reach-Once d r in (Waits-IsNew l s.keys h once waits, once.1)

  -- A fetch that is answered without a break, and the turn of the loop that follows.
  answered :
      (client id : ℕ) (ids : List ℕ) (p : Result SecretData × W) (s : State) (h : List ℕ)
      → Reach (fetching client id ids) s h
      → (h' : List ℕ) × Reach (held client ids) (keep ssh service id p s) h'
  unfolding keep
  answered client id ids (ok secret, w) s h r =
      (id ∷ h, store client id ids secret (answer client id ids secret (elapse w r)))
  answered client id ids (err e, w) s h r = (h, fail client id ids e (elapse w r))

  -- A call of `loaded_keys` without any interruption is such a sequence of steps.
  pub load-Reach :
      (client : ℕ) (ids : List ℕ) (s : State) (h : List ℕ)
      → Reach (held client ids) s h
      → (h' : List ℕ) × Reach (held client []) (load ssh service ids s) h'
  unfolding load
  load-Reach client [] s h r = (h, r)
  load-Reach client (id ∷ ids) s h r =
      let (h', r') = answered client id ids (service.fetch id s.world) s h (ask client id ids r) in
      load-Reach client ids (keep ssh service id (service.fetch id s.world) s) h' r'

  pub loaded_keys-Reach :
      (client : ℕ) (s : State) (h : List ℕ)
      → Reach free s h
      → (h' : List ℕ) × Reach free (loaded_keys ssh service s) h'
  unfolding loaded_keys
  loaded_keys-Reach client s h r =
      let (h', r') = load-Reach client (missing ssh service s) s h (look client (enter client r)) in
      (h', release client r')
