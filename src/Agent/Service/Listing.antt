-- ===== src/Agent/Service/Listing.antt =====
-- What a listing of identities shows, and what it cannot leave out.
use tapwarden.Base.{
  ℕ, ◌≡◌, ◌⊎◌, inl, inr, refl, sym, ap, ◌∙◌, subst, Option, none, some, List, [], ◌∷◌, ◌++◌, In,
  Result, ok, nat_eq, ◌==◌, ==_iff, Bool-cases,
}
use tapwarden.Base.Map.{get, insert, get-In, get-insert_self}
use tapwarden.Secret.Bws.Decode.{SecretData}
use tapwarden.Agent.Key.{Ssh, LoadedKey, decode_key, IsServable}
use tapwarden.Agent.Service.{
  Keys, ServiceState, KeyService, Identity, keep, load, missing, loaded_keys, listed, list_keys,
  identities,
}
use tapwarden.Agent.Service.Loading.{kept, keep_keys, kept_others, missing-In}
use tapwarden.Agent.Service.Serving.{AllServable, loaded_keys-AllServable}

module _ {PrivateKey W : Type 0} (ssh : Ssh PrivateKey) (service : KeyService PrivateKey W) where
  abbrev State : Type 0
  State = ServiceState PrivateKey W

  -- The identity is the public half and the comment of a key in the cache, of a configured id.
  pub record Shows (ids : List ℕ) (keys : Keys PrivateKey) (x : Identity) : Type 0 where
    pub id : ℕ
    pub key : LoadedKey PrivateKey
    pub configured : In id ids
    pub held : get id keys ≡ some (some key)
    pub public_half : x ≡ record { credential = ssh.key_data key.key; comment = key.comment }

  abbrev further :
      {id : ℕ} {ids : List ℕ} {keys : Keys PrivateKey} {x : Identity}
      → Shows ids keys x
      → Shows (id ∷ ids) keys x
  further r = record {
    id = r.id;
    key = r.key;
    configured = inr r.configured;
    held = r.held;
    public_half = r.public_half;
  }

  list_keys-Shows :
      (ids : List ℕ) (keys : Keys PrivateKey) (x : Identity)
      → In x (list_keys ssh service ids keys)
      → Shows ids keys x
  unfolding list_keys
  list_keys-Shows [] keys x h = absurd h
  list_keys-Shows (id ∷ ids) keys x h = go (list_keys-Shows ids keys x) (get id keys) refl h
    where
      go :
          (In x (list_keys ssh service ids keys) → Shows ids keys x)
          → (o : Option (Option (LoadedKey PrivateKey))) → get id keys ≡ o
          → In x (listed ssh service o ++ list_keys ssh service ids keys)
          → Shows (id ∷ ids) keys x
      go rest none e m = further (rest m)
      go rest (some none) e m = further (rest m)
      go rest (some (some k)) e (inl f) = record {
        id = id;
        key = k;
        configured = inl refl;
        held = e;
        public_half = f;
      }
      go rest (some (some k)) e (inr m) = further (rest m)

  -- A listing shows only configured keys that are loaded, and each of them is an unencrypted Ed25519
  -- key, if that held of the cache before the call.
  pub identities-Shows :
      (s : State) (x : Identity)
      → AllServable ssh service s.keys
      → In x (identities ssh service s).0
      → (shown : Shows service.secret_ids (identities ssh service s).1.keys x) × IsServable ssh
          shown.key
  unfolding identities
  identities-Shows s x h m =
      let shown = list_keys-Shows service.secret_ids (loaded_keys ssh service s).keys x m in
      (
        shown,
        loaded_keys-AllServable ssh service s h shown.id shown.key
            (get-In shown.id (some shown.key) (loaded_keys ssh service s).keys shown.held),
      )

  kept_decoded :
      (id j : ℕ) (r : Result SecretData) (keys : Keys PrivateKey) (secret : SecretData)
      (k : LoadedKey PrivateKey)
      → decode_key ssh secret ≡ ok k
      → (id ≡ j → r ≡ ok secret)
      → (get j keys ≡ some (some k)) ⊎ (id ≡ j)
      → get j (kept ssh service id r keys) ≡ some (some k)
  kept_decoded id j r keys secret k decoded fetched h = elim (Bool-cases (id == j)) [
    | inl same ↦
        let e = (==_iff id j).0 same in
        rw (fetched e, decoded)
          (subst (λ x. get j (insert x (some k) keys) ≡ some (some k)) (sym e)
            (get-insert_self j (some k) keys))
    | inr differs ↦
        kept_others ssh service id j r keys differs
        ∙ elim h [ inl held ↦ held | inr e ↦ absurd (cc (differs, (==_iff id j).1 e)) ]
  ]

  load_decoded :
      (ids : List ℕ) (j : ℕ) (s : State) (secret : SecretData) (k : LoadedKey PrivateKey)
      → decode_key ssh secret ≡ ok k
      → ((w : W) → (service.fetch j w).0 ≡ ok secret)
      → (get j s.keys ≡ some (some k)) ⊎ In j ids
      → get j (load ssh service ids s).keys ≡ some (some k)
  unfolding load
  load_decoded [] j s secret k d f (inl held) = held
  load_decoded [] j s secret k d f (inr m) = absurd m
  load_decoded (id ∷ ids) j s secret k d f h =
      load_decoded ids j (keep ssh service id (service.fetch id s.world) s) secret k d f (later h)
    where
      here :
          (get j s.keys ≡ some (some k)) ⊎ (id ≡ j)
          → get j (keep ssh service id (service.fetch id s.world) s).keys ≡ some (some k)
      here c =
          ap (get j) (keep_keys ssh service id (service.fetch id s.world) s)
          ∙ kept_decoded id j (service.fetch id s.world).0 s.keys secret k d
              (λ e. subst (λ x. (service.fetch x s.world).0 ≡ ok secret) (sym e) (f s.world)) c

      later :
          (get j s.keys ≡ some (some k)) ⊎ In j (id ∷ ids)
          → (get j (keep ssh service id (service.fetch id s.world) s).keys ≡ some (some k))
            ⊎ In j ids
      later (inl held) = inl (here (inl held))
      later (inr (inl e)) = inl (here (inr (sym e)))
      later (inr (inr m)) = inr m

  In-list_keys :
      (ids : List ℕ) (id : ℕ) (keys : Keys PrivateKey) (k : LoadedKey PrivateKey)
      → In id ids
      → get id keys ≡ some (some k)
      → In
          (record { credential = ssh.key_data k.key; comment = k.comment })
          (list_keys ssh service ids keys)
  unfolding list_keys
  In-list_keys [] id keys k m h = absurd m
  In-list_keys (j ∷ ids) id keys k (inl e) h =
      rw (subst (λ x. get x keys ≡ some (some k)) e h) (inl refl)
  In-list_keys (j ∷ ids) id keys k (inr m) h =
      after _ _ (get j keys) (In-list_keys ids id keys k m h)
    where
      after :
          (x : Identity) (l : List Identity) (o : Option (Option (LoadedKey PrivateKey)))
          → In x l
          → In x (listed ssh service o ++ l)
      after x l none a = a
      after x l (some none) a = a
      after x l (some (some c)) a = inr a

  -- A configured secret that the backend keeps serving, and that is a usable key, is listed by the
  -- first listing that does not find it in the cache, with its public half and its comment.
  pub identities_complete :
      (s : State) (id : ℕ) (secret : SecretData) (k : LoadedKey PrivateKey)
      → In id service.secret_ids
      → get id s.keys ≡ none
      → ((w : W) → (service.fetch id w).0 ≡ ok secret)
      → decode_key ssh secret ≡ ok k
      → In
          (record { credential = ssh.key_data k.key; comment = k.comment })
          (identities ssh service s).0
  unfolding identities
  identities_complete s id secret k m absent serves decoded =
      In-list_keys service.secret_ids id (loaded_keys ssh service s).keys k m (
        unfold loaded_keys in
        load_decoded (missing ssh service s) id s secret k decoded serves
          (inr (missing-In ssh service id service.secret_ids s.keys m absent)))
