-- ===== src/Agent/Service/Loading.antt =====
-- What a loading pass does to the cache of keys.
use tapwarden.Base.{
  ℕ, ◌≡◌, ◌≢◌, inl, inr, refl, sym, ap, ◌∙◌, subst, true, false, not, Option, none, some, List, [],
  ◌∷◌, In, Text, Result, ok, err, render, to_option, filter, is_ok, nat_eq, ==_iff, option_is_some,
  arith, ◌==◌, Bool-cases, Option-cases,
}
use tapwarden.Base.Map.{get, insert, get-insert, get-insert_self}
use tapwarden.Secret.Bws.Decode.{SecretData}
use tapwarden.Agent.Key.{Ssh, decode_key}
use tapwarden.Agent.Service.{Keys, ServiceState, KeyService, note, keep, load, missing, loaded_keys}

-- The ids of the list are all different from `j`.
abbrev pub Avoids : ℕ → List ℕ → Type 0
Avoids j [] = Unit
Avoids j (id ∷ ids) = ((id == j) ≡ false) × Avoids j ids

module _ {PrivateKey W : Type 0} (ssh : Ssh PrivateKey) (service : KeyService PrivateKey W) where
  abbrev State : Type 0
  State = ServiceState PrivateKey W

  note_keys : (id : ℕ) (m : Option Text) (s : State) → (note ssh service id m s).keys ≡ s.keys
  unfolding note
  note_keys id none s = refl
  note_keys id (some m) s = ground arith

  -- What a turn of the loop leaves in the cache.
  abbrev pub kept : ℕ → Result SecretData → Keys PrivateKey → Keys PrivateKey
  kept id (ok secret) keys = insert id (to_option (decode_key ssh secret)) keys
  kept id (err e) keys = keys

  pub keep_keys :
      (id : ℕ) (p : Result SecretData × W) (s : State)
      → (keep ssh service id p s).keys ≡ kept id p.0 s.keys
  unfolding keep
  keep_keys id (ok secret, w) s = note_keys id _ _
  keep_keys id (err e, w) s = note_keys id (some (render e)) (record s { world = w })

  pub kept_others :
      (id j : ℕ) (r : Result SecretData) (keys : Keys PrivateKey)
      → (id == j) ≡ false
      → get j (kept id r keys) ≡ get j keys
  kept_others id j (ok secret) keys ne = get-insert id j _ keys ∙ rw ne
  kept_others id j (err e) keys ne = refl

  -- No turn takes a key out of the cache.
  kept_cached :
      (id j : ℕ) (r : Result SecretData) (keys : Keys PrivateKey)
      → get j keys ≢ none
      → get j (kept id r keys) ≢ none
  kept_cached id j (ok secret) keys h = elim (Bool-cases (id == j)) [
    | inl same ↦ λ e. cc (sym (get-insert id j (to_option (decode_key ssh secret)) keys) ∙ e, same)
    | inr other ↦ λ e. h (sym (kept_others id j (ok secret) keys other) ∙ e)
  ]
  kept_cached id j (err e) keys h = h

  pub load_others :
      (ids : List ℕ) (j : ℕ) (s : State)
      → Avoids j ids
      → get j (load ssh service ids s).keys ≡ get j s.keys
  unfolding load
  load_others [] j s h = refl
  load_others (id ∷ ids) j s (ne, h) =
      load_others ids j _ h ∙ ap (get j) (keep_keys id _ s) ∙ kept_others id j _ s.keys ne

  pub missing-Avoids :
      (j : ℕ) (ids : List ℕ) (keys : Keys PrivateKey)
      → get j keys ≢ none
      → Avoids j (filter (λ id. not (option_is_some (get id keys))) ids)
  missing-Avoids j [] keys h = tt
  missing-Avoids j (id ∷ ids) keys h = elim (Option-cases (get id keys)) [
    | inr (k, cached) ↦ rw cached (missing-Avoids j ids keys h)
    | inl absent ↦ rw absent (differs absent, missing-Avoids j ids keys h)
  ]
    where
      differs : get id keys ≡ none → (id == j) ≡ false
      differs absent = elim (Bool-cases (id == j)) [
        | inl same ↦ absurd (h (subst (λ x. get x keys ≡ none) ((==_iff id j).0 same) absent))
        | inr other ↦ other
      ]

  -- What is in the cache stays as it is: a loaded key is not fetched or replaced again, and a secret
  -- that is no usable key stays marked.
  pub loaded_keys_keeps :
      (s : State) (j : ℕ)
      → get j s.keys ≢ none
      → get j (loaded_keys ssh service s).keys ≡ get j s.keys
  unfolding loaded_keys
  loaded_keys_keeps s j h =
      load_others (missing ssh service s) j s (missing-Avoids j service.secret_ids s.keys h)

  load_cached :
      (ids : List ℕ) (j : ℕ) (s : State)
      → get j s.keys ≢ none
      → get j (load ssh service ids s).keys ≢ none
  unfolding load
  load_cached [] j s h = h
  load_cached (id ∷ ids) j s h =
      load_cached ids j _
        (λ e. kept_cached id j _ s.keys h (sym (ap (get j) (keep_keys id _ s)) ∙ e))

  kept_fetched :
      (id : ℕ) (r : Result SecretData) (keys : Keys PrivateKey)
      → is_ok r ≡ true
      → get id (kept id r keys) ≢ none
  kept_fetched id (ok secret) keys h =
      λ e. cc (sym (get-insert_self id (to_option (decode_key ssh secret)) keys) ∙ e)
  kept_fetched id (err x) keys h = cc

  load_fetched :
      (ids : List ℕ) (j : ℕ) (s : State)
      → In j ids
      → ((w : W) → is_ok (service.fetch j w).0 ≡ true)
      → get j (load ssh service ids s).keys ≢ none
  unfolding load
  load_fetched [] j s h f = absurd h
  load_fetched (id ∷ ids) j s (inr h) f = load_fetched ids j _ h f
  load_fetched (id ∷ ids) j s (inl e) f = load_cached ids j _ (λ g.
      kept_fetched j (service.fetch j s.world).0 s.keys (f s.world) (
        subst (λ x. get j (kept x (service.fetch x s.world).0 s.keys) ≡ none) (sym e)
          (sym (ap (get j) (keep_keys id (service.fetch id s.world) s)) ∙ g)))

  pub missing-In :
      (j : ℕ) (ids : List ℕ) (keys : Keys PrivateKey)
      → In j ids
      → get j keys ≡ none
      → In j (filter (λ id. not (option_is_some (get id keys))) ids)
  missing-In j [] keys h absent = h
  missing-In j (id ∷ ids) keys (inl e) absent = rw (subst (λ x. get x keys ≡ none) e absent) (inl e)
  missing-In j (id ∷ ids) keys (inr h) absent = elim (Option-cases (get id keys)) [
    | inl gone ↦ rw gone (inr (missing-In j ids keys h absent))
    | inr (k, cached) ↦ rw cached (missing-In j ids keys h absent)
  ]

  -- One failing secret does not keep out another: a configured id whose fetch always succeeds is in the
  -- cache after a pass, whatever the fetches of the other ids do.
  pub loaded_keys_complete :
      (s : State) (j : ℕ)
      → In j service.secret_ids
      → ((w : W) → is_ok (service.fetch j w).0 ≡ true)
      → get j (loaded_keys ssh service s).keys ≢ none
  unfolding loaded_keys
  loaded_keys_complete s j h f = elim (Option-cases (get j s.keys)) [
    | inl absent ↦
        load_fetched (missing ssh service s) j s (missing-In j service.secret_ids s.keys h absent) f
    | inr (k, cached) ↦ load_cached (missing ssh service s) j s (λ e. cc (cached, e))
  ]
