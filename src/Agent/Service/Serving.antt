-- ===== src/Agent/Service/Serving.antt =====
-- Which keys the service ever holds, lists and signs with.
use tapwarden.Base.{
  ℕ, ◌≡◌, inl, inr, sym, ap, ◌∙◌, subst, Option, none, some, List, [], ◌∷◌, In, Bytes, text_eq,
  text_eq_iff, Result, ok, err, to_option, nat_eq, Bool-cases, Result-cases,
}
use tapwarden.Base.Map.{In-insert}
use tapwarden.Secret.Bws.Decode.{SecretData}
use tapwarden.Agent.Key.{Ssh, LoadedKey, decode_key, decode_key_iff, IsServable}
use tapwarden.Agent.Service.{Keys, ServiceState, KeyService, load, missing, loaded_keys, find}
use tapwarden.Agent.Service.Loading.{kept, keep_keys}

module _ {PrivateKey W : Type 0} (ssh : Ssh PrivateKey) (service : KeyService PrivateKey W) where
  abbrev State : Type 0
  State = ServiceState PrivateKey W

  -- Every key in the cache is an unencrypted Ed25519 key under its own fingerprint.
  abbrev pub AllServable : Keys PrivateKey → Type 0
  AllServable keys = (id : ℕ) (k : LoadedKey PrivateKey) → In (id, some k) keys → IsServable ssh k

  decoded-IsServable :
      (secret : SecretData) (k : LoadedKey PrivateKey)
      → to_option (decode_key ssh secret) ≡ some k
      → IsServable ssh k
  decoded-IsServable secret k h = elim (Result-cases (decode_key ssh secret)) [
    | inl (j, e) ↦ ((decode_key_iff ssh secret k).0 (e ∙ cc (rw e at h))).2
    | inr (x, e) ↦ absurd (cc (rw e at h))
  ]

  kept-AllServable :
      (id : ℕ) (r : Result SecretData) (keys : Keys PrivateKey)
      → AllServable keys
      → AllServable (kept ssh service id r keys)
  kept-AllServable id (err e) keys h = h
  kept-AllServable id (ok secret) keys h = λ j k m.
      elim (In-insert (j, some k) id (to_option (decode_key ssh secret)) keys m) [
        | inl e ↦ decoded-IsServable secret k (cc)
        | inr old ↦ h j k old
      ]

  load-AllServable :
      (ids : List ℕ) (s : State) → AllServable s.keys → AllServable (load ssh service ids s).keys
  unfolding load
  load-AllServable [] s h = h
  load-AllServable (id ∷ ids) s h = load-AllServable ids _ (
      subst AllServable (sym (keep_keys ssh service id (service.fetch id s.world) s))
        (kept-AllServable id (service.fetch id s.world).0 s.keys h))

  pub loaded_keys-AllServable :
      (s : State) → AllServable s.keys → AllServable (loaded_keys ssh service s).keys
  unfolding loaded_keys
  loaded_keys-AllServable s h = load-AllServable (missing ssh service s) s h

  -- A map's iteration goes through its entries, in any order.
  abbrev pub Iterates : Type 0
  Iterates =
      (keys : Keys PrivateKey) (x : ℕ × Option (LoadedKey PrivateKey))
      → In x (service.iteration keys)
      → In x keys

  pub find-In :
      (wanted : Bytes) (keys : Keys PrivateKey) (k : LoadedKey PrivateKey)
      → find ssh service wanted keys ≡ some k
      → (ssh.key_data k.key ≡ wanted) × ((id : ℕ) × In (id, some k) keys)
  unfolding find
  find-In wanted [] k h = cc
  find-In wanted ((id, none) ∷ rest) k h =
      let (same, (j, m)) = find-In wanted rest k h in (same, (j, inr m))
  find-In wanted ((id, some c) ∷ rest) k h =
      elim (Bool-cases (text_eq (ssh.key_data c.key) wanted)) [
        | inl hit ↦
            let e : c ≡ k = cc (rw hit at h) in
            (
              subst (λ x. ssh.key_data x.key ≡ wanted) e ((text_eq_iff _ wanted).0 hit),
              (id, inl (ap (λ x. (id, some x)) (sym e))),
            )
        | inr no_hit ↦
            let (same, (j, m)) = find-In wanted rest k (rw no_hit at h) in (same, (j, inr m))
      ]
