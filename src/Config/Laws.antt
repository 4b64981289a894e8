-- ===== src/Config/Laws.antt =====
-- Which configurations pass the validation.
use tapwarden.Base.{
  ℕ, ◌≡◌, ◌≢◌, ◌↔◌, inl, inr, refl, false, some, List, [], ◌∷◌, Text, text, is_empty, All, Result,
  ok, err, result_map, Result-cases,
}
use tapwarden.Base.Try.{>>=-eq-ok, bail_if-eq-pass, expect-eq-ok}
use tapwarden.Secret.Endpoint.{endpoint_of, service_urls, validate_bws_server_endpoint}
use tapwarden.Secret.Endpoint.Laws.{
  IsPlain, IsPrivate, Serves, service_urls_iff, validate_base_url_iff,
}
use tapwarden.Secret.Endpoint.{Url}
use tapwarden.Config.{
  Backend, bws, vaultwarden, AuthFactor, touch_id, yubikey, VaultwardenConfig, YubikeyConfig,
  Config,
}
use tapwarden.Config.Verifier.{verifier, Verifies, verifier_iff}
use tapwarden.Config.Load.{ConfigHost, validate_ids, validate_backend, validate_factor, validate}

module _ {PublicKey W : Type 0} (host : ConfigHost PublicKey W) where
  -- The section of the backend that is chosen names a server that the backend would accept.
  abbrev pub HasServer : Backend → Config → Type 0
  HasServer bws c =
      (i : Text) × (a : Text) × Serves host.parse_url (endpoint_of host.parse_url c.server_endpoint)
        i a
  HasServer vaultwarden c =
      (vw : VaultwardenConfig) × (c.vaultwarden ≡ some vw)
      × ((u : Url) × (host.parse_url vw.server_url ≡ ok u) × (IsPlain u × IsPrivate u))

  -- The factor that is chosen is usable: a security key is registered, with a key to verify it by.
  abbrev pub HasFactor : AuthFactor → Config → Type 0
  HasFactor touch_id c = Unit
  HasFactor yubikey c =
      (y : YubikeyConfig) × (c.authorization.yubikey ≡ some y)
      × ((id : List ℕ) × (key : PublicKey) × Verifies host.verifiers y id key)

  pub record IsValid (c : Config) : Type 0 where
    pub ids : c.secret_ids ≢ []
    pub uuids : All (λ id. (n : ℕ) × (host.parse_uuid id ≡ ok n)) c.secret_ids
    pub server : HasServer c.backend c
    pub factor : HasFactor c.authorization.factor c

  result_map_iff :
      {A : Type 0} (r : Result A)
      → ◌≡◌ {A = Result (Unit {0})} (result_map (λ a. tt) r) (ok tt) ↔ ((a : A) × (r ≡ ok a))
  result_map_iff (ok a) = (λ h. (a, refl), λ h. refl)
  result_map_iff (err e) = (λ h. cc, λ (a, f). cc)

  validate_ids_iff :
      (l : List Text)
      → (validate_ids host l ≡ ok tt) ↔ All (λ id. (n : ℕ) × (host.parse_uuid id ≡ ok n)) l
  unfolding validate_ids
  validate_ids_iff [] = (λ h. tt, λ h. refl)
  validate_ids_iff (id ∷ ids) = elim (Result-cases (host.parse_uuid id)) [
    | inl (n, e) ↦ (
      λ h. ((n, e), (validate_ids_iff ids).0 (rw e at h)),
      λ (k, rest). rw e ((validate_ids_iff ids).1 rest),
    )
    | inr (x, e) ↦ (λ h. absurd (cc (rw e at h)), λ ((n, f), rest). absurd (cc (e, f)))
  ]

  validate_backend_iff :
      (b : Backend) (c : Config) → (validate_backend host b c ≡ ok tt) ↔ HasServer b c
  unfolding validate_backend validate_bws_server_endpoint
  validate_backend_iff bws c = (
    λ h.
        let ((i, a), e) = (result_map_iff (service_urls host.parse_url c.server_endpoint)).0 h in
        (i, a, (service_urls_iff host.parse_url c.server_endpoint i a).0 e),
    λ (i, a, k).
        (result_map_iff (service_urls host.parse_url c.server_endpoint)).1
          ((i, a), (service_urls_iff host.parse_url c.server_endpoint i a).1 k),
  )
  validate_backend_iff vaultwarden c = (
    λ h.
        let (vw, e, f) = expect-eq-ok _ c.vaultwarden _ h in
        (
          vw,
          e,
          (validate_base_url_iff host.parse_url vw.server_url (text "vaultwarden server_url")).0 f,
        ),
    λ (vw, e, k).
        rw e (
          (validate_base_url_iff host.parse_url vw.server_url (text "vaultwarden server_url")).1 k),
  )

  validate_factor_iff :
      (f : AuthFactor) (c : Config) → (validate_factor host f c ≡ ok tt) ↔ HasFactor f c
  unfolding validate_factor
  validate_factor_iff touch_id c = (λ h. tt, λ h. refl)
  validate_factor_iff yubikey c = (
    λ h.
        let (y, e, f) = expect-eq-ok _ c.authorization.yubikey _ h in
        let ((id, key), g) = (result_map_iff (verifier host.verifiers y)).0 f in
        (y, e, (id, key, (verifier_iff host.verifiers y id key).0 g)),
    λ (y, e, (id, key, v)). rw e (
        (result_map_iff (verifier host.verifiers y)).1
          ((id, key), (verifier_iff host.verifiers y id key).1 v)),
  )

  pub unit_ok : (r : Result (Unit {0})) {u : Unit {0}} → r ≡ ok u → r ≡ ok tt
  unit_ok r h = h

  empty_none : (l : List Text) → is_empty l ≡ false → l ≢ []
  empty_none [] h e = cc
  empty_none (x ∷ l) h e = cc

  none_empty : (l : List Text) → l ≢ [] → is_empty l ≡ false
  none_empty [] h = absurd (h refl)
  none_empty (x ∷ l) h = refl

  -- The validation passes exactly for a configuration with at least one secret id, all of them UUIDs,
  -- with a server that the chosen backend accepts, and, if the factor is a security key, with a
  -- registered credential and a well-formed public key to verify it by.
  pub validate_iff : (c : Config) → (validate host c ≡ ok tt) ↔ IsValid c
  unfolding validate
  validate_iff c = (
    λ h.
        let (some_ids, h1) = bail_if-eq-pass (is_empty c.secret_ids) _ _ h in
        let (u, e2, h2) = >>=-eq-ok (validate_ids host c.secret_ids) _ h1 in
        let (v, e3, h3) = >>=-eq-ok (validate_backend host c.backend c) _ h2 in
        record {
          ids = empty_none c.secret_ids some_ids;
          uuids = (validate_ids_iff c.secret_ids).0 (unit_ok _ e2);
          server = (validate_backend_iff c.backend c).0 (unit_ok _ e3);
          factor = (validate_factor_iff c.authorization.factor c).0 h3;
        },
    λ r.
        rw
          (
            none_empty c.secret_ids r.ids,
            (validate_ids_iff c.secret_ids).1 r.uuids,
            (validate_backend_iff c.backend c).1 r.server,
          )
          ((validate_factor_iff c.authorization.factor c).1 r.factor),
  )
