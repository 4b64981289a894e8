-- ===== src/Config/Loading.antt =====
-- Where a loaded configuration comes from.
use tapwarden.Base.{
  ◌≡◌, ◌↔◌, refl, Bool, true, false, Option, none, some, Text, text, is_empty, Result, ok, err, sym,
  ap, subst, not, filter, map, trim, split, ok-injective,
}
use tapwarden.Base.Try.{>>=-eq-ok}
use tapwarden.Secret.Endpoint.{context_text}
use tapwarden.Config.{bws, Config, env, default_token_env, default_authorization}
use tapwarden.Config.Load.{
  ConfigHost, validate, env_ids, from_env, or_empty, parsed, read_config, checked, load_existing,
  load_default, load,
}
use tapwarden.Config.Laws.{IsValid, validate_iff, unit_ok}

module _ {PublicKey W : Type 0} (host : ConfigHost PublicKey W) where
  checked-IsValid :
      (p : Result Config × W) (c : Config) → (checked host p).0 ≡ ok c → IsValid host c
  unfolding checked
  checked-IsValid (err e, w) c h = cc
  checked-IsValid (ok d, w) c h =
      let (u, e, f) = >>=-eq-ok (validate host d) _ h in
      let same : d ≡ c = cc (f) in rw (sym same) ((validate_iff host d).0 (unit_ok host _ e))

  -- What the environment gives: the ids between the commas, trimmed, without the empty ones, the server,
  -- and the defaults.
  abbrev pub of_environment : Config
  of_environment = record {
    backend = bws;
    vaultwarden = none;
    access_token_env = default_token_env;
    credentials = env;
    secret_ids =
        filter (λ id. not (is_empty id))
          (map trim (split b',' (or_empty host (host.var (text "TAPWARDEN_SECRET_IDS")))));
    server_endpoint = host.var (text "TAPWARDEN_SERVER_ENDPOINT");
    authorization = default_authorization;
  }

  -- Where a configuration comes from, from the second look at the path on: from the file, if that look
  -- finds one, and else from the environment.
  abbrev pub Source : Text → Bool × W → Config → Type 0
  Source path (true, w) c =
      (s : Text) × ((host.read_to_string path w).0 ≡ ok s) × (host.from_yaml s ≡ ok c)
  Source path (false, w) c = c ≡ of_environment

  -- What `load` returns: for a path that was asked for, there must be a file at the first look.
  abbrev pub Loads : Option Text → W → Config → Type 0
  Loads (some path) w c =
      ((host.exists path w).0 ≡ true)
      × Source path (host.exists path (host.exists path w).1) c
      × IsValid host c
  Loads none w c =
      (path : Text) × (host.default_path ≡ some path)
      × Source path (host.exists path w) c
      × IsValid host c

  context_text-eq-ok :
      {A : Type 0} (m : Text) (r : Result A) (a : A) → context_text m r ≡ ok a → r ≡ ok a
  context_text-eq-ok m (ok b) a h = h
  context_text-eq-ok m (err e) a h = cc

  parsed_iff :
      (path : Text) (p : Result Text × W) (c : Config)
      → ((parsed host path p).0 ≡ ok c) ↔ ((s : Text) × (p.0 ≡ ok s) × (host.from_yaml s ≡ ok c))
  unfolding parsed
  parsed_iff path (err e, w) c = (λ h. absurd (cc h), λ (s, e, f). absurd (cc e))
  parsed_iff path (ok t, w) c = (
    λ h. (t, refl, context_text-eq-ok _ (host.from_yaml t) c h),
    λ (s, e, f). rw (ok-injective e, f) refl,
  )

  read_config_iff :
      (path : Text) (p : Bool × W) (c : Config)
      → ((read_config host path p).0 ≡ ok c) ↔ Source path p c
  unfolding read_config from_env env_ids
  read_config_iff path (true, w) c = parsed_iff path (host.read_to_string path w) c
  read_config_iff path (false, w) c = (λ h. sym (ok-injective h), λ e. ap ok (sym e))

  checked_iff :
      (p : Result Config × W) (c : Config)
      → ((checked host p).0 ≡ ok c) ↔ ((p.0 ≡ ok c) × IsValid host c)
  unfolding checked
  checked_iff (err e, w) c = (λ h. absurd (cc h), λ (f, v). absurd (cc f))
  checked_iff (ok d, w) c = (
    λ h. let (u, e, f) = >>=-eq-ok (validate host d) _ h in (f, checked-IsValid (ok d, w) c h),
    λ (f, v). rw (ok-injective f, (validate_iff host c).1 v) refl,
  )

  looked :
      (path : Text) (p : Bool × W) (c : Config)
      → ((checked host (read_config host path p)).0 ≡ ok c) ↔ (Source path p c × IsValid host c)
  looked path p c =
      let known = checked_iff (read_config host path p) c in
      let source = read_config_iff path p c in
      (λ h. (source.0 (known.0 h).0, (known.0 h).1), λ (e, v). known.1 (source.1 e, v))

  load_existing_iff :
      (path : Text) (p : Bool × W) (c : Config)
      → ((load_existing host path p).0 ≡ ok c)
        ↔ ((p.0 ≡ true) × Source path (host.exists path p.1) c × IsValid host c)
  unfolding load_existing
  load_existing_iff path (false, w) c = (λ h. absurd (cc h), λ (e, f, v). absurd (cc e))
  load_existing_iff path (true, w) c =
      let known = looked path (host.exists path w) c in
      (λ h. let (source, valid) = known.0 h in (refl, source, valid), λ (e, f, v). known.1 (f, v))

  load_default_iff :
      (o : Option Text) (w : W) (c : Config)
      → ((load_default host o w).0 ≡ ok c)
        ↔ ((path : Text) × (o ≡ some path) × Source path (host.exists path w) c × IsValid host c)
  unfolding load_default
  load_default_iff none w c = (λ h. absurd (cc h), λ (path, e, f, v). absurd (cc e))
  load_default_iff (some p) w c =
      let known = looked p (host.exists p w) c in
      (
        λ h. let (source, valid) = known.0 h in (p, refl, source, valid),
        λ (path, e, f, v). known.1 (subst (λ x. Source x (host.exists x w) c) (same path e) f, v),
      )
    where
      same : (path : Text) → some p ≡ some path → path ≡ p
      same path e = cc

  -- A configuration is loaded exactly in these cases, and always one that passes the validation. A path
  -- that was asked for must exist at a first look, or nothing is loaded. At the next look, which is the
  -- first for the default path, an existing file is read and decoded, and no other configuration comes of
  -- it; if there is none then, the configuration is that of the environment. A requested file that is
  -- removed between its two looks is therefore replaced by the environment.
  pub load_iff : (o : Option Text) (w : W) (c : Config) → ((load host o w).0 ≡ ok c) ↔ Loads o w c
  unfolding load
  load_iff (some path) w c = load_existing_iff path (host.exists path w) c
  load_iff none w c = load_default_iff host.default_path w c

  -- Whatever is loaded has passed the validation.
  pub load-IsValid :
      (o : Option Text) (w : W) (c : Config) → (load host o w).0 ≡ ok c → IsValid host c
  load-IsValid (some path) w c h =
      let (there, source, valid) = (load_iff (some path) w c).0 h in valid
  load-IsValid none w c h = let (path, e, source, valid) = (load_iff none w c).0 h in valid
