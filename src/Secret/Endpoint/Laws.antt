-- ===== src/Secret/Endpoint/Laws.antt =====
-- Which base URLs and which server endpoints are accepted.
use tapwarden.Base.{
  ◌≡◌, ◌↔◌, ◌⊎◌, inl, inr, refl, true, false, Option, none, some, [], ◌∷◌, ◌++◌, Text, text,
  text_eq, text_eq_iff, contains, is_empty, Result, ok, arith, Option-cases, Bool-cases,
  Result-cases, if◌then◌else◌,
}
use tapwarden.Base.Try.{>>=-eq-ok}
use tapwarden.Secret.Endpoint.{
  Url, is_loopback, has_extras, is_secure, check_base, validate_base_url, endpoint_of, bare_host,
  origin_urls, host_urls, service_urls,
}

-- A base URL: a host, no credentials, no query and no fragment, over https, or over http to one
-- of the loopback hosts.
abbrev pub IsLoopback : Option Text → Type 0
IsLoopback host =
    (host ≡ some (text "localhost"))
    ⊎ (host ≡ some (text "127.0.0.1"))
    ⊎ (host ≡ some (text "::1"))
    ⊎ (host ≡ some (text "[::1]"))

pub record IsPlain (u : Url) : Type 0 where
  pub hosted : (h : Text) × (u.host ≡ some h)
  pub anonymous : (u.username ≡ []) × (u.password ≡ none)
  pub plain : (u.query ≡ none) × (u.fragment ≡ none)

abbrev pub IsPrivate : Url → Type 0
IsPrivate u = (u.scheme ≡ text "https") ⊎ ((u.scheme ≡ text "http") × IsLoopback u.host)

is_empty_iff : (s : Text) → (is_empty s ≡ true) ↔ (s ≡ [])
is_empty_iff [] = (λ h. refl, λ h. refl)
is_empty_iff (c ∷ s) = (λ h. cc, λ h. cc)

has_extras_iff : (u : Url) → (has_extras u ≡ false) ↔ IsPlain u
unfolding has_extras
has_extras_iff u = (
  λ h. elim (Option-cases u.host) [
    | inl missing ↦ absurd (ground arith)
    | inr (host, e) ↦ record {
      hosted = (host, e);
      anonymous = ground (arith, is_empty_iff u.username);
      plain = ground (arith, is_empty_iff u.username);
    }
  ],
  λ c. ground (arith, is_empty_iff u.username, c.hosted.1),
)

is_loopback_iff : (o : Option Text) → (is_loopback o ≡ true) ↔ IsLoopback o
unfolding is_loopback
is_loopback_iff none = (λ h. cc, λ h. ground arith)
is_loopback_iff (some h) =
    let a = text_eq_iff h (text "localhost") in
    let b = text_eq_iff h (text "127.0.0.1") in
    let c = text_eq_iff h (text "::1") in
    let d = text_eq_iff h (text "[::1]") in
    (λ e. ground (arith, a, b, c, d), λ e. ground (arith, a, b, c, d))

is_secure_iff : (u : Url) → (is_secure u ≡ true) ↔ IsPrivate u
unfolding is_secure
is_secure_iff u =
    let a = text_eq_iff u.scheme (text "https") in
    let b = text_eq_iff u.scheme (text "http") in
    let c = is_loopback_iff u.host in
    (
      λ h. elim (Bool-cases (text_eq u.scheme (text "https"))) [
        | inl tls ↦ inl (a.0 tls)
        | inr clear ↦ inr (b.0 (ground arith), c.0 (ground arith))
      ],
      λ h. elim h [
        | inl tls ↦ rw (a.1 tls) refl
        | inr (clear, loop) ↦ let e = b.1 clear in let f = c.1 loop in ground (arith, e, f)
      ],
    )

check_base_iff : (what : Text) (u : Url) → (check_base what u ≡ ok tt) ↔ (IsPlain u × IsPrivate u)
unfolding check_base
check_base_iff what u = (
  λ h. ((has_extras_iff u).0 (ground arith), (is_secure_iff u).0 (ground arith)),
  λ (p, q). ground (arith, (has_extras_iff u).1 p, (is_secure_iff u).1 q),
)

module _ (parse_url : Text → Result Url) where
  -- The check of a base URL passes exactly for a URL with a host and without credentials, query or
  -- fragment, over https, or over http to a loopback host.
  pub validate_base_url_iff :
      (url what : Text)
      → (validate_base_url parse_url url what ≡ ok tt)
        ↔ ((u : Url) × (parse_url url ≡ ok u) × (IsPlain u × IsPrivate u))
  unfolding validate_base_url
  validate_base_url_iff url what = elim (Result-cases (parse_url url)) [
    | inl (u, e) ↦ (
      λ h. (u, e, (check_base_iff what u).0 (rw e at h)),
      λ (v, f, k). rw f ((check_base_iff what v).1 k),
    )
    | inr (x, e) ↦ (λ h. absurd (cc (rw e at h)), λ (v, f, k). absurd (cc (e, f)))
  ]

  -- How the endpoint names the two services: as one origin, which is then a private base URL with
  -- two paths, or as a bare host (nothing but a host), which is given two
  -- names under it, over https.
  pub data Serves (endpoint identity api : Text) : Type 0 where
    origin :
        (u : Url)
        → contains (text "://") endpoint ≡ true
        → parse_url endpoint ≡ ok u
        → IsPlain u × IsPrivate u
        → identity ≡ endpoint ++ text "/identity"
        → api ≡ endpoint ++ text "/api"
        → Serves endpoint identity api
    host :
        (u : Url)
        → contains (text "://") endpoint ≡ false
        → parse_url (text "https://" ++ endpoint) ≡ ok u
        → IsPlain u × (u.path ≡ text "/")
        → identity ≡ text "https://identity." ++ endpoint
        → api ≡ text "https://api." ++ endpoint
        → Serves endpoint identity api

  bare_host_iff : (u : Url) → (bare_host parse_url u ≡ true) ↔ (IsPlain u × (u.path ≡ text "/"))
  unfolding bare_host
  bare_host_iff u = (
    λ h. ((has_extras_iff u).0 (ground arith), (text_eq_iff u.path (text "/")).0 (ground arith)),
    λ (p, q). ground (arith, (has_extras_iff u).1 p, (text_eq_iff u.path (text "/")).1 q),
  )

  origin_urls_ok :
      (endpoint i a : Text)
      → contains (text "://") endpoint ≡ true
      → origin_urls parse_url endpoint ≡ ok (i, a)
      → Serves endpoint i a
  unfolding origin_urls
  origin_urls_ok endpoint i a full h =
      let (x, v, w) =
        >>=-eq-ok (validate_base_url parse_url endpoint (text "BWS server_endpoint")) _ h in
      let (u, parsed, good) = (validate_base_url_iff endpoint (text "BWS server_endpoint")).0 v in
      origin u full parsed good (cc w) (cc w)

  host_urls_ok :
      (endpoint i a : Text)
      → contains (text "://") endpoint ≡ false
      → host_urls parse_url endpoint ≡ ok (i, a)
      → Serves endpoint i a
  unfolding host_urls
  host_urls_ok endpoint i a bare h = elim (Result-cases (parse_url (text "https://" ++ endpoint))) [
    | inr (x, e) ↦ absurd (cc (rw e at h))
    | inl (u, e) ↦ host u bare e ((bare_host_iff u).0 (ground arith)) (ground arith) (ground arith)
  ]

  accepted :
      (endpoint i a : Text)
      → Serves endpoint i a
      → (if contains (text "://") endpoint
          then origin_urls parse_url endpoint
          else host_urls parse_url endpoint)
        ≡ ok (i, a)
  unfolding origin_urls host_urls
  accepted endpoint i a (origin u full parsed good same_i same_a) = rw (
    full,
    (validate_base_url_iff endpoint (text "BWS server_endpoint")).1 (u, parsed, good),
    same_i,
    same_a,
  )
  accepted endpoint i a (host u bare parsed k same_i same_a) =
      rw (bare, parsed, (bare_host_iff u).1 k, same_i, same_a)

  -- The service URLs are accepted exactly in two forms, for the endpoint without its trailing
  -- slashes (bitwarden.com if none is given): a private base URL, which is given two paths, or a bare
  -- host, which is given two names under it, over https.
  pub service_urls_iff :
      (e : Option Text) (i a : Text)
      → (service_urls parse_url e ≡ ok (i, a)) ↔ Serves (endpoint_of parse_url e) i a
  unfolding service_urls
  service_urls_iff e i a = (
    λ h. elim (Bool-cases (contains (text "://") (endpoint_of parse_url e))) [
      | inl full ↦ origin_urls_ok (endpoint_of parse_url e) i a full (rw full at h)
      | inr bare ↦ host_urls_ok (endpoint_of parse_url e) i a bare (rw bare at h)
    ],
    λ k. accepted (endpoint_of parse_url e) i a k,
  )
