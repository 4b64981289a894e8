-- ===== src/Agent/Serve/Laws.antt =====
-- What a start of the agent does to a socket, and what can stop it.
use tapwarden.Base.{
  ℕ, ◌≡◌, refl, ◌∙◌, true, false, List, [], ◌∷◌, Text, Result, ok, err, is_ok, result_map, inl, inr,
  ◌⊎◌, All,
}
use tapwarden.Base.Try.{and_then}
use tapwarden.Base.Action.{continue_with}
use tapwarden.Authorizer.{Authorizer}
use tapwarden.Config.{Config}
use tapwarden.Config.Load.{validate}
use tapwarden.Config.Laws.{validate_iff}
use tapwarden.Agent.Build.{Gate, Fetcher, build_authorizer, build_authorizer_valid, build_fetcher}
use tapwarden.Agent.Service.{KeyService}
use tapwarden.Agent.Socket.{claim_socket, claim_socket_live}
use tapwarden.Agent.Probe.{AgentHost, authorizer_of, parse_ids, built}
use tapwarden.Agent.Serve.{ServeHost, new_service, served, serve_on, serve}

module _ {Entry Device PublicKey R PrivateKey Listener W : Type 0}
    (host : ServeHost Entry Device PublicKey R PrivateKey Listener W) where
  claimed_fails :
      (service : KeyService PrivateKey W) (socket : Text) (p : Result Listener × W)
      → is_ok p.0 ≡ false
      → ((continue_with p (serve_on host socket service)).1 ≡ p.1)
        × (is_ok (continue_with p (serve_on host socket service)).0 ≡ false)
  claimed_fails service socket (err e, w) h = (refl, refl)
  claimed_fails service socket (ok l, w) h = absurd (cc)

  -- A second agent leaves a live one alone: if something answers at the socket, the start fails, and at
  -- most that one attempt to connect has happened. In particular the socket is not removed, neither to
  -- make room nor in the cleanup.
  pub serve_live :
      (config : Config) (socket : Text) (w : W)
      → (host.sockets.connect socket w).0 ≡ true
      → (is_ok (serve host config socket w).0 ≡ false)
        × (((serve host config socket w).1 ≡ (host.sockets.connect socket w).1)
            ⊎ ((serve host config socket w).1 ≡ w))
  unfolding serve
  serve_live config socket w h = go (built host.agent config)
    where
      go :
          (r : Result (List ℕ × (Authorizer W × Fetcher)))
          → (is_ok (served host socket r w).0 ≡ false)
            × (((served host socket r w).1 ≡ (host.sockets.connect socket w).1)
                ⊎ ((served host socket r w).1 ≡ w))
      go (err e) = (refl, inr refl)
      go (ok (ids, (authorizer, fetcher))) =
          let (same, failed) = claim_socket_live host.sockets socket w h in
          let (kept, stopped) =
            claimed_fails (new_service host ids fetcher authorizer) socket
              (claim_socket host.sockets socket w) failed in
          (stopped, inl (kept ∙ same))

module _ {Entry Device PublicKey R PrivateKey W : Type 0}
    (host : AgentHost Entry Device PublicKey R PrivateKey W) where
  parse_ids_valid :
      (ids : List Text)
      → All (λ id. (n : ℕ) × (host.config.parse_uuid id ≡ ok n)) ids
      → (l : List ℕ) × (parse_ids host ids ≡ ok l)
  unfolding parse_ids
  parse_ids_valid [] a = ([], refl)
  parse_ids_valid (s ∷ rest) ((n, e), a) =
      let (l, f) = parse_ids_valid rest a in (n ∷ l, rw (e, f) refl)

  mapped : {A B : Type 0} (f : A → B) (r : Result A) → and_then (λ a. ok (f a)) r ≡ result_map f r
  mapped f (ok a) = refl
  mapped f (err e) = refl

  -- With a configuration that passes the validation, the agent and `doctor --check-backend` can only
  -- fail to start over the backend: the ids parse, an authorizer is built, and what is built is exactly
  -- the fetcher, gated by that authorizer, with its errors.
  pub built_valid :
      (c : Config)
      → validate host.config c ≡ ok tt
      → (ids : List ℕ) × (gate : Gate W) × (parse_ids host c.secret_ids ≡ ok ids)
        × (build_authorizer host.config host.biometric host.fido c ≡ ok gate)
        × (built host c
            ≡ result_map
                (λ fetcher. (ids, (authorizer_of host gate, fetcher)))
                (build_fetcher host.config host.bws host.vaultwarden (authorizer_of host gate) c))
  unfolding built
  built_valid c h =
      let (ids, e) = parse_ids_valid c.secret_ids ((validate_iff host.config c).0 h).uuids in
      let (gate, factor, f, used, named) =
        build_authorizer_valid host.config host.biometric host.fido c h in
      (ids, _, e, f, rw (e, f) (mapped _ _))
