-- ===== src/Daemon/Start/Kickstart.antt =====
-- What has happened when `start` succeeds.
use tapwarden.Base.{
  ℕ, zero, suc, ◌+◌, ◌≡◌, refl, ap, subst, Bool, true, false, not, Option, none, some, List, [],
  ◌∷◌, ◌⊎◌, inl, inr, Text, text, Result, ok, err, leb, bail_if, Bool-cases, Error,
}
use tapwarden.Base.Action.{continue_with_ok, lift}
use tapwarden.Config.{Config}
use tapwarden.Daemon.{gui_domain, service_target}
use tapwarden.Daemon.Launchd.{Output, Launchd, loaded, bootout}
use tapwarden.Daemon.Start.{
  StartHost, retry_turn, exited, bootstrap_turn, bootstrap, accept, kickstart, finish, finished,
  bootstrapped, wait_unloaded, change_service, with_plist, restart, install, start_in, accepted,
}

module _ {W : Type 0} (host : StartHost W) (launchd : Launchd W) where
  -- `launchctl` ran with these arguments, in some world, and exited with success.
  abbrev pub Succeeded : List Text → Type 0
  Succeeded args =
      (w : W) × (w' : W) × (out : Output) × (launchd.run args w ≡ (ok out, w'))
      × (out.success ≡ true)

  -- `launchctl print` found the service, in some world.
  abbrev pub Found : Type 0
  Found = (w : W) × ((loaded host.daemon launchd w).0 ≡ true)

  abbrev pub bootstrap_args : Text → List Text
  bootstrap_args plist = text "bootstrap" ∷ gui_domain host.daemon.uid ∷ plist ∷ []

  abbrev pub kickstart_args : List Text
  kickstart_args = text "kickstart" ∷ text "-k" ∷ service_target host.daemon.uid ∷ []

  -- The output that the retries end with is a `bootstrap`'s.
  abbrev Ran : Text → Result Output × W → Type 0
  Ran plist (err e, w) = Unit
  Ran plist (ok out, w) = (v : W) × (v' : W) × (launchd.run (bootstrap_args plist) v ≡ (ok out, v'))

  retry_turn-Ran :
      (plist : Text) (again : W → Option (Result Output × W)) (deadline : ℕ) (booted_out : Bool)
      (out : Output) (v v' : W)
      → launchd.run (bootstrap_args plist) v ≡ (ok out, v')
      → ((w : W) (p : Result Output × W) → again w ≡ some p → Ran plist p)
      → (q : Bool × W) (p : Result Output × W)
      → retry_turn host launchd again deadline booted_out out q ≡ some p
      → Ran plist p
  unfolding retry_turn
  retry_turn-Ran plist again deadline booted_out out v v' e rest (true, w) p h =
      let k : ◌≡◌ {A = Result Output × W} (ok out, w) p = cc in subst (Ran plist) k (v, v', e)
  retry_turn-Ran plist again deadline false out v v' e rest (false, w) p h =
      let k : ◌≡◌ {A = Result Output × W} (ok out, w) p = cc in subst (Ran plist) k (v, v', e)
  retry_turn-Ran plist again deadline true out v v' e rest (false, w) p h =
      elim (Bool-cases (leb deadline (host.clock.instant w).0)) [
        | inl late ↦
            let k : ◌≡◌ {A = Result Output × W} (ok out, (host.clock.instant w).1) p =
              cc (rw (retry_turn, late) at h) in
            subst (Ran plist) k (v, v', e)
        | inr early ↦ rest _ p (rw (retry_turn, early) at h)
      ]

  exited-Ran :
      (plist : Text) (again : W → Option (Result Output × W)) (deadline : ℕ) (booted_out : Bool)
      (out : Output) (v w : W)
      → launchd.run (bootstrap_args plist) v ≡ (ok out, w)
      → ((w : W) (p : Result Output × W) → again w ≡ some p → Ran plist p)
      → (success : Bool) (p : Result Output × W)
      → exited host launchd again deadline booted_out out success w ≡ some p
      → Ran plist p
  unfolding exited
  exited-Ran plist again deadline booted_out out v w e rest true p h =
      let k : ◌≡◌ {A = Result Output × W} (ok out, w) p = cc in subst (Ran plist) k (v, w, e)
  exited-Ran plist again deadline booted_out out v w e rest false p h =
      retry_turn-Ran plist again deadline booted_out out v w e rest (loaded host.daemon launchd w) p
        h

  bootstrap_turn-Ran :
      (plist : Text) (again : W → Option (Result Output × W)) (deadline : ℕ) (booted_out : Bool)
      (v : W)
      → ((w : W) (p : Result Output × W) → again w ≡ some p → Ran plist p)
      → (q p : Result Output × W) → launchd.run (bootstrap_args plist) v ≡ q
      → bootstrap_turn host launchd again deadline booted_out q ≡ some p
      → Ran plist p
  unfolding bootstrap_turn
  bootstrap_turn-Ran plist again deadline booted_out v rest (err x, w) p e h =
      let k : ◌≡◌ {A = Result Output × W} (err x, w) p = cc in subst (Ran plist) k tt
  bootstrap_turn-Ran plist again deadline booted_out v rest (ok out, w) p e h =
      exited-Ran plist again deadline booted_out out v w e rest out.success p h

  bootstrap-Ran :
      (n deadline : ℕ) (booted_out : Bool) (plist : Text) (w : W) (p : Result Output × W)
      → bootstrap host launchd n deadline booted_out plist w ≡ some p
      → Ran plist p
  unfolding bootstrap
  bootstrap-Ran zero deadline booted_out plist w p h = cc
  bootstrap-Ran (suc n) deadline booted_out plist w p h =
      bootstrap_turn-Ran plist (bootstrap host launchd n deadline booted_out plist) deadline
        booted_out w (bootstrap-Ran n deadline booted_out plist) _ p refl h

  accept_ok :
      (out : Output) (success : Bool) (w w' : W)
      → accept host launchd out success w ≡ (ok tt, w')
      → (success ≡ true) ⊎ Found
  unfolding accept
  accept_ok out true w w' h = inl refl
  accept_ok out false w w' h = go (loaded host.daemon launchd w) refl h
    where
      go :
          (q : Bool × W)
          → loaded host.daemon launchd w ≡ q
          → ◌≡◌ {A = Result (Unit {0}) × W} (accepted host launchd out q) (ok tt, w')
          → (false ≡ true) ⊎ Found
      go (true, v) e k = inr (w, ap (λ x. x.0) e)
      go (false, v) e k = absurd (cc)

  passed : (b : Bool) (e : Error) (u : Unit {0}) → bail_if (not b) e ≡ ok u → b ≡ true
  passed true e u h = refl
  passed false e u h = cc

  kickstart_ok :
      (socket : Text) (w w' : W)
      → kickstart host launchd socket w ≡ (ok tt, w')
      → Succeeded kickstart_args
  unfolding kickstart
  kickstart_ok socket w w' h =
      let (out, w1, e, h1) = continue_with_ok (launchd.run kickstart_args w) _ h in
      let (u, w2, e2, h2) = continue_with_ok (lift _ w1) _ h1 in
      (w, w1, out, e, passed out.success _ u (ap (λ x. x.0) e2))

  -- What a start that succeeds has seen.
  pub record Running : Type 0 where
    pub plist : Text
    pub named : host.to_str launchd.plist ≡ some plist
    pub bootstrapped : Succeeded (bootstrap_args plist) ⊎ Found
    pub kickstarted : Succeeded kickstart_args

  finish_ok :
      (plist socket : Text) (p : Result Output × W) (w' : W)
      → Ran plist p
      → finish host launchd socket p ≡ (ok tt, w')
      → (Succeeded (bootstrap_args plist) ⊎ Found) × Succeeded kickstart_args
  unfolding finish
  finish_ok plist socket (err e, w) w' r h = cc
  finish_ok plist socket (ok out, w) w' (v, v', e) h =
      let (u, w1, e1, h1) = continue_with_ok (accept host launchd out out.success w) _ h in
      (
        elim (accept_ok out out.success w w1 e1) [
          | inl success ↦ inl (v, v', out, e, success)
          | inr found ↦ inr found
        ],
        kickstart_ok socket w1 w' h1,
      )

  change_service_ok :
      (fuel : ℕ) (booted_out : Bool) (plist socket : Text) (w w' : W)
      → change_service host launchd fuel booted_out plist socket w ≡ some (ok tt, w')
      → (Succeeded (bootstrap_args plist) ⊎ Found) × Succeeded kickstart_args
  unfolding change_service
  change_service_ok fuel booted_out plist socket w w' h =
      waited (wait_unloaded host launchd fuel deadline (host.clock.instant w).1) h
    where
      deadline : ℕ
      deadline = (host.clock.instant w).0 + launchd.retry_budget

      ended :
          (o : Option (Result Output × W))
          → ((p : Result Output × W) → o ≡ some p → Ran plist p)
          → finished host launchd socket o ≡ some (ok tt, w')
          → (Succeeded (bootstrap_args plist) ⊎ Found) × Succeeded kickstart_args
      ended none r k = cc
      ended (some p) r k = finish_ok plist socket p w' (r p refl) (cc)

      waited :
          (o : Option W)
          → bootstrapped host launchd fuel deadline booted_out plist socket o ≡ some (ok tt, w')
          → (Succeeded (bootstrap_args plist) ⊎ Found) × Succeeded kickstart_args
      waited none k = cc
      waited (some v) k =
          ended (bootstrap host launchd fuel deadline booted_out plist v)
            (bootstrap-Ran fuel deadline booted_out plist v) k

  -- A start reports success only if `launchctl bootstrap` of the property list has succeeded or the
  -- service was found loaded, and a `kickstart` of it has succeeded.
  pub start_in-Running :
      (fuel : ℕ) (config : Config) (path : Option Text) (w w' : W)
      → start_in host launchd fuel config path w ≡ some (ok tt, w')
      → Running
  unfolding start_in
  start_in-Running fuel config path w w' h = go (install host launchd config path w) h
    where
      named :
          (socket : Text) (plist : Option Text) (p : Bool × W)
          → host.to_str launchd.plist ≡ plist
          → with_plist host launchd fuel socket plist p ≡ some (ok tt, w')
          → Running
      named socket none (b, v) e k = cc
      named socket (some plist) (b, v) e k =
          let (boot, kick) = change_service_ok fuel b plist socket v w' k in
          record { plist = plist; named = e; bootstrapped = boot; kickstarted = kick }

      go : (p : Result Text × W) → restart host launchd fuel p ≡ some (ok tt, w') → Running
      go (err x, v) k = cc
      go (ok socket, v) k =
          named socket (host.to_str launchd.plist) (bootout host.daemon launchd v) refl k
