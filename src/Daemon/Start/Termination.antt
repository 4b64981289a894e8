-- ===== src/Daemon/Start/Termination.antt =====
-- That the two loops of `start` come to an end within the retry budget.
use tapwarden.Base.{
  subst, ℕ, zero, suc, ◌+◌, ◌*◌, ◌≤◌, ◌≡◌, refl, ap, sym, Bool, true, false, Option, none, some,
  List, [], ◌∷◌, Text, text, Result, ok, err, leb, arith, Bool-cases, inl, inr, Result-cases,
  ok-injective,
}
use tapwarden.Base.Try.{>>=-eq-ok}
use tapwarden.Base.Action.{Action}
use tapwarden.Config.{Config}
use tapwarden.Daemon.{gui_domain, service_target}
use tapwarden.Daemon.Launchd.{
  Output, Launchd, real, plist_path, log_path, loaded, bootout, bootstrap_retry_budget,
}
use tapwarden.Daemon.Start.{
  StartHost, poll_interval, wait_turn, wait_unloaded, retry_turn, exited, bootstrap_turn, bootstrap,
  start_in, start, change_service, install, restart, with_plist, finish,
}

module _ {W : Type 0} (host : StartHost W) where
  -- A view of the monotonic clock: a reading lies between the time before it and the time after it,
  -- `launchctl` never turns it back, and a sleep lasts at least as long as it was asked to.
  pub record IsClock (run : List Text → Action W Output) (time : W → ℕ) : Type 0 where
    pub reads : (w : W) → time w ≤ (host.clock.instant w).0
    pub read_keeps : (w : W) → (host.clock.instant w).0 ≤ time (host.clock.instant w).1
    pub run_keeps : (args : List Text) (w : W) → time w ≤ time (run args w).1
    pub sleeps : (d : ℕ) (w : W) → time w + d ≤ time (host.sleep d w)

  module _ (launchd : Launchd W) (time : W → ℕ) (view : IsClock launchd.run time) where
    loaded_keeps : (w : W) → time w ≤ time (loaded host.daemon launchd w).1
    unfolding loaded
    loaded_keeps w = view.run_keeps (text "print" ∷ service_target host.daemon.uid ∷ []) w

    -- The rest of a loop ends if so many sleeps reach the deadline.
    abbrev Finishes : {A : Type 0} → (W → Option A) → ℕ → ℕ → Type 0
    Finishes {A} again deadline n =
        (w : W) → deadline ≤ time w + n * poll_interval → (a : A) × (again w ≡ some a)

    -- Asking the clock either finds the deadline passed or leaves the rest one sleep less.
    turn_ends :
        {A : Type 0} (again : W → Option A) (stop : W → A) (deadline n : ℕ)
        → ((m : ℕ) → n ≡ suc m → Finishes again deadline m)
        → (w : W) → deadline ≤ time w + n * poll_interval
        → (a : A) × (elim (leb deadline (host.clock.instant w).0) [
          | true ↦ some (stop (host.clock.instant w).1)
          | false ↦ again (host.sleep poll_interval (host.clock.instant w).1)
        ]
            ≡ some a)
    turn_ends again stop deadline zero rest w h =
        let late : leb deadline (host.clock.instant w).0 ≡ true = ground (arith, view.reads w) in
        (stop (host.clock.instant w).1, rw late refl)
    turn_ends again stop deadline (suc m) rest w h =
        let (a, e) = rest m refl (host.sleep poll_interval (host.clock.instant w).1) (
          omega (
            arith,
            view.reads w,
            view.read_keeps w,
            view.sleeps poll_interval (host.clock.instant w).1,
          )) in
        elim (Bool-cases (leb deadline (host.clock.instant w).0)) [
          | inl late ↦ (stop (host.clock.instant w).1, rw late refl)
          | inr early ↦ (a, rw early e)
        ]

    wait_turn_ends :
        (again : W → Option W) (deadline n : ℕ)
        → ((m : ℕ) → n ≡ suc m → Finishes again deadline m)
        → (p : Bool × W) → deadline ≤ time p.1 + n * poll_interval
        → (a : W) × (wait_turn host launchd again deadline p ≡ some a)
    unfolding wait_turn
    wait_turn_ends again deadline n rest (false, w) h = (w, refl)
    wait_turn_ends again deadline n rest (true, w) h = turn_ends again (λ v. v) deadline n rest w h

    wait_unloaded_ends :
        (n deadline : ℕ) → Finishes (wait_unloaded host launchd (suc n) deadline) deadline n
    unfolding wait_unloaded
    wait_unloaded_ends zero deadline w h =
        wait_turn_ends (wait_unloaded host launchd zero deadline) deadline zero
          (λ m e. absurd (omega arith)) (loaded host.daemon launchd w)
          (omega (arith, loaded_keeps w))
    wait_unloaded_ends (suc k) deadline w h =
        wait_turn_ends (wait_unloaded host launchd (suc k) deadline) deadline (suc k)
          (λ m e.
            subst (Finishes (wait_unloaded host launchd (suc k) deadline) deadline) (omega arith)
              (wait_unloaded_ends k deadline))
          (loaded host.daemon launchd w) (omega (arith, loaded_keeps w))

    retry_turn_ends :
        (again : W → Option (Result Output × W)) (deadline n : ℕ) (booted_out : Bool) (out : Output)
        → ((m : ℕ) → n ≡ suc m → Finishes again deadline m)
        → (p : Bool × W) → deadline ≤ time p.1 + n * poll_interval
        → (a : Result Output × W) × (retry_turn host launchd again deadline booted_out out p
            ≡ some a)
    unfolding retry_turn
    retry_turn_ends again deadline n booted_out out rest (true, w) h = ((ok out, w), refl)
    retry_turn_ends again deadline n false out rest (false, w) h = ((ok out, w), refl)
    retry_turn_ends again deadline n true out rest (false, w) h =
        turn_ends again (λ v. (ok out, v)) deadline n rest w h

    exited_ends :
        (again : W → Option (Result Output × W)) (deadline n : ℕ) (booted_out : Bool) (out : Output)
        (success : Bool)
        → ((m : ℕ) → n ≡ suc m → Finishes again deadline m)
        → (w : W) → deadline ≤ time w + n * poll_interval
        → (a : Result Output × W) × (exited host launchd again deadline booted_out out success w
            ≡ some a)
    unfolding exited
    exited_ends again deadline n booted_out out true rest w h = ((ok out, w), refl)
    exited_ends again deadline n booted_out out false rest w h =
        retry_turn_ends again deadline n booted_out out rest (loaded host.daemon launchd w)
          (omega (arith, loaded_keeps w))

    bootstrap_turn_ends :
        (again : W → Option (Result Output × W)) (deadline n : ℕ) (booted_out : Bool)
        → ((m : ℕ) → n ≡ suc m → Finishes again deadline m)
        → (p : Result Output × W) → deadline ≤ time p.1 + n * poll_interval
        → (a : Result Output × W) × (bootstrap_turn host launchd again deadline booted_out p
            ≡ some a)
    unfolding bootstrap_turn
    bootstrap_turn_ends again deadline n booted_out rest (err e, w) h = ((err e, w), refl)
    bootstrap_turn_ends again deadline n booted_out rest (ok out, w) h =
        exited_ends again deadline n booted_out out out.success rest w h

    bootstrap_ends :
        (n deadline : ℕ) (booted_out : Bool) (plist : Text)
        → Finishes (bootstrap host launchd (suc n) deadline booted_out plist) deadline n
    unfolding bootstrap
    bootstrap_ends zero deadline booted_out plist w h =
        bootstrap_turn_ends (bootstrap host launchd zero deadline booted_out plist) deadline zero
          booted_out (λ m e. absurd (omega arith))
          (launchd.run (text "bootstrap" ∷ gui_domain host.daemon.uid ∷ plist ∷ []) w)
          (omega
            (arith, view.run_keeps (text "bootstrap" ∷ gui_domain host.daemon.uid ∷ plist ∷ []) w))
    bootstrap_ends (suc k) deadline booted_out plist w h =
        bootstrap_turn_ends (bootstrap host launchd (suc k) deadline booted_out plist) deadline
          (suc k) booted_out
          (λ m e.
            subst (Finishes (bootstrap host launchd (suc k) deadline booted_out plist) deadline)
              (omega arith) (bootstrap_ends k deadline booted_out plist))
          (launchd.run (text "bootstrap" ∷ gui_domain host.daemon.uid ∷ plist ∷ []) w)
          (omega
            (arith, view.run_keeps (text "bootstrap" ∷ gui_domain host.daemon.uid ∷ plist ∷ []) w))

    wait_turn_keeps :
        (again : W → Option W) (deadline : ℕ)
        → ((w v : W) → again w ≡ some v → time w ≤ time v)
        → (p : Bool × W) (v : W) → wait_turn host launchd again deadline p ≡ some v
        → time p.1 ≤ time v
    unfolding wait_turn
    wait_turn_keeps again deadline rest (false, w) v h =
        let e : w ≡ v = cc in subst (λ u. time w ≤ time u) e (omega arith)
    wait_turn_keeps again deadline rest (true, w) v h =
        elim (Bool-cases (leb deadline (host.clock.instant w).0)) [
          | inl late ↦
              let e : (host.clock.instant w).1 ≡ v = cc (rw (wait_turn, late) at h) in
              subst (λ u. time w ≤ time u) e (omega (arith, view.reads w, view.read_keeps w))
          | inr early ↦ omega (
            arith,
            view.reads w,
            view.read_keeps w,
            view.sleeps poll_interval (host.clock.instant w).1,
            rest (host.sleep poll_interval (host.clock.instant w).1) v (rw (wait_turn, early) at h),
          )
        ]

    wait_unloaded_keeps :
        (n deadline : ℕ) (w v : W)
        → wait_unloaded host launchd n deadline w ≡ some v
        → time w ≤ time v
    unfolding wait_unloaded
    wait_unloaded_keeps zero deadline w v h = cc
    wait_unloaded_keeps (suc n) deadline w v h = omega (
      arith,
      loaded_keeps w,
      wait_turn_keeps (wait_unloaded host launchd n deadline) deadline
          (wait_unloaded_keeps n deadline) (loaded host.daemon launchd w) v h,
    )

    -- A result is always given with that many turns for each of the two loops.
    change_service_ends :
        (n : ℕ) (booted_out : Bool) (plist socket : Text) (w : W)
        → launchd.retry_budget ≤ n * poll_interval
        → (r : Result (Unit {0}) × W) × (change_service host launchd
              (suc n)
              booted_out
              plist
              socket
              w
            ≡ some r)
    unfolding change_service
    change_service_ends n booted_out plist socket w h =
        let (now, w1) = host.clock.instant w in
        let deadline = (host.clock.instant w).0 + launchd.retry_budget in
        let (v, e) =
          wait_unloaded_ends n deadline (host.clock.instant w).1
            (omega (arith, view.read_keeps w)) in
        let (p, e2) = bootstrap_ends n deadline booted_out plist v (
          omega (
            arith,
            view.read_keeps w,
            wait_unloaded_keeps (suc n) deadline (host.clock.instant w).1 v e,
          )) in
        (finish host launchd socket p, rw (e, e2) refl)

    start_in_ends :
        (n : ℕ) (config : Config) (path : Option Text) (w : W)
        → launchd.retry_budget ≤ n * poll_interval
        → (r : Result (Unit {0}) × W) × (start_in host launchd (suc n) config path w ≡ some r)
    unfolding start_in
    start_in_ends n config path w h = go (install host launchd config path w)
      where
        named :
            (socket : Text) (plist : Option Text) (p : Bool × W)
            → (r : Result (Unit {0}) × W) × (with_plist host launchd (suc n) socket plist p
                ≡ some r)
        named socket none (b, v) = (_, refl)
        named socket (some plist) (b, v) = change_service_ends n b plist socket v h

        go :
            (p : Result Text × W)
            → (r : Result (Unit {0}) × W) × (restart host launchd (suc n) p ≡ some r)
        go (err e, v) = (_, refl)
        go (ok socket, v) = named socket (host.to_str launchd.plist) (bootout host.daemon launchd v)

  real_lem :
      (l : Launchd W)
      → real host.daemon ≡ ok l
      → (l.run ≡ host.daemon.launchctl) × (l.retry_budget ≡ bootstrap_retry_budget)
  unfolding real
  real_lem l h =
      let (plist, e1, h1) = >>=-eq-ok (plist_path host.daemon) _ h in
      let (log, e2, h2) = >>=-eq-ok (log_path host.daemon) _ h1 in
      (sym (ap (λ x. x.run) (ok-injective h2)), sym (ap (λ x. x.retry_budget) (ok-injective h2)))

  -- `start` always ends: on a clock that does not run backwards and on which a sleep takes its time,
  -- 101 turns for each of its two loops are enough, whatever `launchctl` answers, and so the service
  -- is asked at most that often.
  pub start_ends :
      (time : W → ℕ)
      → IsClock host.daemon.launchctl time
      → (n : ℕ) (config : Config) (path : Option Text) (w : W) → 101 ≤ n
      → (r : Result (Unit {0}) × W) × (start host n config path w ≡ some r)
  unfolding start
  start_ends time view zero config path w h = absurd (omega arith)
  start_ends time view (suc m) config path w h = elim (Result-cases (real host.daemon)) [
    | inr (x, e) ↦ ((err x, w), rw e refl)
    | inl (l, e) ↦
        let (run, budget) = real_lem l e in
        let (r, k) =
          start_in_ends l time (subst (λ f. IsClock f time) (sym run) view) m config path w
            (omega (arith, budget)) in
        (r, rw e k)
  ]
