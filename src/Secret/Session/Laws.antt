-- ===== src/Secret/Session/Laws.antt =====
-- What `get` does with its session: the backoff, the renewal after a 401, and how often it calls.
use tapwarden.Base.{
  ℕ, ◌-◌, ◌<◌, ◌≡◌, ◌⊎◌, inl, inr, refl, Bool, true, false, Option, none, some, List, [], ◌∷◌,
  Result, ok, err, Error, arith,
}
use tapwarden.Base.Action.{Action, continue_with_keeps}
use tapwarden.Base.Time.{Clock}
use tapwarden.Secret.Backoff.{check_login_backoff, check_login_backoff_waiting, backoff_error}
use tapwarden.Secret.Session.{
  AuthState, on_world, after_login, session_of, continue_or_break, attempts, settled, exchange,
}

module _ {S W R : Type 0} (clock : Clock W) (backoff : ℕ) (login : Action W S)
    (request : S → Action W R) (unauthorized : R → Bool) where
  -- While the backoff of a failed login runs, a call without a session fails at once: it reads the
  -- clock and does nothing else, so neither a login, nor a prompt, nor a request happens, and the
  -- state is otherwise unchanged.
  pub exchange_backoff :
      (at : ℕ) (w : W)
      → (clock.instant w).0 - at < backoff
      → exchange clock backoff login request unauthorized
          (record { session = none; failed_at = some at; world = w })
        ≡ (
          err (backoff_error (backoff - ((clock.instant w).0 - at))),
          record { session = none; failed_at = some at; world = (clock.instant w).1 },
        )
  unfolding exchange
  exchange_backoff at w h = rw (check_login_backoff_waiting clock at backoff w h) refl

  -- A session and a noted failure never stand together.
  abbrev pub IsConsistent : AuthState S W → Type 0
  IsConsistent s = (s.session ≡ none) ⊎ (s.failed_at ≡ none)

  after_login-IsConsistent :
      (p : Result S × W) → IsConsistent (after_login clock backoff login request unauthorized p).1
  unfolding after_login
  after_login-IsConsistent (ok session, w) = inr refl
  after_login-IsConsistent (err e, w) = inl refl

  session_of-IsConsistent :
      (o : Option S) (s : AuthState S W)
      → o ≡ s.session
      → IsConsistent s
      → IsConsistent (session_of clock backoff login request unauthorized o s).1
  unfolding session_of
  session_of-IsConsistent (some session) s e h = h
  session_of-IsConsistent none s e h =
      continue_with_keeps IsConsistent (on_world (check_login_backoff clock s.failed_at backoff) s)
        _ h (λ a. after_login-IsConsistent (login _))

  continue_or_break-IsConsistent :
      (again : Bool) (next : Action (AuthState S W) (Option R)) (r : R) (s : AuthState S W)
      → ((t : AuthState S W) → IsConsistent t → IsConsistent (next t).1)
      → IsConsistent s
      → IsConsistent (continue_or_break clock backoff login request unauthorized again next r s).1
  unfolding continue_or_break
  continue_or_break-IsConsistent true next r s k h = k _ (inl refl)
  continue_or_break-IsConsistent false next r s k h = h

  attempts-IsConsistent :
      (l : List ℕ) (s : AuthState S W)
      → IsConsistent s
      → IsConsistent (attempts clock backoff login request unauthorized l s).1
  unfolding attempts
  attempts-IsConsistent [] s h = h
  attempts-IsConsistent (attempt ∷ rest) s h =
      let opened = session_of-IsConsistent s.session s refl h in
      continue_with_keeps IsConsistent
        (session_of clock backoff login request unauthorized s.session s) _ opened
        (λ session.
          continue_with_keeps IsConsistent (on_world (request session) _) _ opened (λ fetched.
            continue_or_break-IsConsistent _
              (attempts clock backoff login request unauthorized rest) fetched _
              (attempts-IsConsistent rest) opened))

  settled_state :
      (o : Option R) (s : AuthState S W)
      → (settled clock backoff login request unauthorized o s).1 ≡ s
  unfolding settled
  settled_state none s = refl
  settled_state (some r) s = ground arith

  -- If no failed login is noted beside a session, then none is after a call, successful or not.
  pub exchange-IsConsistent :
      (s : AuthState S W)
      → IsConsistent s
      → IsConsistent (exchange clock backoff login request unauthorized s).1
  unfolding exchange
  exchange-IsConsistent s h =
      let looped = attempts-IsConsistent (0 ∷ 1 ∷ []) s h in
      continue_with_keeps IsConsistent
        (attempts clock backoff login request unauthorized (0 ∷ 1 ∷ []) s) _ looped
        (λ o. rw settled_state looped)

  -- In a state without a session whose backoff has passed, a login that fails, for a denied unlock as
  -- for a server that is down, is the call's error; and
  -- until the backoff has passed since then every further call fails without a login, a prompt or
  -- a request: it reads the clock and changes nothing else, whatever the world did in between.
  pub exchange_after_failure :
      (failed_at : Option ℕ) (w w0 w1 w2 : W) (e : Error)
      → check_login_backoff clock failed_at backoff w ≡ (ok tt, w0)
      → login w0 ≡ (err e, w1)
      → (clock.instant w2).0 - (clock.instant w1).0 < backoff
      → let (first, s) =
          exchange clock backoff login request unauthorized
            (record { session = none; failed_at = failed_at; world = w }) in
        (first ≡ err e)
        × (exchange clock backoff login request unauthorized (record s { world = w2 }) ≡ (
          err (backoff_error (backoff - ((clock.instant w2).0 - (clock.instant w1).0))),
          record s { world = (clock.instant w2).1 },
        ))
  unfolding exchange
  exchange_after_failure failed_at w w0 w1 w2 e passed failed soon =
      rw (passed, failed) (refl, exchange_backoff (clock.instant w1).0 w2 soon)
