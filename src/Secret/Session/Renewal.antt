-- ===== src/Secret/Session/Renewal.antt =====
-- Which session a response belongs to, and the renewal of a session after a 401.
use tapwarden.Base.{
  ℕ, ◌≡◌, refl, Bool, true, false, ◌&&◌, Option, none, some, List, [], ◌∷◌, Result, ok, err,
}
use tapwarden.Base.Action.{Action, continue_with, continue_with_post, ◌>>=◌, pure}
use tapwarden.Base.Time.{Clock}
use tapwarden.Secret.Backoff.{check_login_backoff}
use tapwarden.Secret.Session.{
  AuthState, on_world, after_login, start_session, session_of, continue_or_break, attempts,
  pair_with, settled, exchange,
}

module _ {S W R : Type 0} (clock : Clock W) (backoff : ℕ) (login : Action W S)
    (request : S → Action W R) (unauthorized : R → Bool) where
  -- Whatever succeeds leaves its session in the state.
  abbrev Opened : Result S × AuthState S W → Type 0
  Opened (ok session, t) = t.session ≡ some session
  Opened (err e, t) = Unit

  -- The response was fetched with `session`, by the request that ended in the state's world.
  abbrev Answers : S → Result R × AuthState S W → Type 0
  Answers session (ok r, t) =
      (t.session ≡ some session) × ((w : W) × (request session w ≡ (ok r, t.world)))
  Answers session (err e, t) = Unit

  abbrev Fetched : Result (Option R) × AuthState S W → Type 0
  Fetched (ok (some r), t) = (session : S) × Answers session (ok r, t)
  Fetched (ok none, t) = Unit
  Fetched (err e, t) = Unit

  after_login-Opened :
      (p : Result S × W) → Opened (after_login clock backoff login request unauthorized p)
  unfolding after_login
  after_login-Opened (ok session, w) = refl
  after_login-Opened (err e, w) = tt

  session_of-Opened :
      (o : Option S) (s : AuthState S W)
      → s.session ≡ o
      → Opened (session_of clock backoff login request unauthorized o s)
  unfolding session_of
  session_of-Opened (some session) s e = e
  session_of-Opened none s e =
      continue_with_post {B = S} (λ p. Unit {0}) Opened
        (on_world (check_login_backoff clock s.failed_at backoff) s) _ tt (λ x w. tt)
        (λ u t h. after_login-Opened (login t.world))

  on_world-Answers :
      (session : S) (t : AuthState S W)
      → t.session ≡ some session
      → Answers session (on_world (request session) t)
  on_world-Answers session t e = go (request session t.world) refl
    where
      go :
          (p : Result R × W)
          → request session t.world ≡ p
          → Answers session (p.0, record t { world = p.1 })
      go (ok r, w) f = (e, (t.world, f))
      go (err x, w) f = tt

  continue_or_break-Fetched :
      (session : S) (again : Bool) (next : Action (AuthState S W) (Option R)) (r : R)
      (t : AuthState S W)
      → Answers session (ok r, t)
      → ((u : AuthState S W) → Fetched (next u))
      → Fetched (continue_or_break clock backoff login request unauthorized again next r t)
  unfolding continue_or_break
  continue_or_break-Fetched session true next r t h k = k _
  continue_or_break-Fetched session false next r t h k = (session, h)

  attempts-Fetched :
      (l : List ℕ) (s : AuthState S W)
      → Fetched (attempts clock backoff login request unauthorized l s)
  unfolding attempts
  attempts-Fetched [] s = tt
  attempts-Fetched (attempt ∷ rest) s =
      continue_with_post Opened Fetched
        (session_of clock backoff login request unauthorized s.session s) _
        (session_of-Opened s.session s refl) (λ e w. tt)
        (λ session t opened.
          continue_with_post (Answers session) Fetched (on_world (request session) t) _
            (on_world-Answers session t opened) (λ e w. tt)
            (λ r u answers.
              continue_or_break-Fetched session _ _ r u answers (attempts-Fetched rest)))

  -- A call that succeeds returns a response together with the session that fetched it.
  abbrev pub Paired : Result (S × R) × AuthState S W → Type 0
  Paired (ok (session, r), t) =
      (t.session ≡ some session) × ((w : W) × (request session w ≡ (ok r, t.world)))
  Paired (err e, t) = Unit

  pair_with-Paired :
      (o : Option S) (r : R) (t : AuthState S W)
      → t.session ≡ o
      → Fetched (ok (some r), t)
      → Paired (pair_with clock backoff login request unauthorized o r t)
  unfolding pair_with
  pair_with-Paired none r t e h = tt
  pair_with-Paired (some session) r t e (session', (held, (w, asked))) = (e, (w, cc))

  settled-Paired :
      (o : Option R) (t : AuthState S W)
      → Fetched (ok o, t)
      → Paired (settled clock backoff login request unauthorized o t)
  unfolding settled
  settled-Paired none t h = tt
  settled-Paired (some r) t h = pair_with-Paired t.session r t refl h

  -- The response that a successful call hands to the decryption was fetched by the last request it
  -- made, with the very session whose key is used and that stays in the state: a response is never
  -- decrypted under another login's key.
  pub exchange-Paired :
      (s : AuthState S W) → Paired (exchange clock backoff login request unauthorized s)
  unfolding exchange
  exchange-Paired s =
      continue_with_post Fetched Paired
        (attempts clock backoff login request unauthorized (0 ∷ 1 ∷ []) s) _
        (attempts-Fetched (0 ∷ 1 ∷ []) s) (λ e w. tt) settled-Paired

  and_false : (b : Bool) → b && false ≡ false
  and_false true = refl
  and_false false = refl

  last_response :
      (session : S) (t : AuthState S W) (q : Result R × W)
      → t.session ≡ some session
      → continue_with
          (continue_with
            (q.0, record t { world = q.1 })
            (λ r.
              continue_or_break clock backoff login request unauthorized
                (unauthorized r && false)
                (attempts clock backoff login request unauthorized [])
                r))
          (settled clock backoff login request unauthorized)
        ≡ continue_with (q.0, record t { world = q.1 }) (λ r. pure (session, r))
  unfolding attempts settled
  last_response session t (ok r, w) e = rw and_false (rw e refl)
  last_response session t (err x, w) e = refl

  last_attempt :
      (p : Result S × AuthState S W)
      → Opened p
      → continue_with
          (continue_with p (λ session. on_world (request session) >>= λ r.
            continue_or_break clock backoff login request unauthorized
              (unauthorized r && false)
              (attempts clock backoff login request unauthorized [])
              r))
          (settled clock backoff login request unauthorized)
        ≡ continue_with p (λ session. on_world (request session) >>= λ r. pure (session, r))
  last_attempt (ok session, t) e = last_response session t (request session t.world) e
  last_attempt (err x, t) e = refl

  -- A 401 on a session in use drops it and makes the second attempt: a new login, unless the
  -- backoff forbids it, and one more request. That attempt's response stands, whatever its status.
  pub exchange_renews :
      (session : S) (failed_at : Option ℕ) (w w1 : W) (r : R)
      → request session w ≡ (ok r, w1)
      → unauthorized r ≡ true
      → exchange clock backoff login request unauthorized
          (record { session = some session; failed_at = failed_at; world = w })
        ≡ (do
          new ← start_session clock backoff login request unauthorized
          again ← on_world (request new)
          pure (new, again))
            (record { session = none; failed_at = failed_at; world = w1 })
  unfolding exchange
  exchange_renews session failed_at w w1 r asked refused =
      rw (asked, refused)
        (last_attempt _ (
          session_of-Opened none (record { session = none; failed_at = failed_at; world = w1 })
            refl))

  -- A session that still works is used as it is: one request, no login, no prompt.
  pub exchange_reuses :
      (session : S) (failed_at : Option ℕ) (w w1 : W) (r : R)
      → request session w ≡ (ok r, w1)
      → unauthorized r ≡ false
      → exchange clock backoff login request unauthorized
          (record { session = some session; failed_at = failed_at; world = w })
        ≡ (ok (session, r), record { session = some session; failed_at = failed_at; world = w1 })
  unfolding exchange
  exchange_reuses session failed_at w w1 r asked fine = rw (asked, fine) refl
