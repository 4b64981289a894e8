-- ===== src/Secret/Session/Calls.antt =====
-- How often `get` logs in and sends a request, and which session its response belongs to.
use tapwarden.Base.{
  ℕ, ◌+◌, ◌*◌, ◌≤◌, Bool, true, false, Option, none, some, List, [], ◌∷◌, Result, ok, err, arith,
  length,
}
use tapwarden.Base.Action.{Action, continue_with_cost}
use tapwarden.Base.Time.{Clock}
use tapwarden.Secret.Backoff.{check_login_backoff}
use tapwarden.Secret.Session.{
  AuthState, on_world, after_login, session_of, continue_or_break, attempts, settled, exchange,
}

module _ {S W R : Type 0} (clock : Clock W) (backoff : ℕ) (login : Action W S)
    (request : S → Action W R) (unauthorized : R → Bool) where
  -- What a counter of calls may do: reading the clock is free, a login counts at most `a`, and a
  -- request at most `b`.
  pub record IsCounter (calls : W → ℕ) (a b : ℕ) : Type 0 where
    pub clock_free : (w : W) → calls (clock.instant w).1 ≤ calls w
    pub login_counts : (w : W) → calls (login w).1 ≤ calls w + a
    pub request_counts : (session : S) (w : W) → calls (request session w).1 ≤ calls w + b

  module _ (calls : W → ℕ) (a b : ℕ) (counter : IsCounter calls a b) where
    abbrev count : AuthState S W → ℕ
    count s = calls s.world

    check_cost :
        (failed_at : Option ℕ) (w : W)
        → calls (check_login_backoff clock failed_at backoff w).1 ≤ calls w
    unfolding check_login_backoff
    check_cost none w = omega arith
    check_cost (some at) w = counter.clock_free w

    after_login_cost :
        (p : Result S × W)
        → count (after_login clock backoff login request unauthorized p).1 ≤ calls p.1
    unfolding after_login
    after_login_cost (ok session, w) = omega arith
    after_login_cost (err e, w) = counter.clock_free w

    session_of_cost :
        (o : Option S) (s : AuthState S W)
        → count (session_of clock backoff login request unauthorized o s).1 ≤ count s + a
    unfolding session_of
    session_of_cost (some session) s = omega arith
    session_of_cost none s =
        continue_with_cost count (count s) a _
          (on_world (check_login_backoff clock s.failed_at backoff) s) _ (omega arith)
          (check_cost s.failed_at s.world)
          (λ u t. omega (arith, after_login_cost (login t.world), counter.login_counts t.world))

    continue_or_break_cost :
        (again : Bool) (next : Action (AuthState S W) (Option R)) (r : R) (s : AuthState S W)
        (n : ℕ)
        → ((t : AuthState S W) → count (next t).1 ≤ count t + n)
        → count (continue_or_break clock backoff login request unauthorized again next r s).1
          ≤ count s + n
    unfolding continue_or_break
    continue_or_break_cost true next r s n h = h _
    continue_or_break_cost false next r s n h = omega arith

    attempts_cost :
        (l : List ℕ) (s : AuthState S W)
        → count (attempts clock backoff login request unauthorized l s).1
          ≤ count s + length l * (a + b)
    unfolding attempts
    attempts_cost [] s = omega arith
    attempts_cost (attempt ∷ rest) s =
        continue_with_cost count (count s + a) (b + length rest * (a + b)) _
          (session_of clock backoff login request unauthorized s.session s) _ (omega arith)
          (session_of_cost s.session s)
          (λ session t.
            continue_with_cost count (count t + b) (length rest * (a + b)) _
              (on_world (request session) t) _ (omega arith)
              (counter.request_counts session t.world)
              (λ fetched u.
                continue_or_break_cost _ (attempts clock backoff login request unauthorized rest)
                  fetched u _ (attempts_cost rest)))

    settled_cost :
        (o : Option R) (s : AuthState S W)
        → count (settled clock backoff login request unauthorized o s).1 ≤ count s + 0
    unfolding settled
    settled_cost none s = omega arith
    settled_cost (some r) s = ground arith

    -- A call of `get` logs in at most twice and sends at most two requests, whatever the server
    -- answers: with any counter that a login raises by at most `a` and a request by at most `b`,
    -- the count rises by at most twice their sum.
    pub exchange_bounded :
        (s : AuthState S W)
        → calls (exchange clock backoff login request unauthorized s).1.world
          ≤ calls s.world + 2 * (a + b)
    unfolding exchange
    exchange_bounded s =
        continue_with_cost count (count s + 2 * (a + b)) 0 _
          (attempts clock backoff login request unauthorized (0 ∷ 1 ∷ []) s) _ (omega arith)
          (attempts_cost (0 ∷ 1 ∷ []) s) settled_cost
