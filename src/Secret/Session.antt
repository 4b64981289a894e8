-- ===== src/Secret/Session.antt =====
-- src/secret_source.rs and src/vaultwarden.rs: the loop of `get` that both fetchers run over their
-- session. The state is what the mutex guards; its lock is held from the first line of `get` to the
-- last, so calls do not overlap. The credentials' source never changes and is part of `login`.
pub mod Laws
pub mod Calls
pub mod Renewal
use tapwarden.Base.{
  ℕ, Bool, true, false, ◌&&◌, Option, none, some, List, [], ◌∷◌, Result, ok, err, Error, message,
  ◌==◌, if◌then◌else◌,
}
use tapwarden.Base.Action.{Action, ◌>>=◌, ◌>>◌, pure, fail}
use tapwarden.Base.Time.{Clock}
use tapwarden.Secret.Backoff.{check_login_backoff}

pub record AuthState (S W : Type 0) : Type 0 where
  pub session : Option S
  pub failed_at : Option ℕ
  pub world : W

-- A call on the world that leaves the rest of the state alone.
abbrev pub on_world : {S W A : Type 0} → Action W A → Action (AuthState S W) A
on_world m s = let (r, w) = m s.world in (r, record s { world = w })

module _ {S W R : Type 0} (clock : Clock W) (backoff : ℕ) (login : Action W S)
    (request : S → Action W R) (unauthorized : R → Bool) where
  -- `match login`: keep the session, or note when the login failed.
  unfoldable pub after_login : Result S × W → Result S × AuthState S W
  after_login (ok session, w) =
      (ok session, record { session = some session; failed_at = none; world = w })
  after_login (err e, w) =
      let (now, w') = clock.instant w in
      (err e, record { session = none; failed_at = some now; world = w' })

  unfoldable pub start_session : Action (AuthState S W) S
  unfolding after_login
  start_session s =
      (on_world (check_login_backoff clock s.failed_at backoff)
          >> (λ t. after_login (login t.world)))
        s

  -- The session of this attempt: the current one, or a new one.
  unfoldable pub session_of : Option S → Action (AuthState S W) S
  unfolding start_session
  session_of (some session) s = (ok session, s)
  session_of none s = start_session s

  -- A 401 on the first attempt: drop the session and go on with the loop. Otherwise: leave it.
  unfoldable pub continue_or_break :
      Bool → Action (AuthState S W) (Option R) → R → Action (AuthState S W) (Option R)
  continue_or_break true next fetched s = next (record s { session = none })
  continue_or_break false next fetched s = (ok (some fetched), s)

  -- `for attempt in 0..2`
  unfoldable pub attempts : List ℕ → Action (AuthState S W) (Option R)
  unfolding session_of continue_or_break
  attempts [] s = (ok none, s)
  attempts (attempt ∷ rest) s =
      (do
        session ← session_of s.session
        fetched ← on_world (request session)
        continue_or_break (unauthorized fetched && attempt == 0) (attempts rest) fetched)
        s

  -- The two checks after the loop: a response, and the session that it is decoded with.
  unfoldable pub pair_with : Option S → R → Action (AuthState S W) (S × R)
  pair_with none response s = (err (message "no session established"), s)
  pair_with (some session) response s = (ok (session, response), s)

  unfoldable pub settled : Option R → Action (AuthState S W) (S × R)
  unfolding pair_with
  settled none s = (err (message "no session established"), s)
  settled (some response) s = pair_with s.session response s

  unfoldable pub exchange : Action (AuthState S W) (S × R)
  unfolding attempts settled
  exchange = attempts (0 ∷ 1 ∷ []) >>= settled
