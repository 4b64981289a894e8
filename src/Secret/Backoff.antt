-- ===== src/Secret/Backoff.antt =====
-- src/secret_source.rs: `check_login_backoff`.
use tapwarden.Base.{
  ℕ, ◌-◌, ◌≤◌, ◌<◌, ◌≡◌, ◌↔◌, refl, max, Option, none, some, [], ◌∷◌, ◌++◌, text, decimal, ok, err,
  Error, arith, ◌==◌, if◌then◌else◌,
}
use tapwarden.Base.Action.{Action}
use tapwarden.Base.Time.{Clock, as_secs, from_secs}

abbrev pub login_retry_backoff : ℕ
login_retry_backoff = from_secs 30

unfoldable pub backoff_error : ℕ → Error
backoff_error wait =
    (text "the last backend login failed; retrying in "
      ++ decimal (max (as_secs wait) 1)
      ++ text "s")
    ∷ []

module _ {W : Type 0} (clock : Clock W) where
  -- `failed_at.map_or(ZERO, |at| backoff.saturating_sub(at.elapsed()))`: the clock is read only if
  -- a login has failed.
  unfoldable pub wait_left : Option ℕ → ℕ → W → ℕ × W
  wait_left none backoff w = (0, w)
  wait_left (some at) backoff w = let (now, w') = clock.instant w in (backoff - (now - at), w')

  unfoldable pub check_login_backoff : Option ℕ → ℕ → Action W (Unit {0})
  unfolding wait_left backoff_error
  check_login_backoff failed_at backoff w =
      let (wait, w') = wait_left failed_at backoff w in
      (if wait == 0 then ok tt else err (backoff_error wait), w')

  -- Without a failed login the check passes and reads nothing.
  pub check_login_backoff_fresh :
      (backoff : ℕ) (w : W) → check_login_backoff none backoff w ≡ (ok tt, w)
  unfolding check_login_backoff
  check_login_backoff_fresh backoff w = refl

  -- The check passes exactly when the whole backoff has gone by since the failed login.
  pub check_login_backoff_iff :
      (at backoff : ℕ) (w : W)
      → ((check_login_backoff (some at) backoff w).0 ≡ ok tt) ↔ (backoff ≤ (clock.instant w).0 - at)
  unfolding check_login_backoff
  check_login_backoff_iff at backoff w = (λ h. ground arith, λ h. ground arith)

  pub check_login_backoff_waiting :
      (at backoff : ℕ) (w : W)
      → (clock.instant w).0 - at < backoff
      → check_login_backoff (some at) backoff w
        ≡ (err (backoff_error (backoff - ((clock.instant w).0 - at))), (clock.instant w).1)
  unfolding check_login_backoff
  check_login_backoff_waiting at backoff w h = ground arith
