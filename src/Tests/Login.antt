-- ===== src/Tests/Login.antt =====
-- src/secret_source.rs at concrete inputs: a world is a clock's reading, and a call takes one
-- nanosecond.
use tapwarden.Base.{ℕ, ◌+◌, ◌*◌, ◌-◌, ◌≤◌, ◌≡◌, refl, Bool, none, some, [], ok, err, arith, ◌==◌}
use tapwarden.Base.Action.{Action, ◌>>=◌, pure}
use tapwarden.Base.Time.{Clock}
use tapwarden.Secret.Backoff.{backoff_error, check_login_backoff}
use tapwarden.Secret.Session.{AuthState, on_world, start_session, exchange}
use tapwarden.Secret.Session.Laws.{exchange_after_failure}
use tapwarden.Secret.Session.Calls.{IsCounter, exchange_bounded}
use tapwarden.Secret.Session.Renewal.{exchange_renews}

abbrev clock : Clock ℕ
clock = record { instant = λ w. (w, w); wall = λ w. (w, w) }

-- A login that always works, one that never does, and a server that answers with a fixed status.
abbrev log_in : Action ℕ ℕ
log_in w = (ok 7, w + 1)

abbrev broken : Action ℕ ℕ
broken w = (err [], w + 1)

abbrev answers : ℕ → ℕ → Action ℕ ℕ
answers status session w = (ok status, w + 1)

abbrev is_401 : ℕ → Bool
is_401 r = r == 401

abbrev empty_at : ℕ → AuthState ℕ ℕ
empty_at w = record { session = none; failed_at = none; world = w }

exchange_after_failure_example :
    ((exchange clock 30 broken (answers 200) is_401 (empty_at 3)).0 ≡ err [])
    × (exchange clock 30 broken
          (answers 200)
          is_401
          (record (exchange clock 30 broken (answers 200) is_401 (empty_at 3)).1 { world = 20 })
        ≡ (
          err (backoff_error (30 - (20 - 4))),
          record (record (exchange clock 30 broken (answers 200) is_401 (empty_at 3)).1 {
            world = 20;
          }) { world = 20 },
        ))
unfolding check_login_backoff
exchange_after_failure_example =
    exchange_after_failure clock 30 broken (answers 200) is_401 none 3 3 4 20 [] refl refl
      (omega arith)

-- The clock's reading counts the calls.
one_each : IsCounter clock 30 log_in (answers 401) is_401 (λ w. w) 1 1
one_each = record {
  clock_free = λ w. omega arith;
  login_counts = λ w. omega arith;
  request_counts = λ session w. omega arith;
}

exchange_bounded_example :
    (exchange clock 30 log_in (answers 401) is_401 (empty_at 3)).1.world ≤ 3 + 2 * (1 + 1)
exchange_bounded_example =
    exchange_bounded clock 30 log_in (answers 401) is_401 (λ w. w) 1 1 one_each (empty_at 3)

exchange_renews_example :
    exchange clock 30 log_in
      (answers 401)
      is_401
      (record { session = some 2; failed_at = none; world = 3 })
    ≡ (start_session clock 30 log_in (answers 401) is_401 >>= λ new.
          on_world (answers 401 new) >>= λ again. pure (new, again))
        (empty_at 4)
exchange_renews_example =
    exchange_renews clock 30 log_in (answers 401) is_401 2 none 3 4 401 refl refl
