-- ===== src/Authorizer/Grace.antt =====
-- src/authorizer.rs: `Approval` and the `Grace` authorizer. Durations and instants
-- are whole nanoseconds.
pub mod Laws
pub mod History
pub mod Spec
use tapwarden.Base.{
  ℕ, ◌-◌, Bool, true, false, ◌&&◌, Option, none, some, List, Text, text_key, Result, ok, err, ltb,
  leb, if◌then◌else◌,
}
use tapwarden.Base.Map.{get, insert}
use tapwarden.Base.Action.{Action}
use tapwarden.Base.Time.{Clock}
use tapwarden.Authorizer.Defs.{AuthContext, sign, unlock_credentials, Authorizer}

pub record Approval : Type 0 where
  pub instant : ℕ
  pub wall : ℕ

-- `Instant::elapsed` stops at zero; `SystemTime::elapsed` fails if the clock went backwards.
unfoldable pub wall_elapsed : ℕ → ℕ → Option ℕ
wall_elapsed since now = if leb since now then some (now - since) else none

unfoldable pub wall_inside : Option ℕ → ℕ → Bool
wall_inside none window = false
wall_inside (some elapsed) window = ltb elapsed window

unfoldable pub elapsed_within : ℕ → Option ℕ → ℕ → Bool
unfolding wall_inside
elapsed_within monotonic wall window = ltb monotonic window && wall_inside wall window

-- The `last` map, with the world that the inner authorizer and the clocks act on.
pub record GraceState (W : Type 0) : Type 0 where
  pub last : List (Text × Approval)
  pub world : W

module _ {W : Type 0} (clock : Clock W) where
  -- `Approval::now`
  unfoldable pub now : W → Approval × W
  now w =
      let (i, w1) = clock.instant w in
      let (t, w2) = clock.wall w1 in (record { instant = i; wall = t }, w2)

  -- `Approval::within`
  unfoldable pub within : Approval → ℕ → W → Bool × W
  within a window w =
      let (i, w1) = clock.instant w in
      let (t, w2) = clock.wall w1 in
      (elapsed_within (i - a.instant) (wall_elapsed a.wall t) window, w2)

  -- `.get(fingerprint).is_some_and(|approval| approval.within(window))`
  unfoldable pub within_window : Option Approval → ℕ → W → Bool × W
  unfolding within
  within_window none window w = (false, w)
  within_window (some a) window w = within a window w

  module _ (inner : Authorizer W) (window : ℕ) where
    -- After the window check has failed: ask, and remember an approval.
    unfoldable pub remember :
        Text → List (Text × Approval) → Result Bool × W → Result Bool × GraceState W
    unfolding now insert
    remember fingerprint last (ok true, w) =
        let (a, w') = now w in (ok true, record { last = insert fingerprint a last; world = w' })
    remember fingerprint last (ok false, w) = (ok false, record { last = last; world = w })
    remember fingerprint last (err e, w) = (err e, record { last = last; world = w })

    unfoldable pub approve_signature : AuthContext → Text → Action (GraceState W) Bool
    unfolding within_window remember get
    approve_signature ctx fingerprint s =
        let (hit, w1) = within_window (get fingerprint s.last) window s.world in
        if hit
        then (ok true, record { last = s.last; world = w1 })
        else remember fingerprint s.last (inner.approve ctx w1)

    unfoldable pub approve : AuthContext → Action (GraceState W) Bool
    unfolding approve_signature
    approve (sign comment fingerprint requester) s =
        approve_signature (sign comment fingerprint requester) fingerprint s
    approve (unlock_credentials reason) s =
        let (r, w') = inner.approve (unlock_credentials reason) s.world in
        (r, record { last = s.last; world = w' })

    -- `Box<dyn Authorizer>` of a `Grace`.
    abbrev pub grace : Authorizer (GraceState W)
    grace = record { approve = approve }
