-- ===== src/Authorizer/Grace/Laws.antt =====
-- What one call of `Grace::approve` does, on every branch.
use tapwarden.Base.{
  ℕ, ◌-◌, ◌≤◌, ◌<◌, ◌≡◌, ◌≢◌, ◌↔◌, ◌⊎◌, inl, inr, refl, ◌∙◌, ap, Bool, true, false, Option, none,
  some, List, Text, text_key, text_eq_iff, Result, ok, err, arith, Bool-cases,
}
use tapwarden.Base.Map.{get, get-insert}
use tapwarden.Base.Time.{Clock}
use tapwarden.Authorizer.Defs.{AuthContext, sign, unlock_credentials, Authorizer}
use tapwarden.Authorizer.Grace.{
  Approval, wall_elapsed, elapsed_within, GraceState, now, within_window, remember,
  approve_signature, approve,
}

-- At the readings `i` and `t` both clocks are less than `window` past the approval.
pub record Covers (a : Approval) (window i t : ℕ) : Type 0 where
  pub awake : i - a.instant < window
  pub forward : a.wall ≤ t
  pub recent : t - a.wall < window

-- The test of the window is exact: half-open on both clocks, and a wall clock that went back fails.
pub elapsed_within_iff :
    (a : Approval) (window i t : ℕ)
    → (elapsed_within (i - a.instant) (wall_elapsed a.wall t) window ≡ true) ↔ Covers a window i t
unfolding elapsed_within wall_elapsed
elapsed_within_iff a window i t = (λ h. ground arith, λ c. ground arith)

module _ {W : Type 0} (clock : Clock W) where
  -- The two readings of a window check that starts in `w`, and the world after them.
  abbrev pub reading_instant : W → ℕ
  reading_instant w = (clock.instant w).0

  abbrev pub reading_wall : W → ℕ
  reading_wall w = (clock.wall (clock.instant w).1).0

  abbrev pub after_readings : W → W
  after_readings w = (clock.wall (clock.instant w).1).1

  abbrev pub CoversAt : Approval → ℕ → W → Type 0
  CoversAt a window w = Covers a window (reading_instant w) (reading_wall w)

  pub within_window_hit :
      (o : Option Approval) (window : ℕ) (w : W)
      → (within_window clock o window w).0 ≡ true
      → (a : Approval) × (o ≡ some a) × CoversAt a window w
  unfolding within_window
  within_window_hit none window w h = cc
  within_window_hit (some a) window w h = (a, refl, (elapsed_within_iff a window _ _).0 h)

  module _ (inner : Authorizer W) (window : ℕ) where
    -- The world in which the inner authorizer is asked about `fingerprint`.
    abbrev pub before_prompt : Text → GraceState W → W
    before_prompt fingerprint s = (within_window clock (get fingerprint s.last) window s.world).1

    remember_last :
        (f : Text) (last : List (Text × Approval)) (p : Result Bool × W)
        → p.0 ≢ ok true
        → (remember clock inner window f last p).1.last ≡ last
    unfolding remember
    remember_last f last (ok true, w) h = absurd (h refl)
    remember_last f last (ok false, w) h = refl
    remember_last f last (err e, w) h = refl

    remember_result :
        (f : Text) (last : List (Text × Approval)) (p : Result Bool × W)
        → (remember clock inner window f last p).0 ≡ p.0
    unfolding remember
    remember_result f last (ok true, w) = refl
    remember_result f last (ok false, w) = refl
    remember_result f last (err e, w) = refl

    remember_others :
        (f g : Text) (last : List (Text × Approval)) (p : Result Bool × W)
        → g ≢ f
        → get g (remember clock inner window f last p).1.last ≡ get g last
    unfolding remember
    remember_others f g last (ok true, w) h =
        ground (arith, text_eq_iff f g, get-insert f g (now clock w).0 last)
    remember_others f g last (ok false, w) h = refl
    remember_others f g last (err e, w) h = refl

    pub signature_hit :
        (c f : Text) (r : Option Text) (s : GraceState W)
        → (within_window clock (get f s.last) window s.world).0 ≡ true
        → approve clock inner window (sign c f r) s
          ≡ (ok true, record { last = s.last; world = before_prompt f s })
    unfolding approve_signature approve
    signature_hit c f r s hit = rw hit

    pub signature_miss :
        (c f : Text) (r : Option Text) (s : GraceState W)
        → (within_window clock (get f s.last) window s.world).0 ≡ false
        → approve clock inner window (sign c f r) s
          ≡ remember clock inner window f s.last (inner.approve (sign c f r) (before_prompt f s))
    unfolding approve_signature approve
    signature_miss c f r s miss = rw miss

    -- A signature is approved only in one of two ways: without a prompt, by an approval of the
    -- same fingerprint that both clocks still cover, and then nothing is remembered; or because
    -- the inner authorizer said yes to this very request.
    pub approve_justified :
        (c f : Text) (r : Option Text) (s : GraceState W)
        → (approve clock inner window (sign c f r) s).0 ≡ ok true
        → ((a : Approval) × (get f s.last ≡ some a)
            × CoversAt a window s.world
            × ((approve clock inner window (sign c f r) s).1.last ≡ s.last))
          ⊎ ((inner.approve (sign c f r) (before_prompt f s)).0 ≡ ok true)
    approve_justified c f r s h =
        elim (Bool-cases (within_window clock (get f s.last) window s.world).0) [
          | inl hit ↦
              let (a, found, covers) = within_window_hit (get f s.last) window s.world hit in
              inl (a, found, covers, rw (signature_hit c f r s hit) refl)
          | inr miss ↦ inr (rw (signature_miss c f r s miss, remember_result f s.last _) at h)
        ]

    -- A denial or an error is never remembered, and an unlock is not remembered whatever its
    -- outcome: what the windows hold is what they held before.
    pub approve_forgets :
        (ctx : AuthContext) (s : GraceState W)
        → ((approve clock inner window ctx s).0 ≢ ok true)
          ⊎ ((reason : Text) × (ctx ≡ unlock_credentials reason))
        → (approve clock inner window ctx s).1.last ≡ s.last
    unfolding approve
    approve_forgets (unlock_credentials reason) s h = refl
    approve_forgets (sign c f r) s (inr (reason, e)) = cc
    approve_forgets (sign c f r) s (inl h) =
        elim (Bool-cases (within_window clock (get f s.last) window s.world).0) [
          | inl hit ↦ rw (signature_hit c f r s hit) refl
          | inr miss ↦ rw (signature_miss c f r s miss) (
              remember_last f s.last _
                (λ e. h (rw (signature_miss c f r s miss, remember_result f s.last _) e)))
        ]

    -- Approving one key leaves the window of every other key as it was.
    pub approve_scoped :
        (c f g : Text) (r : Option Text) (s : GraceState W)
        → g ≢ f
        → get g (approve clock inner window (sign c f r) s).1.last ≡ get g s.last
    approve_scoped c f g r s ne =
        elim (Bool-cases (within_window clock (get f s.last) window s.world).0) [
          | inl hit ↦ rw (signature_hit c f r s hit) refl
          | inr miss ↦ rw (signature_miss c f r s miss) (remember_others f g s.last _ ne)
        ]

    -- While both clocks cover the key's last approval, the inner authorizer is not asked: the two
    -- readings are all that happens.
    pub approve_covered :
        (c f : Text) (r : Option Text) (s : GraceState W) (a : Approval)
        → get f s.last ≡ some a
        → CoversAt a window s.world
        → approve clock inner window (sign c f r) s
          ≡ (ok true, record { last = s.last; world = after_readings s.world })
    unfolding within_window
    approve_covered c f r s a found covers =
        let hit : (within_window clock (get f s.last) window s.world).0 ≡ true =
          rw found ((elapsed_within_iff a window _ _).1 covers) in
        let asked : before_prompt f s ≡ after_readings s.world =
          ap (λ o. (within_window clock o window s.world).1) found in
        signature_hit c f r s hit ∙ ap (λ w. (ok true, record { last = s.last; world = w })) asked

    -- Once either clock has left the window, or if there is no approval, the verdict is the inner
    -- authorizer's verdict on this very request.
    pub approve_expired :
        (c f : Text) (r : Option Text) (s : GraceState W)
        → ((a : Approval) → get f s.last ≡ some a → ¬ CoversAt a window s.world)
        → (approve clock inner window (sign c f r) s).0
          ≡ (inner.approve (sign c f r) (before_prompt f s)).0
    approve_expired c f r s expired =
        elim (Bool-cases (within_window clock (get f s.last) window s.world).0) [
          | inl hit ↦
              let (a, found, covers) = within_window_hit (get f s.last) window s.world hit in
              absurd (expired a found covers)
          | inr miss ↦ rw (signature_miss c f r s miss) (remember_result f s.last _)
        ]
