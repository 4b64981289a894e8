-- ===== src/Authorizer/Grace/Spec.antt =====
-- What a `Grace` authorizer promises, without its map and its test of the clocks: each key has at most one
-- window, which an approved prompt opens; a request inside it is granted, and every other request is the
-- inner authorizer's.
use tapwarden.Base.{
  ℕ, ◌≡◌, ◌≢◌, inl, inr, refl, sym, subst, Bool, true, false, Option, none, some, List, [], ◌∷◌,
  Text, text_key, Result, ok, err, Bool-cases, if◌then◌else◌,
}
use tapwarden.Base.Map.{get, get-insert}
use tapwarden.Base.Time.{Clock}
use tapwarden.Authorizer.Defs.{AuthContext, sign, unlock_credentials, Authorizer}
use tapwarden.Authorizer.Grace.{Approval, GraceState, now, within_window, remember, approve}
use tapwarden.Authorizer.Grace.Laws.{
  reading_instant, reading_wall, after_readings, CoversAt, before_prompt, within_window_hit,
  elapsed_within_iff, signature_hit, signature_miss,
}

-- The windows by key, and the world.
pub record Windows (W : Type 0) : Type 0 where
  pub opened : Text → Option Approval
  pub world : W

abbrev pub open_window : Text → Approval → (Text → Option Approval) → Text → Option Approval
open_window f a opened g = if text_key.beq f g then some a else opened g

module _ {W : Type 0} (clock : Clock W) (inner : Authorizer W) (window : ℕ) where
  -- No window is open in the world `w`, and the look at it leads to the world `v`: without a window
  -- nothing is read, and with one that is over both clocks are.
  abbrev pub Closed : Option Approval → W → W → Type 0
  Closed none w v = v ≡ w
  Closed (some a) w v = (¬ CoversAt clock a window w) × (v ≡ after_readings clock w)

  -- What may come of one request: its answer, and the windows and the world after it.
  pub data Promise : AuthContext → Windows W → Result Bool → Windows W → Type 0 where
    -- both clocks are inside the window of the key
    covered :
        {c f : Text} {r : Option Text} {s : Windows W} (a : Approval)
        → s.opened f ≡ some a
        → CoversAt clock a window s.world
        → Promise
            (sign c f r)
            s
            (ok true)
            (record { opened = s.opened; world = after_readings clock s.world })
    -- the user says yes, which opens the key's window at the readings right after
    approved :
        {c f : Text} {r : Option Text} {s : Windows W} (v w : W)
        → Closed (s.opened f) s.world v
        → inner.approve (sign c f r) v ≡ (ok true, w)
        → Promise (sign c f r) s (ok true) (record {
          opened =
              open_window f
                (record { instant = reading_instant clock w; wall = reading_wall clock w })
                s.opened;
          world = after_readings clock w;
        })
    -- a no or an error, which opens none
    refused :
        {c f : Text} {r : Option Text} {s : Windows W} (v w : W) (answer : Result Bool)
        → Closed (s.opened f) s.world v
        → inner.approve (sign c f r) v ≡ (answer, w)
        → answer ≢ ok true
        → Promise (sign c f r) s answer (record { opened = s.opened; world = w })
    -- an unlock is always asked, and opens none
    unlocked :
        {reason : Text} {s : Windows W} (w : W) (answer : Result Bool)
        → inner.approve (unlock_credentials reason) s.world ≡ (answer, w)
        → Promise (unlock_credentials reason) s answer (record { opened = s.opened; world = w })

  -- The windows that a state of the implementation stands for: the order of its map, and how it came to
  -- be, are forgotten.
  abbrev pub windows : GraceState W → Windows W
  windows s = record { opened = λ f. get f s.last; world = s.world }

  missed :
      (o : Option Approval) (w : W)
      → (within_window clock o window w).0 ≡ false
      → Closed o w (within_window clock o window w).1
  unfolding within_window
  missed none w h = refl
  missed (some a) w h = (λ c. absurd (cc (h, (elapsed_within_iff a window _ _).1 c)), refl)

  looked :
      (a : Approval) (o : Option Approval) (w : W)
      → o ≡ some a
      → (within_window clock o window w).1 ≡ after_readings clock w
  unfolding within_window
  looked a o w e = rw e refl

  remembered :
      (c f : Text) (r : Option Text) (s : GraceState W) (v : W) (p : Result Bool × W)
      → Closed (get f s.last) s.world v
      → inner.approve (sign c f r) v ≡ p
      → Promise
          (sign c f r)
          (windows s)
          (remember clock inner window f s.last p).0
          (windows (remember clock inner window f s.last p).1)
  unfolding remember
  remembered c f r s v (ok true, w) closed e =
      subst
        (λ o.
          Promise (sign c f r) (windows s) (ok true)
            (record { opened = o; world = (now clock w).1 }))
        (λ i g. sym (get-insert f g (now clock w).0 s.last) i) (Promise.approved v w closed e)
  remembered c f r s v (ok false, w) closed e = Promise.refused v w (ok false) closed e (λ x. cc)
  remembered c f r s v (err x, w) closed e = Promise.refused v w (err x) closed e (λ y. cc)

  approve-Promise :
      (ctx : AuthContext) (s : GraceState W)
      → Promise ctx
          (windows s)
          (approve clock inner window ctx s).0
          (windows (approve clock inner window ctx s).1)
  approve-Promise (unlock_credentials reason) s =
      unfold approve in
      Promise.unlocked (inner.approve (unlock_credentials reason) s.world).1
        (inner.approve (unlock_credentials reason) s.world).0 refl
  approve-Promise (sign c f r) s =
      elim (Bool-cases (within_window clock (get f s.last) window s.world).0) [
        | inl hit ↦
            let (a, found, covers) = within_window_hit clock (get f s.last) window s.world hit in
            rw (signature_hit clock inner window c f r s hit, looked a (get f s.last) s.world found)
              (Promise.covered a found covers)
        | inr miss ↦ rw (signature_miss clock inner window c f r s miss) (
            remembered c f r s (before_prompt clock inner window f s) _
              (missed (get f s.last) s.world miss) refl)
      ]

  -- A sequence of requests, with the answers; before each of them the world changes by some step.
  abbrev pub approve_all :
      List ((W → W) × AuthContext) → GraceState W → List (Result Bool) × GraceState W
  approve_all [] s = ([], s)
  approve_all ((step, ctx) ∷ rest) s =
      let (r, s1) =
        approve clock inner window ctx (record { last = s.last; world = step s.world }) in
      let (rs, s2) = approve_all rest s1 in (r ∷ rs, s2)

  pub data Promises
      : List ((W → W) × AuthContext) → Windows W → List (Result Bool) → Windows W → Type 0 where
    done : {s : Windows W} → Promises [] s [] s
    next :
        {step : W → W} {ctx : AuthContext} {rest : List ((W → W) × AuthContext)} {s t u : Windows W}
        {answer : Result Bool} {answers : List (Result Bool)}
        → Promise ctx (record { opened = s.opened; world = step s.world }) answer t
        → Promises rest t answers u
        → Promises ((step, ctx) ∷ rest) s (answer ∷ answers) u

  -- The authorizer implements its specification: whatever requests arrive, in whatever order, and
  -- whatever the world does between them, all answers, all that happens to the world and the windows at
  -- the end are what the specification allows. It has one window for each key; a request for a
  -- signature is granted without a prompt only while both clocks are less than the window past the
  -- approval that opened that key's; otherwise the inner authorizer answers, and only its yes to a
  -- signature opens a window.
  pub approve_all-Promises :
      (requests : List ((W → W) × AuthContext)) (s : GraceState W)
      → Promises requests
          (windows s)
          (approve_all requests s).0
          (windows (approve_all requests s).1)
  approve_all-Promises [] s = Promises.done
  approve_all-Promises ((step, ctx) ∷ rest) s =
      let s0 : GraceState W = record { last = s.last; world = step s.world } in
      Promises.next (approve-Promise ctx s0)
        (approve_all-Promises rest (approve clock inner window ctx s0).1)
