-- ===== src/Authorizer/Biometric.antt =====
-- src/authorizer.rs: `Biometric` and `await_verdict`. The framework (robius-authentication) and the
-- channel that carries its answer are calls on the world; its error type is a parameter, with the
-- test for the two variants that mean a refusal and its debug text. A panic of the prompt's task
-- is not modelled.
use tapwarden.Base.{
  ℕ, ◌≡◌, ◌↔◌, ◌≢◌, ap, refl, Bool, true, false, Option, none, some, [], ◌∷◌, ◌++◌, Text, text,
  decimal, Result, ok, err, context, message, arith, if◌then◌else◌,
}
use tapwarden.Base.Action.{Action, map_result}
use tapwarden.Base.Time.{from_secs, as_secs}
use tapwarden.Authorizer.Defs.{AuthContext, Authorizer, prompt_reason}

abbrev pub biometric_prompt_timeout : ℕ
biometric_prompt_timeout = from_secs 120

-- What `recv_timeout` gives.
pub data Received (E : Type 0) : Type 0 where
  accepted : Received E
  refused : E → Received E
  disconnected : Received E
  timed_out : Received E

pub record BiometricHost (E W : Type 0) : Type 0 where
  -- whether the policy can be built
  pub supported : W → Bool × W
  -- `authenticate`: raises the prompt, or says why it could not
  pub raise : Text → W → Option E × W
  -- `recv_timeout`
  pub receive : ℕ → W → Received E × W

-- The probe builds the policy that the prompt uses, and never raises it.
unfoldable pub biometrics_available : {E W : Type 0} → BiometricHost E W → W → Bool × W
biometrics_available host w = host.supported w

module _ {E : Type 0} (is_denial : E → Bool) (debug : E → Text) where
  unfoldable pub await_verdict : Received E → ℕ → Result Bool
  await_verdict accepted timeout = ok true
  await_verdict (refused e) timeout =
      if is_denial e
      then ok false
      else err ((text "biometric authentication failed: " ++ debug e) ∷ [])
  await_verdict disconnected timeout = err (message "the biometric prompt ended without a verdict")
  await_verdict timed_out timeout = err (
      (text "the biometric prompt timed out after "
        ++ decimal (as_secs timeout)
        ++ text "s without a verdict")
      ∷ [])

  module _ {W : Type 0} (host : BiometricHost E W) where
    unfoldable pub await_prompt : Option E × W → Result Bool × W
    unfolding await_verdict
    await_prompt (some e, w) =
        (err ((text "could not raise the biometric prompt: " ++ debug e) ∷ []), w)
    await_prompt (none, w) =
        let (r, w') = host.receive biometric_prompt_timeout w in
        (await_verdict r biometric_prompt_timeout, w')

    unfoldable pub prompt : Text → Action W Bool
    unfolding await_prompt
    prompt reason w =
        let (supported, w1) = host.supported w in
        if supported
        then await_prompt (host.raise reason w1)
        else (err (message "biometric policy not supported on this platform"), w1)

    unfoldable pub approve : AuthContext → Action W Bool
    unfolding prompt prompt_reason
    approve ctx =
        map_result (context "failed to evaluate biometric authorization")
          (prompt (prompt_reason ctx))

    abbrev pub biometric : Authorizer W
    biometric = record { approve = approve }

    answer_of : Bool → Option E × W → Option (Received E)
    answer_of supported (some e, w) = none
    answer_of supported (none, w) =
        if supported then some (host.receive biometric_prompt_timeout w).0 else none

    -- What the framework answered to the prompt for `ctx`, if the prompt went up.
    unfoldable pub answer : AuthContext → W → Option (Received E)
    unfolding answer_of
    answer ctx w =
        let (supported, w1) = host.supported w in
        answer_of supported (host.raise (prompt_reason ctx) w1)

    await_verdict_denied :
        (r : Received E) (timeout : ℕ)
        → await_verdict r timeout ≡ ok false
        → (e : E) × (r ≡ refused e) × (is_denial e ≡ true)
    unfolding await_verdict
    await_verdict_denied accepted timeout h = cc
    await_verdict_denied (refused e) timeout h = (e, refl, ground arith)
    await_verdict_denied disconnected timeout h = cc
    await_verdict_denied timed_out timeout h = cc

    prompt_denied :
        (supported : Bool) (p : Option E × W) (none_up : Result Bool × W)
        → none_up.0 ≢ ok false
        → context "failed to evaluate biometric authorization"
            (if supported then await_prompt p else none_up).0
          ≡ ok false
        → (e : E) × (answer_of supported p ≡ some (refused e)) × (is_denial e ≡ true)
    unfolding await_prompt answer_of
    prompt_denied true (none, w) n g h =
        let (e, r, d) =
          await_verdict_denied (host.receive biometric_prompt_timeout w).0 biometric_prompt_timeout
            (ground arith) in
        (e, ap some r, d)
    prompt_denied true (some e, w) n g h = cc
    prompt_denied false p n g h = absurd (g (ground arith))

    -- The gate opens exactly when a prompt went up and the framework accepted. It denies exactly
    -- when the framework reports a refusal. A prompt that could not be raised, that timed out or
    -- whose reply was dropped does neither: it is an error.
    pub biometric_approve_iff :
        (ctx : AuthContext) (w : W)
        → (((approve ctx w).0 ≡ ok true) ↔ (answer ctx w ≡ some accepted))
          × (((approve ctx w).0 ≡ ok false)
              ↔ ((e : E) × (answer ctx w ≡ some (refused e)) × (is_denial e ≡ true)))
    unfolding prompt approve answer
    biometric_approve_iff ctx w = (
      (λ h. ground arith, λ h. ground arith),
      (λ h. prompt_denied (host.supported w).0 _ _ (λ e. cc) h, λ (e, a, d). ground arith),
    )
