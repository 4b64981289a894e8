-- ===== src/Secret/Unlock.antt =====
-- src/secret_source.rs and src/vaultwarden.rs: the question that both fetchers put to the gate before
-- they read the keychain.
use tapwarden.Base.{
  ◌≡◌, ◌≢◌, refl, Bool, true, false, not, Result, ok, err, Error, message, context, bail_if,
}
use tapwarden.Base.Action.{Action}
use tapwarden.Authorizer.{AuthContext, Authorizer}

module _ {W : Type 0} (gate : Authorizer W) where
  abbrev verdict_of : Result Bool × W → Result (Unit {0}) × W
  verdict_of (ok approved, w) =
      (bail_if (not approved) (message "credential unlock denied — the keychain was not read"), w)
  verdict_of (err e, w) =
      (context "failed to evaluate the credential-unlock authorization" (err e), w)

  unfoldable pub unlock_gate : AuthContext → Action W (Unit {0})
  unlock_gate ctx w = verdict_of (gate.approve ctx w)

  verdict_denied :
      (p : Result Bool × W) → p.0 ≢ ok true → (e : Error) × (verdict_of p ≡ (err e, p.1))
  verdict_denied (ok true, w) h = absurd (h refl)
  verdict_denied (ok false, w) h =
      (message "credential unlock denied — the keychain was not read", refl)
  verdict_denied (err e, w) h = (_, refl)

  -- Without a yes the question is an error, and the prompt is all that has happened.
  pub unlock_gate_denied :
      (ctx : AuthContext) (w : W)
      → (gate.approve ctx w).0 ≢ ok true
      → (e : Error) × (unlock_gate ctx w ≡ (err e, (gate.approve ctx w).1))
  unfolding unlock_gate
  unlock_gate_denied ctx w h = verdict_denied (gate.approve ctx w) h

  pub unlock_gate_approved :
      (ctx : AuthContext) (w : W)
      → (gate.approve ctx w).0 ≡ ok true
      → unlock_gate ctx w ≡ (ok tt, (gate.approve ctx w).1)
  unfolding unlock_gate
  unlock_gate_approved ctx w h = go (gate.approve ctx w) h
    where
      go : (p : Result Bool × W) → p.0 ≡ ok true → verdict_of p ≡ (ok tt, p.1)
      go (ok true, w') e = refl
      go (ok false, w') e = cc
      go (err x, w') e = cc
