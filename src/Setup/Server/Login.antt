-- ===== src/Setup/Server/Login.antt =====
-- When the wizard's login succeeds, and how often it asks.
use tapwarden.Base.{
  ◌≡◌, ◌↔◌, refl, ap, sym, Bool, true, false, not, Option, none, some, List, Text, ok, Error, ◌⊎◌,
  inl, inr, bail_if, subst,
}
use tapwarden.Base.Action.{Action, continue_with_ok, lift}
use tapwarden.Setup.Terminal.{prompt}
use tapwarden.Setup.Server.{
  ServerHost, TokenSuccess, LoginOutcome, success, two_factor_required, offers_totp, totp_label,
  login_attempt, second_outcome, two_factor_login, after_attempt, password_login,
}

module _ {W : Type 0} (host : ServerHost W) (server_url email password_hash : Text) where
  abbrev attempt : Option Text → Action W LoginOutcome
  attempt totp = login_attempt host server_url email password_hash totp

  -- The login with a code: the server asked for a second factor and offered TOTP, the user gave a
  -- code, and the attempt with that code succeeded.
  pub record WithCode (token : TokenSuccess) (w w' : W) : Type 0 where
    pub providers : List Text
    pub code : Text
    pub asked : W
    pub given : W
    pub required : attempt none w ≡ (ok (two_factor_required providers), asked)
    pub totp : offers_totp providers ≡ true
    pub entered : prompt host.terminal totp_label asked ≡ (ok code, given)
    pub accepted : attempt (some code) given ≡ (ok (success token), w')

  offered : (b : Bool) (e : Error) (u : Unit {0}) → bail_if (not b) e ≡ ok u → b ≡ true
  offered true e u h = refl
  offered false e u h = cc

  second_ok :
      (outcome : LoginOutcome) (token : TokenSuccess)
      → second_outcome host outcome ≡ ok token
      → outcome ≡ success token
  unfolding second_outcome
  second_ok (success t) token h = cc
  second_ok (two_factor_required providers) token h = cc

  two_factor_login_ok :
      (providers : List Text) (token : TokenSuccess) (w w1 w' : W)
      → attempt none w ≡ (ok (two_factor_required providers), w1)
      → two_factor_login host server_url email password_hash providers w1 ≡ (ok token, w')
      → WithCode token w w'
  unfolding two_factor_login
  two_factor_login_ok providers token w w1 w' e h =
      let (u, w2, e2, h2) = continue_with_ok (lift _ w1) _ h in
      let (code, w3, e3, h3) = continue_with_ok (prompt host.terminal totp_label w2) _ h2 in
      let (outcome, w4, e4, h4) = continue_with_ok (attempt (some code) w3) _ h3 in
      let same : w1 ≡ w2 = ap (λ x. x.1) e2 in
      record {
        providers = providers;
        code = code;
        asked = w1;
        given = w3;
        required = e;
        totp = offered (offers_totp providers) _ u (ap (λ x. x.0) e2);
        entered = subst (λ x. prompt host.terminal totp_label x ≡ (ok code, w3)) (sym same) e3;
        accepted =
            let k = second_ok outcome token (ap (λ x. x.0) h4) in
            let l : w4 ≡ w' = ap (λ x. x.1) h4 in cc;
      }

  -- The wizard is logged in exactly if its first attempt succeeds, or the server answers with a second
  -- factor and offers TOTP, the user gives a code, and one attempt with that code succeeds. There is no
  -- third attempt and no other way.
  pub password_login_iff :
      (token : TokenSuccess) (w w' : W)
      → (password_login host server_url email password_hash w ≡ (ok token, w'))
        ↔ ((attempt none w ≡ (ok (success token), w')) ⊎ WithCode token w w')
  unfolding password_login after_attempt two_factor_login second_outcome
  password_login_iff token w w' = (
    λ h. let (outcome, w1, e, k) = continue_with_ok (attempt none w) _ h in go outcome w1 e k,
    λ u. elim u [ inl e ↦ rw e refl | inr c ↦ rw (c.required, c.totp, c.entered, c.accepted) refl ],
  )
    where
      go :
          (outcome : LoginOutcome) (w1 : W)
          → attempt none w ≡ (ok outcome, w1)
          → after_attempt host server_url email password_hash outcome w1 ≡ (ok token, w')
          → (attempt none w ≡ (ok (success token), w')) ⊎ WithCode token w w'
      go (success t) w1 e k = inl (cc)
      go (two_factor_required providers) w1 e k =
          inr (two_factor_login_ok providers token w w1 w' e k)
