-- ===== src/Secret/Bws/Laws.antt =====
-- The gate in front of the keychain, and what a fetched secret rests on.
use tapwarden.Base.{ℕ, ◌≡◌, ◌≢◌, refl, true, false, some, Result, ok, err, is_ok}
use tapwarden.Base.Action.{continue_with_post}
use tapwarden.Authorizer.{Authorizer}
use tapwarden.Http.{Response}
use tapwarden.Secret.Unlock.{unlock_gate_denied}
use tapwarden.Secret.Session.{AuthState, exchange}
use tapwarden.Secret.Session.Renewal.{Paired, exchange-Paired}
use tapwarden.Secret.Bws.Decode.{Session, SecretData, read_secret}
use tapwarden.Secret.Bws.{
  BwsHost, BwsRest, in_keychain, unlock, resolve_keychain_token, login_from, login, fetch,
  unauthorized, get_secret,
}

module _ {Entry W : Type 0} (host : BwsHost Entry W) (gate : Authorizer W) (client : BwsRest) where
  -- Unless the gate says yes, a login with a keychain token fails and nothing at all happens after
  -- the prompt: the keychain is not opened and nothing is sent.
  pub login_denied :
      (w : W)
      → (gate.approve (unlock host gate) w).0 ≢ ok true
      → ((login_from host gate client in_keychain w).1 ≡ (gate.approve (unlock host gate) w).1)
        × (is_ok (login_from host gate client in_keychain w).0 ≡ false)
  unfolding login_from
  login_denied w h =
      let (e, denied) = unlock_gate_denied gate (unlock host gate) w h in
      rw (denied, resolve_keychain_token) (refl, refl)

  -- What a returned secret rests on: a session, and a response to a request with its bearer.
  abbrev pub Rests : ℕ → Result SecretData × AuthState Session W → Type 0
  Rests id (err e, t) = Unit
  Rests id (ok secret, t) =
      (session : Session) × (r : Response) × (w : W) × (t.session ≡ some session)
      × (fetch host gate client id session w ≡ (ok r, t.world))
      × (read_secret host.http host.crypto host.json session r ≡ ok secret)

  -- A secret is returned only when the last request of the call, sent with the bearer of the session
  -- that stays in the state, got a response that decodes under that same session's key.
  pub get_secret-Rests :
      (backoff id : ℕ) (s : AuthState Session W)
      → Rests id (get_secret host gate client backoff id s)
  unfolding get_secret
  get_secret-Rests backoff id s =
      continue_with_post
        (Paired host.clock backoff (login host gate client) (fetch host gate client id)
          (unauthorized host gate client))
        (Rests id)
        (exchange host.clock backoff (login host gate client) (fetch host gate client id)
          (unauthorized host gate client) s)
        _
        (exchange-Paired host.clock backoff (login host gate client) (fetch host gate client id)
          (unauthorized host gate client) s)
        (λ e t. tt)
        (λ a t paired.
          decoded a t paired (read_secret host.http host.crypto host.json a.0 a.1) refl)
    where
      decoded :
          (a : Session × Response) (t : AuthState Session W)
          → Paired host.clock backoff
              (login host gate client)
              (fetch host gate client id)
              (unauthorized host gate client)
              (ok a, t)
          → (r : Result SecretData) → read_secret host.http host.crypto host.json a.0 a.1 ≡ r
          → Rests id (r, t)
      decoded a t paired (err x) e = tt
      decoded (session, r) t (held, (w, asked)) (ok secret) e = (session, r, w, held, asked, e)
