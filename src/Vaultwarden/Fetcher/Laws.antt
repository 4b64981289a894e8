-- ===== src/Vaultwarden/Fetcher/Laws.antt =====
-- The gate in front of the keychain, and what a fetched secret rests on.
use tapwarden.Base.{ℕ, ◌≡◌, ◌≢◌, refl, true, false, some, Result, ok, err, is_ok}
use tapwarden.Base.Action.{continue_with_post}
use tapwarden.Authorizer.{Authorizer}
use tapwarden.Http.{Response}
use tapwarden.Secret.Unlock.{unlock_gate_denied}
use tapwarden.Secret.Session.{AuthState, exchange}
use tapwarden.Secret.Session.Renewal.{Paired, exchange-Paired}
use tapwarden.Secret.Bws.Decode.{SecretData}
use tapwarden.Vaultwarden.Decode.{Session, read_secret}
use tapwarden.Vaultwarden.Fetcher.{
  VwHost, VaultwardenFetcher, keychain, unlock, read_credentials, acquire_credentials, login, fetch,
  unauthorized, get_secret,
}

module _ {Entry W : Type 0} (host : VwHost Entry W) (gate : Authorizer W)
    (fetcher : VaultwardenFetcher) where
  -- Unless the gate says yes, a login with keychain credentials fails and nothing at all happens
  -- after the prompt: the keychain is not opened and nothing is sent.
  pub keychain_login_denied :
      (w : W)
      → fetcher.source ≡ keychain
      → (gate.approve (unlock host gate) w).0 ≢ ok true
      → ((login host gate fetcher w).1 ≡ (gate.approve (unlock host gate) w).1)
        × (is_ok (login host gate fetcher w).0 ≡ false)
  unfolding login acquire_credentials
  keychain_login_denied w k h =
      let (e, denied) = unlock_gate_denied gate (unlock host gate) w h in
      rw (k, read_credentials, denied) (refl, refl)

  -- What a returned secret rests on: a session, and a response to a request with its bearer.
  abbrev pub Fetched : ℕ → Result SecretData × AuthState Session W → Type 0
  Fetched id (err e, t) = Unit
  Fetched id (ok secret, t) =
      (session : Session) × (r : Response) × (w : W) × (t.session ≡ some session)
      × (fetch host gate fetcher id session w ≡ (ok r, t.world))
      × (read_secret host.http host.crypto host.cipher session r ≡ ok secret)

  -- A secret is returned only when the last request of the call, sent with the bearer of the session
  -- that stays in the state, got a response that decodes under that same session's user key.
  pub get_secret-Fetched :
      (backoff id : ℕ) (s : AuthState Session W)
      → Fetched id (get_secret host gate fetcher backoff id s)
  unfolding get_secret
  get_secret-Fetched backoff id s =
      continue_with_post
        (Paired host.clock backoff (login host gate fetcher) (fetch host gate fetcher id)
          (unauthorized host gate fetcher))
        (Fetched id)
        (exchange host.clock backoff (login host gate fetcher) (fetch host gate fetcher id)
          (unauthorized host gate fetcher) s)
        _
        (exchange-Paired host.clock backoff (login host gate fetcher) (fetch host gate fetcher id)
          (unauthorized host gate fetcher) s)
        (λ e t. tt)
        (λ a t paired.
          decoded a t paired (read_secret host.http host.crypto host.cipher a.0 a.1) refl)
    where
      decoded :
          (a : Session × Response) (t : AuthState Session W)
          → Paired host.clock backoff
              (login host gate fetcher)
              (fetch host gate fetcher id)
              (unauthorized host gate fetcher)
              (ok a, t)
          → (r : Result SecretData) → read_secret host.http host.crypto host.cipher a.0 a.1 ≡ r
          → Fetched id (r, t)
      decoded a t paired (err x) e = tt
      decoded (session, r) t (held, (w, asked)) (ok secret) e = (session, r, w, held, asked, e)
