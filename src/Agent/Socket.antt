-- ===== src/Agent/Socket.antt =====
-- src/agent.rs: `claim_socket` and `release_socket`. The socket calls of the system are a record.
use tapwarden.Base.{
  ℕ, ◌≡◌, refl, Bool, true, false, Result, ok, err, is_ok, Error, Text, text, ◌++◌, ◌∷◌, [],
}
use tapwarden.Base.Action.{Action, ◌>>◌, map_result, continue_with}
use tapwarden.Secret.Endpoint.{context_text}

-- What `remove_file` gives: done, no such file, or another error.
pub data Removed : Type 0 where
  removed missing : Removed
  failed : Error → Removed

pub record SocketHost (Listener W : Type 0) : Type 0 where
  -- whether something answers
  pub connect : Text → W → Bool × W
  pub remove_file : Text → W → Removed × W
  -- the mask before
  pub umask : ℕ → W → ℕ × W
  pub bind : Text → Action W Listener

unfoldable pub freed : Removed → Result (Unit {0})
freed removed = ok tt
freed missing = ok tt
freed (failed e) = err e

module _ {Listener W : Type 0} (host : SocketHost Listener W) where
  unfoldable pub release_socket : Text → Action W (Unit {0})
  unfolding freed
  release_socket socket w = let (r, w') = host.remove_file socket w in (freed r, w')

  -- The mask is 0o077 for the bind alone.
  unfoldable pub bind_private : Text → Action W Listener
  bind_private socket w =
      let (old, w1) = host.umask 63 w in
      let (listener, w2) = host.bind socket w1 in
      let (mask, w3) = host.umask old w2 in
      (context_text (text "failed to bind socket " ++ socket) listener, w3)

  unfoldable pub claim : Text → Bool × W → Result Listener × W
  unfolding release_socket bind_private
  claim socket (true, w) =
      (err ((text "another tapwarden instance is already listening on " ++ socket) ∷ []), w)
  claim socket (false, w) =
      (map_result (context_text (text "failed to remove stale socket " ++ socket))
            (release_socket socket)
          >> bind_private socket)
        w

  unfoldable pub claim_socket : Text → Action W Listener
  unfolding claim
  claim_socket socket w = claim socket (host.connect socket w)

  -- A live agent is never displaced: where something answers at the path the claim fails, and the
  -- attempt to connect is all that happens, so nothing is removed and nothing is bound.
  pub claim_socket_live :
      (socket : Text) (w : W)
      → (host.connect socket w).0 ≡ true
      → ((claim_socket socket w).1 ≡ (host.connect socket w).1)
        × (is_ok (claim_socket socket w).0 ≡ false)
  unfolding claim_socket
  claim_socket_live socket w h = go (host.connect socket w) h
    where
      go :
          (p : Bool × W)
          → p.0 ≡ true
          → ((claim socket p).1 ≡ p.1) × (is_ok (claim socket p).0 ≡ false)
      go (true, w') e = (refl, refl)
      go (false, w') e = cc

  -- A view of the process's mask: `umask` sets it and returns the one before, and no other call
  -- changes it.
  pub record IsMask (mask : W → ℕ) : Type 0 where
    pub sets : (m : ℕ) (w : W) → mask (host.umask m w).1 ≡ m
    pub returns : (m : ℕ) (w : W) → (host.umask m w).0 ≡ mask w
    pub connect_keeps : (socket : Text) (w : W) → mask (host.connect socket w).1 ≡ mask w
    pub remove_keeps : (socket : Text) (w : W) → mask (host.remove_file socket w).1 ≡ mask w
    pub bind_keeps : (socket : Text) (w : W) → mask (host.bind socket w).1 ≡ mask w

  module _ (mask : W → ℕ) (view : IsMask mask) where
    bind_private_mask : (socket : Text) (w : W) → mask (bind_private socket w).1 ≡ mask w
    unfolding bind_private
    bind_private_mask socket w =
        cc (
          view.sets (host.umask 63 w).0 (host.bind socket (host.umask 63 w).1).1,
          view.returns 63 w,
        )

    claim_mask : (socket : Text) (p : Bool × W) → mask (claim socket p).1 ≡ mask p.1
    unfolding claim
    claim_mask socket (true, w) = refl
    claim_mask socket (false, w) = go (host.remove_file socket w) (view.remove_keeps socket w)
      where
        go :
            (p : Removed × W)
            → mask p.1 ≡ mask w
            → mask
                (continue_with
                  (context_text (text "failed to remove stale socket " ++ socket) (freed p.0), p.1)
                  (λ u. bind_private socket)).1
              ≡ mask w
        go (removed, w') e = rw (bind_private_mask socket w', e)
        go (missing, w') e = rw (bind_private_mask socket w', e)
        go (failed x, w') e = e

    bind_private_ok :
        (socket : Text) (w : W) (l : Listener)
        → (bind_private socket w).0 ≡ ok l
        → (w1 : W) × (mask w1 ≡ 63) × ((host.bind socket w1).0 ≡ ok l)
    unfolding bind_private
    bind_private_ok socket w l h =
        ((host.umask 63 w).1, view.sets 63 w, go (host.bind socket (host.umask 63 w).1).0 h)
      where
        go :
            (r : Result Listener)
            → context_text (text "failed to bind socket " ++ socket) r ≡ ok l
            → r ≡ ok l
        go (ok k) e = e
        go (err x) e = cc

    claim_ok :
        (socket : Text) (p : Bool × W) (l : Listener)
        → (claim socket p).0 ≡ ok l
        → (w1 : W) × (mask w1 ≡ 63) × ((host.bind socket w1).0 ≡ ok l)
    unfolding claim
    claim_ok socket (true, w) l h = cc
    claim_ok socket (false, w) l h = go (host.remove_file socket w) h
      where
        go :
            (p : Removed × W)
            → (continue_with
                (context_text (text "failed to remove stale socket " ++ socket) (freed p.0), p.1)
                (λ u. bind_private socket)).0
              ≡ ok l
            → (w1 : W) × (mask w1 ≡ 63) × ((host.bind socket w1).0 ≡ ok l)
        go (removed, w') e = bind_private_ok socket w' l e
        go (missing, w') e = bind_private_ok socket w' l e
        go (failed x, w') e = cc

    -- A socket that is claimed was bound under the file-mode creation mask 0o077; and on every path
    -- through the claim, failed or not, the mask is afterwards what it was before.
    pub claim_socket_mask :
        (socket : Text) (w : W)
        → (mask (claim_socket socket w).1 ≡ mask w)
          × ((l : Listener)
              → (claim_socket socket w).0 ≡ ok l
              → (w1 : W) × (mask w1 ≡ 63) × ((host.bind socket w1).0 ≡ ok l))
    unfolding claim_socket
    claim_socket_mask socket w = (
      rw (claim_mask socket (host.connect socket w), view.connect_keeps socket w),
      λ l h. claim_ok socket (host.connect socket w) l h,
    )
