-- ===== src/Authorizer/Grace/History.antt =====
-- A `Grace` authorizer over its whole life: every approval without a prompt goes back to a prompt
-- for the same key that the user approved.
use tapwarden.Base.{
  ℕ, ◌≡◌, ◌⊎◌, inl, inr, Bool, true, false, Option, some, List, [], ◌∷◌, ◌++◌, Text, text_key,
  text_eq_iff, Result, ok, err, Bool-cases, if◌then◌else◌, In,
}
use tapwarden.Base.Map.{get, insert, get-insert}
use tapwarden.Base.Time.{Clock}
use tapwarden.Authorizer.Defs.{AuthContext, sign, unlock_credentials, Authorizer}
use tapwarden.Authorizer.Grace.{Approval, GraceState, now, within_window, remember, approve}
use tapwarden.Authorizer.Grace.Laws.{
  CoversAt, before_prompt, signature_hit, signature_miss, approve_justified,
}

-- One prompt for a signature that the user approved: the fingerprint, and the clocks right after.
abbrev pub Grant : Type 0
Grant = Text × Approval

module _ {W : Type 0} (clock : Clock W) (inner : Authorizer W) (window : ℕ) where
  abbrev granted : Text → Result Bool × W → List Grant
  granted f (ok true, w) = (f, (now clock w).0) ∷ []
  granted f (ok false, w) = []
  granted f (err e, w) = []

  -- What a request adds to the history: a grant if the inner authorizer is asked and says yes.
  abbrev pub grants : AuthContext → GraceState W → List Grant
  grants (sign c f r) s =
      if (within_window clock (get f s.last) window s.world).0
      then []
      else granted f (inner.approve (sign c f r) (before_prompt clock inner window f s))
  grants (unlock_credentials reason) s = []

  -- The states of an authorizer that began with no approval, with the grants so far: requests are
  -- served one by one, and between them the world may change in any way.
  pub data Session : GraceState W → List Grant → Type 0 where
    start : (w : W) → Session (record { last = []; world = w }) []
    elapse :
        {s : GraceState W} {h : List Grant} (w : W)
        → Session s h
        → Session (record { last = s.last; world = w }) h
    request :
        {s : GraceState W} {h : List Grant} (ctx : AuthContext)
        → Session s h
        → Session (approve clock inner window ctx s).1 (grants ctx s ++ h)

  -- Every remembered approval is a grant of the history.
  abbrev Backed : List (Text × Approval) → List Grant → Type 0
  Backed last h = (g : Text) (a : Approval) → get g last ≡ some a → In (g, a) h

  inserted :
      (f g : Text) (a b : Approval) (last : List (Text × Approval)) (h : List Grant)
      → Backed last h
      → get g (insert f b last) ≡ some a
      → In (g, a) ((f, b) ∷ h)
  inserted f g a b last h back found = elim (Bool-cases (text_key.beq f g)) [
    | inl same ↦ inl (cc ((text_eq_iff f g).0 same, rw (get-insert f g b last, same) at found))
    | inr other ↦ inr (back g a (rw (get-insert f g b last, other) at found))
  ]

  remember-Backed :
      (f : Text) (last : List (Text × Approval)) (p : Result Bool × W) (h : List Grant)
      → Backed last h
      → Backed (remember clock inner window f last p).1.last (granted f p ++ h)
  unfolding remember
  remember-Backed f last (ok true, w) h back =
      λ g a found. inserted f g a (now clock w).0 last h back found
  remember-Backed f last (ok false, w) h back = back
  remember-Backed f last (err e, w) h back = back

  request-Backed :
      (ctx : AuthContext) (s : GraceState W) (h : List Grant)
      → Backed s.last h
      → Backed (approve clock inner window ctx s).1.last (grants ctx s ++ h)
  unfolding approve
  request-Backed (unlock_credentials reason) s h back = back
  request-Backed (sign c f r) s h back =
      elim (Bool-cases (within_window clock (get f s.last) window s.world).0) [
        | inl hit ↦ rw (signature_hit clock inner window c f r s hit, hit) back
        | inr miss ↦
            rw (signature_miss clock inner window c f r s miss, miss)
              (remember-Backed f s.last _ h back)
      ]

  Session-Backed : {s : GraceState W} {h : List Grant} → Session s h → Backed s.last h
  unfolding get
  Session-Backed (start w) = λ g a found. cc
  Session-Backed (elapse w past) = Session-Backed past
  Session-Backed (request {s} {h} ctx past) = request-Backed ctx s h (Session-Backed past)

  -- At any moment of an authorizer's life, a signature that it approves either has just been
  -- approved by the inner authorizer, or falls into the window, on both clocks, of an earlier
  -- prompt for the same fingerprint that the user approved. No other key's prompt counts, nor a
  -- denied one, nor a credential unlock.
  pub approve_backed :
      {s : GraceState W} {h : List Grant}
      → Session s h
      → (c f : Text) (r : Option Text) → (approve clock inner window (sign c f r) s).0 ≡ ok true
      → ((a : Approval) × In (f, a) h × CoversAt clock a window s.world)
        ⊎ ((inner.approve (sign c f r) (before_prompt clock inner window f s)).0 ≡ ok true)
  approve_backed {s} past c f r h = elim (approve_justified clock inner window c f r s h) [
    | inl (a, found, covers, same) ↦ inl (a, Session-Backed past f a found, covers)
    | inr asked ↦ inr asked
  ]
