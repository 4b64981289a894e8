-- ===== src/Base/Split.antt =====
-- Laws of the text functions: prefixes, and the pieces of `split`.
use mathlib.Core.Path.{ap₂}
use tapwarden.Base.{
  ◌≢◌, ◌∙◌, sym, cons_head, extend_first, ℕ, ◌≡◌, ◌↔◌, refl, ap, false, Option, none, some, List,
  [], ◌∷◌, ◌++◌, Text, split, strip_prefix, split_once, contains_char, join, All, arith, ◌==◌,
  ==_iff, if◌then◌else◌, Bool-cases, inl, inr,
}

pub strip_prefix_iff : (p s r : Text) → (strip_prefix p s ≡ some r) ↔ (s ≡ p ++ r)
unfolding strip_prefix
strip_prefix_iff [] s r = (λ h. cc, λ h. cc)
strip_prefix_iff (c ∷ p) [] r = (λ h. cc, λ h. cc)
strip_prefix_iff (c ∷ p) (d ∷ s) r =
    (λ h. ground (arith, strip_prefix_iff p s r), λ h. ground (arith, strip_prefix_iff p s r))

-- No character of the text is `c`.
abbrev pub Without : ℕ → Text → Type 0
Without c s = contains_char c s ≡ false

pub split-Without : (c : ℕ) (s : Text) → Without c s → split c s ≡ s ∷ []
unfolding split contains_char
split-Without c [] h = refl
split-Without c (x ∷ s) h = elim (Bool-cases (x == c)) [
  | inl sep ↦ absurd (cc (rw sep at h))
  | inr plain ↦ rw (plain, split-Without c s (rw plain at h))
]

pub split-append : (c : ℕ) (s t : Text) → Without c s → split c (s ++ c ∷ t) ≡ s ∷ split c t
unfolding split contains_char
split-append c [] t h = rw ((==_iff c c).1 refl)
split-append c (x ∷ s) t h = elim (Bool-cases (x == c)) [
  | inl sep ↦ absurd (cc (rw sep at h))
  | inr plain ↦ rw (plain, split-append c s t (rw plain at h))
]

-- The pieces hold no separator, and joined by it they are the text again.
pub split-pieces : (c : ℕ) (s : Text) → All (Without c) (split c s)
unfolding split contains_char
split-pieces c [] = (refl, tt)
split-pieces c (x ∷ s) = elim (Bool-cases (x == c)) [
  | inl sep ↦ rw sep (refl, split-pieces c s)
  | inr plain ↦ rw plain (headed (split c s) (split-pieces c s) plain)
]
  where
    headed :
        (l : List Text) → All (Without c) l → (x == c) ≡ false → All (Without c) (cons_head x l)
    headed [] h e = (rw e, tt)
    headed (t ∷ l) h e = (rw (e, h.0), h.1)

pub split-ne-nil : (c : ℕ) (s : Text) → split c s ≢ []
unfolding split
split-ne-nil c [] h = cc
split-ne-nil c (x ∷ s) h = elim (Bool-cases (x == c)) [
  | inl sep ↦ cc (rw sep at h)
  | inr plain ↦ headed (split c s) (rw plain at h)
]
  where
    headed : (l : List Text) → cons_head x l ≡ [] → ⊥
    headed [] e = cc
    headed (t ∷ l) e = cc

join-nil : (c : ℕ) (l : List Text) → l ≢ [] → join (c ∷ []) ([] ∷ l) ≡ c ∷ join (c ∷ []) l
unfolding join
join-nil c [] h = absurd (h refl)
join-nil c (s ∷ l) h = refl

join-cons_head :
    (c x : ℕ) (l : List Text) → l ≢ [] → join (c ∷ []) (cons_head x l) ≡ x ∷ join (c ∷ []) l
unfolding join
join-cons_head c x [] h = absurd (h refl)
join-cons_head c x (s ∷ []) h = refl
join-cons_head c x (s ∷ t ∷ l) h = refl

pub join-split : (c : ℕ) (s : Text) → join (c ∷ []) (split c s) ≡ s
unfolding split
join-split c [] = unfold join in refl
join-split c (x ∷ s) = elim (Bool-cases (x == c)) [
  | inl sep ↦ rw sep (
      join-nil c (split c s) (split-ne-nil c s)
      ∙ ap₂ (λ d t. d ∷ t) (sym ((==_iff x c).0 sep)) (join-split c s))
  | inr plain ↦
      rw plain
        (join-cons_head c x (split c s) (split-ne-nil c s) ∙ ap (λ t. x ∷ t) (join-split c s))
]

pub split_once_iff :
    (c : ℕ) (s a b : Text) → (split_once c s ≡ some (a, b)) ↔ (Without c a × (s ≡ a ++ c ∷ b))
unfolding split_once contains_char
split_once_iff c [] a b = (λ h. cc, λ (w, e). empty a e)
  where
    empty : (a : Text) → [] ≡ a ++ c ∷ b → split_once c [] ≡ some (a, b)
    empty [] e = cc
    empty (x ∷ a) e = cc
split_once_iff c (x ∷ s) [] b = (λ h. first (split_once c s) h, λ h. ground arith)
  where
    first :
        (o : Option (Text × Text))
        → (if x == c then some ([], s) else extend_first x o) ≡ some ([], b)
        → Without c [] × (x ∷ s ≡ [] ++ c ∷ b)
    first none h = ground arith
    first (some (u, v)) h = ground arith
split_once_iff c (x ∷ s) (y ∷ a) b = (
  λ h. later (split_once c s) (λ u v e. (split_once_iff c s u v).0 e) refl h,
  λ (w, e). ground (arith, split_once_iff c s a b),
)
  where
    later :
        (o : Option (Text × Text))
        → ((u v : Text) → split_once c s ≡ some (u, v) → Without c u × (s ≡ u ++ c ∷ v))
        → split_once c s ≡ o
        → (if x == c then some ([], s) else extend_first x o) ≡ some (y ∷ a, b)
        → Without c (y ∷ a) × (x ∷ s ≡ (y ∷ a) ++ c ∷ b)
    later none f e h = ground arith
    later (some (u, v)) f e h = ground (arith, f u v e)

pub Without-append : (c : ℕ) (s t : Text) → Without c (s ++ t) ↔ (Without c s × Without c t)
unfolding contains_char
Without-append c [] t = (λ h. (refl, h), λ h. h.1)
Without-append c (x ∷ s) t =
    (λ h. ground (arith, Without-append c s t), λ h. ground (arith, Without-append c s t))
