-- ===== src/Setup/Selection.antt =====
-- What a selection of items can be.
use tapwarden.Base.{
  ℕ, zero, suc, ◌-◌, ◌≤◌, ◌<◌, ◌≡◌, refl, false, ◌||◌, List, [], ◌∷◌, ◌++◌, All, Text, trim, split,
  is_empty, ok, ltb, ◌==◌, arith, Bool-cases, inl, inr, ok-injective, subst,
}
use tapwarden.Base.Try.{expect-eq-ok, bail_if-eq-pass}
use tapwarden.Setup.{parse_usize, member, with_index, below, select_parts, select_indices}

-- No index stands twice in the list.
abbrev pub IsUnique : List ℕ → Type 0
IsUnique [] = Unit
IsUnique (x ∷ xs) = (member x xs ≡ false) × IsUnique xs

abbrev pub IsSelection : ℕ → List ℕ → Type 0
IsSelection len l = All (λ i. i < len) l × IsUnique l

member-append : (i j : ℕ) (l : List ℕ) → member i (l ++ j ∷ []) ≡ (member i l || j == i)
member-append i j [] = ground arith
member-append i j (x ∷ xs) = ground (arith, member-append i j xs)

All-append :
    (len i : ℕ) (l : List ℕ) → All (λ i. i < len) l → i < len → All (λ i. i < len) (l ++ i ∷ [])
All-append len i [] h k = (k, tt)
All-append len i (x ∷ xs) (a, h) k = (a, All-append len i xs h k)

append-IsUnique : (i : ℕ) (l : List ℕ) → IsUnique l → member i l ≡ false → IsUnique (l ++ i ∷ [])
append-IsUnique i [] u h = (refl, tt)
append-IsUnique i (x ∷ xs) (a, u) h =
    (ground (arith, member-append x i xs), append-IsUnique i xs u (ground arith))

with_index-IsSelection :
    (len i : ℕ) (l : List ℕ) → IsSelection len l → i < len → IsSelection len (with_index i l)
with_index-IsSelection len i l (a, u) k = elim (Bool-cases (member i l)) [
  | inl there ↦ rw there (a, u)
  | inr fresh ↦ rw fresh (All-append len i l a k, append-IsUnique i l u fresh)
]

select_parts-IsSelection :
    (parts : List Text) (len : ℕ) (indices l : List ℕ)
    → IsSelection len indices
    → select_parts parts len indices ≡ ok l
    → IsSelection len l
unfolding select_parts
select_parts-IsSelection [] len indices l s h = subst (IsSelection len) (ok-injective h) s
select_parts-IsSelection (part ∷ parts) len indices l s h =
    let (n, e, h1) = expect-eq-ok _ (parse_usize (trim part)) _ h in
    let (inside, h2) = bail_if-eq-pass (n == 0 || ltb len n) _ _ h1 in
    select_parts-IsSelection parts len (with_index (n - 1) indices) l
      (with_index-IsSelection len (n - 1) indices s (ground arith)) h2

member-below : (i n : ℕ) → n ≤ i → member i (below n) ≡ false
member-below i zero h = refl
member-below i (suc n) h =
    ground (arith, member-append i n (below n), member-below i n (omega arith))

weaken : (n m : ℕ) (l : List ℕ) → n ≤ m → All (λ i. i < n) l → All (λ i. i < m) l
weaken n m [] h a = tt
weaken n m (x ∷ xs) h (k, a) = (omega arith, weaken n m xs h a)

below-IsSelection : (n : ℕ) → IsSelection n (below n)
below-IsSelection zero = (tt, tt)
below-IsSelection (suc n) =
    let (a, u) = below-IsSelection n in
    (
      All-append (suc n) n (below n) (weaken n (suc n) (below n) (omega arith) a) (omega arith),
      append-IsUnique n (below n) u (member-below n n (omega arith)),
    )

-- Whatever the user types, an accepted selection holds indices of the list only, each at most once.
pub select_indices-IsSelection :
    (input : Text) (len : ℕ) (l : List ℕ) → select_indices input len ≡ ok l → IsSelection len l
unfolding select_indices
select_indices-IsSelection input len l h = elim (Bool-cases (is_empty (trim input))) [
  | inl all ↦ subst (IsSelection len) (ok-injective (rw all at h)) (below-IsSelection len)
  | inr some_parts ↦
      select_parts-IsSelection (split b',' (trim input)) len [] l (tt, tt) (rw some_parts at h)
]
