-- ===== src/Base/Map.antt =====
-- `HashMap` as an association list without repeated keys.
use tapwarden.Base.{
  ◌≡◌, refl, ◌⊎◌, inl, inr, Option, none, some, List, [], ◌∷◌, arith, Eq, In, Bool-cases,
  if◌then◌else◌,
}

module _ {ℓ κ} {K : Type ℓ} {V : Type κ} ⦃e : Eq K⦄ where
  unfoldable pub get : K → List (K × V) → Option V
  get k [] = none
  get k ((j, v) ∷ m) = if e.beq j k then some v else get k m

  unfoldable pub insert : K → V → List (K × V) → List (K × V)
  insert k v [] = (k, v) ∷ []
  insert k v ((j, w) ∷ m) = if e.beq j k then (k, v) ∷ m else (j, w) ∷ insert k v m

  unfoldable pub remove : K → List (K × V) → List (K × V)
  remove k [] = []
  remove k ((j, w) ∷ m) = let rest = remove k m in if e.beq j k then rest else (j, w) ∷ rest

  pub get-insert :
      (k j : K) (v : V) (m : List (K × V))
      → get j (insert k v m) ≡ (if e.beq k j then some v else get j m)
  unfolding get insert
  get-insert k j v [] = refl
  get-insert k j v ((i, w) ∷ m) =
      ground (arith, e.beq_iff k j, e.beq_iff i k, e.beq_iff i j, get-insert k j v m)

  pub get-insert_self : (k : K) (v : V) (m : List (K × V)) → get k (insert k v m) ≡ some v
  get-insert_self k v m = ground (arith, get-insert k k v m, (e.beq_iff k k).1 refl)

  pub get-remove :
      (k j : K) (m : List (K × V)) → get j (remove k m) ≡ (if e.beq k j then none else get j m)
  unfolding get remove
  get-remove k j [] = ground arith
  get-remove k j ((i, w) ∷ m) =
      ground (arith, e.beq_iff k j, e.beq_iff i k, e.beq_iff i j, get-remove k j m)

module _ {K V : Type 0} ⦃e : Eq K⦄ where
  -- What is found stands in the list, and what stands in it after an insertion is new or was there.
  pub get-In : (k : K) (v : V) (m : List (K × V)) → get k m ≡ some v → In (k, v) m
  unfolding get
  get-In k v [] h = cc
  get-In k v ((j, w) ∷ m) h = elim (Bool-cases (e.beq j k)) [
    | inl same ↦ inl (cc ((e.beq_iff j k).0 same, rw same at h))
    | inr other ↦ inr (get-In k v m (rw other at h))
  ]

  pub In-insert :
      (x : K × V) (k : K) (v : V) (m : List (K × V)) → In x (insert k v m) → (x ≡ (k, v)) ⊎ In x m
  unfolding insert
  In-insert x k v [] (inl h) = inl h
  In-insert x k v [] (inr h) = absurd h
  In-insert x k v ((j, w) ∷ m) h = elim (Bool-cases (e.beq j k)) [
    | inl same ↦ old (rw same at h)
    | inr other ↦ kept (In-insert x k v m) (rw other at h)
  ]
    where
      old : In x ((k, v) ∷ m) → (x ≡ (k, v)) ⊎ In x ((j, w) ∷ m)
      old (inl a) = inl a
      old (inr a) = inr (inr a)

      kept :
          (In x (insert k v m) → (x ≡ (k, v)) ⊎ In x m)
          → In x ((j, w) ∷ insert k v m)
          → (x ≡ (k, v)) ⊎ In x ((j, w) ∷ m)
      kept later (inl a) = inr (inl a)
      kept later (inr a) = elim (later a) [ inl b ↦ inl b | inr b ↦ inr (inr b) ]
