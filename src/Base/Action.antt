-- ===== src/Base/Action.antt =====
-- An effectful call: from a world of any type to a result and the world after it. The prompts, the
-- network, the clocks, the key store and the file system are such calls on an abstract world, so a
-- world that is returned unchanged says that no such call was made.
use tapwarden.Base.{ℕ, ◌+◌, ◌≤◌, ◌≡◌, refl, Result, ok, err, Error, arith}

abbrev pub Action {ℓ} : Type ℓ → Type 0 → Type ℓ
Action W A = W → Result A × W

infixl 5 ◌>>=◌ ◌>>◌
abbrev pub continue_with {ℓ} :
    {W : Type ℓ} {A B : Type 0} → Result A × W → (A → Action W B) → Result B × W
continue_with (ok a, w) f = f a w
continue_with (err e, w) f = (err e, w)

abbrev pub ◌>>=◌ {ℓ} : {W : Type ℓ} {A B : Type 0} → Action W A → (A → Action W B) → Action W B
◌>>=◌ m f w = continue_with (m w) f

abbrev pub ◌>>◌ {ℓ} : {W : Type ℓ} {B : Type 0} → Action W (Unit {0}) → Action W B → Action W B
m >> k = m >>= λ _. k

abbrev pub pure {ℓ} : {W : Type ℓ} {A : Type 0} → A → Action W A
pure a w = (ok a, w)

-- `?` on a result without effects.
abbrev pub lift {ℓ} : {W : Type ℓ} {A : Type 0} → Result A → Action W A
lift r w = (r, w)

abbrev pub fail {ℓ} : {W : Type ℓ} {A : Type 0} → Error → Action W A
fail e w = (err e, w)

-- `.context(...)` on the result of a call.
abbrev pub map_result {ℓ} :
    {W : Type ℓ} {A B : Type 0} → (Result A → Result B) → Action W A → Action W B
map_result f m w = let (r, w') = m w in (f r, w')

-- A chain that succeeds has succeeded at its first step.
pub continue_with_ok {ℓ} :
    {W : Type ℓ} {A B : Type 0} (p : Result A × W) (f : A → Action W B) {b : B} {w' : W}
    → continue_with p f ≡ (ok b, w')
    → (a : A) × (w : W) × (p ≡ (ok a, w)) × (f a w ≡ (ok b, w'))
continue_with_ok (ok a, w) f h = (a, w, refl, h)
continue_with_ok (err e, w) f h = cc

-- A quantity that is at most `k` after the first step, and that the rest raises by at most `n`.
pub continue_with_cost {ℓ} :
    {W : Type ℓ} {A B : Type 0} (measure : W → ℕ) (k n total : ℕ) (p : Result A × W)
    (f : A → Action W B)
    → k + n ≤ total
    → measure p.1 ≤ k
    → ((a : A) (w : W) → measure (f a w).1 ≤ measure w + n)
    → measure (continue_with p f).1 ≤ total
continue_with_cost measure k n total (ok a, w) f t h g = omega (arith, g a w)
continue_with_cost measure k n total (err e, w) f t h g = omega arith

-- What holds of every world that the rest of a chain can end in.
pub continue_with_keeps {ℓ κ} :
    {W : Type ℓ} {A B : Type 0} (P : W → Type κ) (p : Result A × W) (f : A → Action W B)
    → P p.1
    → ((a : A) → P (f a p.1).1)
    → P (continue_with p f).1
continue_with_keeps P (ok a, w) f h k = k a
continue_with_keeps P (err e, w) f h k = h

-- A postcondition of a chain, from one of its first step: errors pass through.
pub continue_with_post {ℓ κ μ} :
    {W : Type ℓ} {A B : Type 0} (P : Result A × W → Type κ) (Q : Result B × W → Type μ)
    (p : Result A × W) (f : A → Action W B)
    → P p
    → ((e : Error) (w : W) → Q (err e, w))
    → ((a : A) (w : W) → P (ok a, w) → Q (f a w))
    → Q (continue_with p f)
continue_with_post P Q (ok a, w) f h failed next = next a w h
continue_with_post P Q (err e, w) f h failed next = failed e w
