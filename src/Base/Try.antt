-- ===== src/Base/Try.antt =====
-- `do` blocks of functions that return a `Result` without effects.
use tapwarden.Base.{
  Result, ok, err, ◌≡◌, refl, Bool, true, false, not, Option, none, some, Error, expect, bail_if,
  context, String,
}

-- `?`: the first error ends the chain.
abbrev pub and_then {ℓ κ} : {A : Type ℓ} {B : Type κ} (next : A → Result B) → Result A → Result B
and_then next (err e) = err e
and_then next (ok a) = next a

infixl 5 ◌>>=◌ ◌>>◌
abbrev pub ◌>>=◌ {ℓ κ} : {A : Type ℓ} {B : Type κ} (r : Result A) (next : A → Result B) → Result B
r >>= next = and_then next r

abbrev pub ◌>>◌ {κ} : {B : Type κ} (r : Result (Unit {0})) (next : Result B) → Result B
r >> next = and_then (λ _. next) r

-- What a check that passes has found.
pub bail_if-passed : (t : Bool) (e : Error) (u : Unit {0}) → bail_if (not t) e ≡ ok u → t ≡ true
bail_if-passed true e u h = refl
bail_if-passed false e u h = cc

-- A chain that succeeds has succeeded at its first step.
pub >>=-eq-ok {ℓ κ} :
    {A : Type ℓ} {B : Type κ} (r : Result A) (next : A → Result B) {b : B}
    → (r >>= next) ≡ ok b
    → (a : A) × (r ≡ ok a) × (next a ≡ ok b)
>>=-eq-ok (err e) next h = cc
>>=-eq-ok (ok a) next h = (a, refl, h)

-- A guard in a chain that succeeds has let it pass.
pub bail_if-eq-ok {κ} :
    {B : Type κ} (t : Bool) (e : Error) (m : Result B) {b : B}
    → (bail_if (not t) e >> m) ≡ ok b
    → (t ≡ true) × (m ≡ ok b)
bail_if-eq-ok true e m h = (refl, h)
bail_if-eq-ok false e m h = cc

pub bail_if-eq-pass {κ} :
    {B : Type κ} (t : Bool) (e : Error) (m : Result B) {b : B}
    → (bail_if t e >> m) ≡ ok b
    → (t ≡ false) × (m ≡ ok b)
bail_if-eq-pass false e m h = (refl, h)
bail_if-eq-pass true e m h = cc

-- A result with context in a chain that succeeds has succeeded itself.
pub context-eq-ok {ℓ} :
    {A : Type ℓ} (s : String) (r : Result A) (a : A) → context s r ≡ ok a → r ≡ ok a
context-eq-ok s (ok b) a h = h
context-eq-ok s (err e) a h = cc

-- An option in a chain that succeeds has a value.
pub expect-eq-ok {ℓ κ} :
    {A : Type ℓ} {B : Type κ} (s : String) (o : Option A) (f : A → Result B) {b : B}
    → (expect s o >>= f) ≡ ok b
    → (a : A) × (o ≡ some a) × (f a ≡ ok b)
expect-eq-ok s (some a) f h = (a, refl, h)
expect-eq-ok s none f h = cc
