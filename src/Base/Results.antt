-- ===== src/Base/Results.antt =====
-- `anyhow::Result`: a value, or an error with its chain of messages, the outermost first.
use Prim.Native.String.{String}
use mathlib.Core.Path.{◌≡◌, refl}
use mathlib.Core.Logic.{◌⊎◌, inl, inr}
use mathlib.Core.Bool.{Bool, true, false}
use mathlib.Core.Option.{Option, none, some}
use mathlib.Core.List.{List, [], ◌∷◌}
use tapwarden.Base.Texts.{Text, text, join}

abbrev pub Error : Type 0
Error = List Text

pub data Result {ℓ} (A : Type ℓ) : Type ℓ where
  ok : A → Result A
  err : Error → Result A

-- `anyhow!("...")` with a message that is fixed, and `format!("{e:#}")` of an error.
abbrev pub message : String → Error
message s = text s ∷ []

unfoldable pub render : Error → Text
unfolding join text
render e = join (text ": ") e

abbrev pub result_map {ℓ κ} : {A : Type ℓ} {B : Type κ} → (A → B) → Result A → Result B
result_map f (ok a) = ok (f a)
result_map f (err e) = err e

-- `.context("...")` of a result, and of an option.
abbrev pub context {ℓ} : {A : Type ℓ} → String → Result A → Result A
context s (ok a) = ok a
context s (err e) = err (text s ∷ e)

abbrev pub expect {ℓ} : {A : Type ℓ} → String → Option A → Result A
expect s (some a) = ok a
expect s none = err (message s)

-- `if bad { bail!(...) }`.
abbrev pub bail_if : Bool → Error → Result (Unit {0})
bail_if true e = err e
bail_if false e = ok tt

abbrev pub is_ok {ℓ} : {A : Type ℓ} → Result A → Bool
is_ok (ok a) = true
is_ok (err e) = false

abbrev pub to_option {ℓ} : {A : Type ℓ} → Result A → Option A
to_option (ok a) = some a
to_option (err e) = none

abbrev pub option_is_some {ℓ} : {A : Type ℓ} → Option A → Bool
option_is_some (some a) = true
option_is_some none = false

pub Result-cases {ℓ} :
    {A : Type ℓ} (r : Result A) → ((a : A) × (r ≡ ok a)) ⊎ ((e : Error) × (r ≡ err e))
Result-cases (ok a) = inl (a, refl)
Result-cases (err e) = inr (e, refl)

pub ok-injective {ℓ} : {A : Type ℓ} {a b : A} → ok a ≡ ok b → a ≡ b
ok-injective e = cc
