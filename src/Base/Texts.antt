-- ===== src/Base/Texts.antt =====
-- A Rust `str` or `String` as the list of its code points, with the `str` methods that the
-- program calls. A byte string is the list of its bytes.
use Prim.Native.Nat.{ℕ, zero, suc, ◌+◌, ◌/◌, ◌%◌}
use Prim.Native.Char.{code}
use Prim.Native.String.{String}
use mathlib.Core.Path.{◌≡◌, refl}
use mathlib.Core.Logic.{◌↔◌}
use mathlib.Core.Bool.{Bool, true, false, ◌&&◌, ◌||◌}
use mathlib.Core.Option.{Option, none, some}
use mathlib.Core.List.{List, [], ◌∷◌, ◌++◌, map}
use native.Mathlib.Omega.{arith}
use tapwarden.Base.Tests.{ltb, leb, ◌==◌, if◌then◌else◌, Eq}
use tapwarden.Base.Lists.{is_empty, any}

abbrev pub Text : Type 0
Text = List ℕ

abbrev pub Bytes : Type 0
Bytes = List ℕ

-- A literal. It stays shut: a proof that has to look into one unfolds it.
unfoldable pub text : String → Text
text String.[] = []
text (String.◌∷◌ c s) = code c ∷ text s

-- `str::as_bytes`: the UTF-8 encoding.
unfoldable pub utf8_char : ℕ → Bytes
utf8_char c =
    if ltb c 128
    then c ∷ []
    else (if ltb c 2048
        then (192 + c / 64) ∷ (128 + c % 64) ∷ []
        else (if ltb c 65536
            then (224 + c / 4096) ∷ (128 + c / 64 % 64) ∷ (128 + c % 64) ∷ []
            else (240 + c / 262144)
              ∷ (128 + c / 4096 % 64)
              ∷ (128 + c / 64 % 64)
              ∷ (128 + c % 64)
              ∷ []))

unfoldable pub utf8 : Text → Bytes
unfolding utf8_char
utf8 [] = []
utf8 (c ∷ s) = utf8_char c ++ utf8 s

-- `==` of two texts.
unfoldable pub text_eq : Text → Text → Bool
text_eq [] [] = true
text_eq [] (d ∷ t) = false
text_eq (c ∷ s) [] = false
text_eq (c ∷ s) (d ∷ t) = c == d && text_eq s t

pub text_eq_iff : (s t : Text) → (text_eq s t ≡ true) ↔ (s ≡ t)
unfolding text_eq
text_eq_iff [] [] = (λ h. refl, λ h. refl)
text_eq_iff [] (d ∷ t) = (λ h. cc, λ h. cc)
text_eq_iff (c ∷ s) [] = (λ h. cc, λ h. cc)
text_eq_iff (c ∷ s) (d ∷ t) =
    (λ h. ground (arith, text_eq_iff s t), λ h. ground (arith, text_eq_iff s t))

instance abbrev pub text_key : Eq Text
text_key = record { beq = text_eq; beq_iff = text_eq_iff }

-- `split(c)`: the pieces between the separators, at least one.
abbrev pub cons_head : ℕ → List Text → List Text
cons_head x [] = (x ∷ []) ∷ []
cons_head x (s ∷ rest) = (x ∷ s) ∷ rest

unfoldable pub split : ℕ → Text → List Text
split c [] = [] ∷ []
split c (x ∷ xs) = let rest = split c xs in if x == c then [] ∷ rest else cons_head x rest

-- `split_once(c)`: at the first separator.
abbrev pub extend_first : ℕ → Option (Text × Text) → Option (Text × Text)
extend_first x none = none
extend_first x (some (s, t)) = some (x ∷ s, t)

unfoldable pub split_once : ℕ → Text → Option (Text × Text)
split_once c [] = none
split_once c (x ∷ xs) =
    let rest = split_once c xs in if x == c then some ([], xs) else extend_first x rest

-- `strip_prefix(p)`, `starts_with(p)`, `contains(p)`.
unfoldable pub strip_prefix : Text → Text → Option Text
strip_prefix [] s = some s
strip_prefix (p ∷ ps) [] = none
strip_prefix (p ∷ ps) (c ∷ s) = let rest = strip_prefix ps s in if p == c then rest else none

unfoldable pub starts_with : Text → Text → Bool
unfolding strip_prefix
starts_with p s = elim (strip_prefix p s) [ none ↦ false | some _ ↦ true ]

unfoldable pub contains : Text → Text → Bool
unfolding starts_with
contains p [] = is_empty p
contains p (c ∷ s) = starts_with p (c ∷ s) || contains p s

-- `contains(c)` of a character.
unfoldable pub contains_char : ℕ → Text → Bool
contains_char c s = any (λ x. x == c) s

-- `char::is_whitespace` (the Unicode White_Space property) and `char::is_control` (category Cc).
unfoldable pub is_whitespace : ℕ → Bool
is_whitespace c =
    leb 9 c && leb c 13
    || c == 32
    || c == 0x85
    || c == 0xA0
    || c == 0x1680
    || leb 0x2000 c && leb c 0x200A
    || c == 0x2028
    || c == 0x2029
    || c == 0x202F
    || c == 0x205F
    || c == 0x3000

unfoldable pub is_control : ℕ → Bool
is_control c = leb c 0x1F || leb 0x7F c && leb c 0x9F

-- `trim` at the two ends, and `trim_end_matches(c)`.
unfoldable pub trim_start_by : (ℕ → Bool) → Text → Text
trim_start_by p [] = []
trim_start_by p (c ∷ s) = let rest = trim_start_by p s in if p c then rest else c ∷ s

unfoldable pub trim_end_by : (ℕ → Bool) → Text → Text
trim_end_by p [] = []
trim_end_by p (c ∷ s) = let rest = trim_end_by p s in if is_empty rest && p c then [] else c ∷ rest

unfoldable pub trim : Text → Text
unfolding trim_start_by trim_end_by is_whitespace
trim s = trim_end_by is_whitespace (trim_start_by is_whitespace s)

unfoldable pub trim_end_matches : ℕ → Text → Text
unfolding trim_end_by
trim_end_matches c s = trim_end_by (λ x. x == c) s

-- `to_ascii_lowercase`.
unfoldable pub to_ascii_lowercase : Text → Text
to_ascii_lowercase s = map (λ c. if leb b'A' c && leb c b'Z' then c + 32 else c) s

-- `replace(c, t)` of one character by a text.
unfoldable pub replace : ℕ → Text → Text → Text
replace c t [] = []
replace c t (x ∷ xs) = (if x == c then t else x ∷ []) ++ replace c t xs

-- `format!("{n}")` of an unsigned number. A number has at most as many digits as its value plus one.
unfoldable pub decimal_from : ℕ → ℕ → Text → Text
decimal_from zero n acc = acc
decimal_from (suc f) n acc =
    let rest = decimal_from f (n / 10) ((48 + n % 10) ∷ acc) in
    if ltb n 10 then (48 + n) ∷ acc else rest

unfoldable pub decimal : ℕ → Text
unfolding decimal_from
decimal n = decimal_from (suc n) n []

-- `join(sep)`.
unfoldable pub join : Text → List Text → Text
join sep [] = []
join sep (s ∷ []) = s
join sep (s ∷ t ∷ rest) = s ++ (sep ++ join sep (t ∷ rest))
