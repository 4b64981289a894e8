-- ===== src/Setup/Quoting.antt =====
-- That a value written to the configuration file is read back as it is.
use tapwarden.Base.{
  ℕ, Bool, ◌||◌, Option, none, some, [], ◌∷◌, Text, is_control, leb, ◌&&◌, ◌==◌, if◌then◌else◌,
}

abbrev extend : ℕ → Option (Text × Text) → Option (Text × Text)
extend c none = none
extend c (some (s, rest)) = some (c ∷ s, rest)

-- What YAML lets stand for itself inside a double-quoted scalar on one line, as far as controls go: a
-- tab, but no line break (which a reader would fold) and no other control character.
abbrev pub is_plain : ℕ → Bool
is_plain c = c == 9 || leb 32 c && (leb c 126 || leb 160 c)

abbrev pub step_scalar : ℕ → Text → Option (Text × Text) → Option (Text × Text)
step_scalar c s rest =
    if c == b'"'
    then some ([], s)
    else (if c == b'\\' then none else (if is_plain c then extend c rest else none))

-- A reader of double-quoted scalars of YAML, from behind the opening quote on, which is to find them on
-- one line and without escapes: a quote ends the scalar, a backslash, a line break or another control
-- character makes the reader fail, and everything else stands for itself. It returns what follows too.
abbrev pub scalar_body : Text → Option (Text × Text)
scalar_body [] = none
scalar_body (c ∷ s) = step_scalar c s (scalar_body s)

abbrev pub scalar : Text → Option (Text × Text)
scalar [] = none
scalar (c ∷ s) = if c == b'"' then scalar_body s else none

abbrev is_special : ℕ → Bool
is_special c = c == b'"' || c == b'\\' || is_control c
