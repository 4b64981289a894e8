-- ===== src/Paths/Compare.antt =====
-- `==` of two `Path`s, which compares their components: a repeated or trailing slash and a `.` do not
-- count, except a `.` that a relative path starts with.
use tapwarden.Base.{
  Bool, true, false, not, ◌&&◌, ◌||◌, List, [], ◌∷◌, Text, text, text_eq, split, filter, is_empty,
  starts_with,
}

abbrev is_component : Text → Bool
is_component s = not (is_empty s || text_eq s (text "."))

abbrev pub texts_eq : List Text → List Text → Bool
texts_eq [] [] = true
texts_eq [] (t ∷ ts) = false
texts_eq (s ∷ ss) [] = false
texts_eq (s ∷ ss) (t ∷ ts) = text_eq s t && texts_eq ss ts

-- Whether a list of pieces starts with a `.`.
abbrev starts_here : List Text → Bool
starts_here [] = false
starts_here (s ∷ rest) = text_eq s (text ".")

abbrev same_bool : Bool → Bool → Bool
same_bool true b = b
same_bool false b = not b

unfoldable pub path_eq : Text → Text → Bool
unfolding split
path_eq p q =
    same_bool (starts_with (text "/") p) (starts_with (text "/") q)
    && same_bool (starts_here (split b'/' p)) (starts_here (split b'/' q))
    && texts_eq (filter is_component (split b'/' p)) (filter is_component (split b'/' q))
