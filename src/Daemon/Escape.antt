-- ===== src/Daemon/Escape.antt =====
-- That the three passes of the XML escaping do not disturb each other.
use tapwarden.Base.{
  ℕ, ◌≡◌, refl, ap, ◌∙◌, sym, [], ◌∷◌, ◌++◌, Text, text, replace, ◌==◌, arith, if◌then◌else◌,
}
use mathlib.Core.List.{append_assoc}
use tapwarden.Daemon.{xml_escape}

-- How one character is written in a text node.
abbrev pub entity : ℕ → Text
entity c =
    if c == b'&'
    then text "&amp;"
    else (if c == b'<' then text "&lt;" else (if c == b'>' then text "&gt;" else c ∷ []))

abbrev pub escape_each : Text → Text
escape_each [] = []
escape_each (c ∷ s) = entity c ++ escape_each s

replace-append : (c : ℕ) (t s r : Text) → replace c t (s ++ r) ≡ replace c t s ++ replace c t r
unfolding replace
replace-append c t [] r = refl
replace-append c t (x ∷ s) r =
    ap (λ l. (if x == c then t else x ∷ []) ++ l) (replace-append c t s r)
    ∙ sym (append_assoc (if x == c then t else x ∷ []) (replace c t s) (replace c t r))

xml_escape-append : (s r : Text) → xml_escape (s ++ r) ≡ xml_escape s ++ xml_escape r
unfolding xml_escape
xml_escape-append s r = rw (replace-append, replace-append, replace-append) refl

xml_escape_one : (c : ℕ) → xml_escape (c ∷ []) ≡ entity c
unfolding xml_escape replace text
xml_escape_one c = ground arith

-- The three passes come to one: each `&`, `<` and `>` of the text becomes its entity and everything
-- else stays as it is, so that no entity is escaped a second time.
pub xml_escape-escape_each : (s : Text) → xml_escape s ≡ escape_each s
xml_escape-escape_each [] = unfold xml_escape in refl
xml_escape-escape_each (c ∷ s) =
    xml_escape-append (c ∷ []) s
    ∙ ap (λ l. l ++ xml_escape s) (xml_escape_one c)
    ∙ ap (λ l. entity c ++ l) (xml_escape-escape_each s)
