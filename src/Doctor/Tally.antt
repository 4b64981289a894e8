-- ===== src/Doctor/Tally.antt =====
-- That the counters of the report count what it has printed.
use tapwarden.Base.{
  ℕ, ◌+◌, ◌≡◌, refl, ap, ◌∙◌, Bool, false, List, [], ◌∷◌, ◌++◌, Text, text, starts_with,
  strip_prefix, arith, if◌then◌else◌,
}
use tapwarden.Doctor.{Status, Report, fine, warn, fail, new, line, hint, print, shown, counted, tag}

abbrev pub count : (Text → Bool) → List Text → ℕ
count p [] = 0
count p (s ∷ rest) = (if p s then 1 else 0) + count p rest

count-append : (p : Text → Bool) (xs ys : List Text) → count p (xs ++ ys) ≡ count p xs + count p ys
count-append p [] ys = omega arith
count-append p (x ∷ xs) ys = omega (arith, count-append p xs ys)

-- How a printed text shows what it is.
abbrev pub is_fail : Text → Bool
is_fail s = starts_with (text "[fail]") s

abbrev pub is_warn : Text → Bool
is_warn s = starts_with (text "[warn]") s

abbrev pub is_fine : Text → Bool
is_fine s = starts_with (text "[ ok ]") s

abbrev pub is_hint : Text → Bool
is_hint s = starts_with (text "       hint: ") s

-- Each counter is the number of the printed texts of its kind.
pub record IsTally (r : Report) : Type 0 where
  pub fails : r.fails ≡ count is_fail r.printed
  pub warns : r.warns ≡ count is_warn r.printed
  pub lines :
      r.lines ≡ count is_fine r.printed + (count is_warn r.printed + count is_fail r.printed)
  pub hints : r.hints ≡ count is_hint r.printed

-- What printing a text adds.
printed-IsTally :
    (s : Text) (r r' : Report)
    → r'.printed ≡ r.printed ++ s ∷ []
    → IsTally r
    → r'.fails ≡ r.fails + (if is_fail s then 1 else 0)
    → r'.warns ≡ r.warns + (if is_warn s then 1 else 0)
    → r'.lines
      ≡ r.lines
        + ((if is_fine s then 1 else 0)
            + ((if is_warn s then 1 else 0) + (if is_fail s then 1 else 0)))
    → r'.hints ≡ r.hints + (if is_hint s then 1 else 0)
    → IsTally r'
printed-IsTally s r r' e t f w l h = record {
  fails = omega (arith, t.fails, added is_fail);
  warns = omega (arith, t.warns, added is_warn);
  lines = omega (arith, t.lines, added is_fine, added is_warn, added is_fail);
  hints = omega (arith, t.hints, added is_hint);
}
  where
    added : (p : Text → Bool) → count p r'.printed ≡ count p r.printed + (if p s then 1 else 0)
    added p = ap (count p) e ∙ (count-append p r.printed (s ∷ []) ∙ omega arith)

pub line-IsTally :
    (status : Status) (label detail : Text) (r : Report)
    → IsTally r
    → IsTally (line status label detail r)
unfolding line print shown counted tag text starts_with strip_prefix
line-IsTally fine label [] r t =
    printed-IsTally _ r _ refl t (omega arith) (omega arith) (omega arith) (omega arith)
line-IsTally fine label (c ∷ d) r t =
    printed-IsTally _ r _ refl t (omega arith) (omega arith) (omega arith) (omega arith)
line-IsTally warn label [] r t =
    printed-IsTally _ r _ refl t (omega arith) (omega arith) (omega arith) (omega arith)
line-IsTally warn label (c ∷ d) r t =
    printed-IsTally _ r _ refl t (omega arith) (omega arith) (omega arith) (omega arith)
line-IsTally fail label [] r t =
    printed-IsTally _ r _ refl t (omega arith) (omega arith) (omega arith) (omega arith)
line-IsTally fail label (c ∷ d) r t =
    printed-IsTally _ r _ refl t (omega arith) (omega arith) (omega arith) (omega arith)

pub hint-IsTally : (s : Text) (r : Report) → IsTally r → IsTally (hint s r)
unfolding hint print text starts_with strip_prefix
hint-IsTally s r t =
    printed-IsTally _ r _ refl t (omega arith) (omega arith) (omega arith) (omega arith)

-- A text of no kind.
abbrev pub IsPlain : Text → Type 0
IsPlain s = (is_fail s ≡ false) × (is_warn s ≡ false) × (is_fine s ≡ false) × (is_hint s ≡ false)

pub print-IsTally : (s : Text) (r : Report) → IsPlain s → IsTally r → IsTally (print s r)
unfolding print
print-IsTally s r (a, b, c, d) t =
    printed-IsTally s r _ refl t (rw a (omega arith)) (rw b (omega arith))
      (rw (a, b, c) (omega arith)) (rw d (omega arith))

pub new-IsTally : IsTally new
new-IsTally = record { fails = refl; warns = refl; lines = refl; hints = refl }
