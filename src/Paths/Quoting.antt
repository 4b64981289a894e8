-- ===== src/Paths/Quoting.antt =====
-- That a shell reads the exported line back as the socket's path.
use tapwarden.Base.{
  ℕ, ◌≡◌, refl, Bool, true, false, Option, none, some, [], ◌∷◌, ◌++◌, Text, text, replace, ◌==◌,
  if◌then◌else◌, Bool-cases, inl, inr, ==_iff,
}
use tapwarden.Paths.{quoted, export_line}

-- How a shell reads one word: bare, in single quotes, or right after a backslash.
pub data Mode : Type 0 where
  bare inside escaped : Mode

-- The mode after a character, and whether the character stands for itself. Outside quotes only
-- backslashes and quotes are read.
abbrev step : Mode → ℕ → Option (Mode × Bool)
step bare c =
    if c == b'\''
    then some (inside, false)
    else (if c == b'\\' then some (escaped, false) else none)
step inside c = if c == b'\'' then some (bare, false) else some (inside, true)
step escaped c = some (bare, true)

abbrev take_in : Option (Mode × Bool) → ℕ → (Mode → Option Text) → Option Text
take_in none c rest = none
take_in (some (m, false)) c rest = rest m
take_in (some (m, true)) c rest = elim (rest m) [ none ↦ none | some s ↦ some (c ∷ s) ]

-- The text that a shell makes of a word of quoted parts and escaped characters, if it is complete.
unfoldable pub shell_word : Mode → Text → Option Text
shell_word bare [] = some []
shell_word inside [] = none
shell_word escaped [] = none
shell_word m (c ∷ s) = take_in (step m c) c (λ n. shell_word n s)

reads_other :
    (c : ℕ) (s t : Text)
    → (c == b'\'') ≡ false
    → shell_word inside s ≡ some t
    → shell_word inside (c ∷ s) ≡ some (c ∷ t)
unfolding shell_word
reads_other c s t other e = rw (other, e) refl

reads-quoted :
    (path : Text) → shell_word inside (replace b'\'' (text "'\\''") path ++ b'\'' ∷ []) ≡ some path
unfolding replace shell_word text
reads-quoted [] = refl
reads-quoted (c ∷ s) = elim (Bool-cases (c == b'\'')) [
  | inl quote ↦ rw (quote, reads-quoted s, (==_iff c b'\'').0 quote)
  | inr other ↦ rw other (reads_other c _ s other (reads-quoted s))
]

-- The exported line sets the variable to one word, which a shell reads as exactly the path, whatever
-- characters the path has.
pub export_line-shell_word :
    (path : Text)
    → (word : Text) × (export_line path ≡ text "export SSH_AUTH_SOCK=" ++ word)
      × (shell_word bare word ≡ some path)
unfolding export_line shell_word
export_line-shell_word path = (quoted path, refl, unfold quoted in reads-quoted path)
