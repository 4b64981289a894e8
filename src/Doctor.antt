-- ===== src/Doctor.antt =====
-- src/doctor.rs: the report of `tapwarden doctor` and its verdict. `printed` is what the report has
-- written to the standard output, one text for each `println!`. The checks are in the children.
pub mod Checks
pub mod Wiring
pub mod Run
pub mod Tally
pub mod Counted
pub mod Verdict
use tapwarden.Base.{
  ℕ, ◌+◌, Bool, Option, none, some, List, [], ◌∷◌, ◌++◌, Text, text, decimal, is_empty, Result, ok,
  err, ltb, if◌then◌else◌,
}

pub data Status : Type 0 where
  fine warn fail : Status

pub record Report : Type 0 where
  pub fails : ℕ
  pub warns : ℕ
  pub lines : ℕ
  pub hints : ℕ
  pub printed : List Text

-- `Report::new`
abbrev pub new : Report
new = record { fails = 0; warns = 0; lines = 0; hints = 0; printed = [] }

-- `println!`
unfoldable pub print : Text → Report → Report
print s r = record r { printed = r.printed ++ s ∷ [] }

unfoldable pub tag : Status → Text
tag fine = text "[ ok ]"
tag warn = text "[warn]"
tag fail = text "[fail]"

unfoldable pub shown : Status → Text → Text → Text
unfolding tag
shown status label detail =
    if is_empty detail
    then tag status ++ (text " " ++ label)
    else tag status ++ (text " " ++ (label ++ (text ": " ++ detail)))

unfoldable pub counted : Status → Report → Report
counted fine r = r
counted warn r = record r { warns = r.warns + 1 }
counted fail r = record r { fails = r.fails + 1 }

unfoldable pub line : Status → Text → Text → Report → Report
unfolding print shown counted
line status label detail r =
    print (shown status label detail) (counted status (record r { lines = r.lines + 1 }))

unfoldable pub hint : Text → Report → Report
unfolding print
hint s r = print (text "       hint: " ++ s) (record r { hints = r.hints + 1 })

unfoldable pub header_line : Text → Option Text → Text
header_line version (some exe) = text "tapwarden doctor " ++ version ++ text " (" ++ exe ++ text ")"
header_line version none = text "tapwarden doctor " ++ version

unfoldable pub verdict : ℕ → ℕ → Result Text
verdict fails warns =
    if ltb 0 fails
    then err (
        (text "doctor found "
          ++ decimal fails
          ++ text " problem(s) and "
          ++ decimal warns
          ++ text " warning(s) — see the [fail] lines above")
        ∷ [])
    else (if ltb 0 warns
        then ok (text "doctor: no failures, " ++ decimal warns ++ text " warning(s).")
        else ok (text "doctor: all checks passed."))
