-- ===== src/Base/Lines.antt =====
-- `str::lines`: a line ends at a line feed, and a carriage return before it belongs to the ending. A
-- last line without a line feed stays as it is; an empty one is none.
use mathlib.Core.List.{List, [], ◌∷◌}
use tapwarden.Base.Tests.{◌==◌, if◌then◌else◌}
use tapwarden.Base.Texts.{Text, split}
use tapwarden.Base.Lists.{is_empty}

unfoldable pub strip_return : Text → Text
strip_return [] = []
strip_return (c ∷ []) = if c == 13 then [] else c ∷ []
strip_return (c ∷ d ∷ s) = c ∷ strip_return (d ∷ s)

unfoldable pub ended_lines : List Text → List Text
unfolding strip_return
ended_lines [] = []
ended_lines (s ∷ []) = if is_empty s then [] else s ∷ []
ended_lines (s ∷ t ∷ rest) = strip_return s ∷ ended_lines (t ∷ rest)

unfoldable pub lines : Text → List Text
unfolding ended_lines split
lines s = ended_lines (split 10 s)
