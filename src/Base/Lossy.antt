-- ===== src/Base/Lossy.antt =====
-- `String::from_utf8_lossy`: a maximal prefix of a bad sequence becomes one U+FFFD, and decoding goes
-- on at the byte that broke it.
use Prim.Native.Nat.{ℕ, ◌+◌, ◌-◌, ◌*◌}
use mathlib.Core.Path.{◌≡◌, refl}
use mathlib.Core.Bool.{◌&&◌}
use mathlib.Core.List.{[], ◌∷◌, ◌++◌}
use tapwarden.Base.Tests.{leb, ltb, ◌==◌, if◌then◌else◌}
use tapwarden.Base.Texts.{Text, Bytes}

-- Between two characters, or inside one: the bits so far, the range that the next byte has to lie in
-- and the number of bytes still to come.
pub data Pending : Type 0 where
  idle : Pending
  more : ℕ → ℕ → ℕ → ℕ → Pending

abbrev pub replacement : ℕ
replacement = 0xFFFD

-- A byte at the start of a character: what it gives, and what it opens.
unfoldable pub begin_char : ℕ → Text × Pending
begin_char b =
    if ltb b 0x80
    then (b ∷ [], idle)
    else (if leb 0xC2 b && leb b 0xDF
        then ([], more (b - 0xC0) 0x80 0xBF 1)
        else (if b == 0xE0
            then ([], more 0 0xA0 0xBF 2)
            else (if b == 0xED
                then ([], more 13 0x80 0x9F 2)
                else (if leb 0xE1 b && leb b 0xEF
                    then ([], more (b - 0xE0) 0x80 0xBF 2)
                    else (if b == 0xF0
                        then ([], more 0 0x90 0xBF 3)
                        else (if b == 0xF4
                            then ([], more 4 0x80 0x8F 3)
                            else (if leb 0xF1 b && leb b 0xF3
                                then ([], more (b - 0xF0) 0x80 0xBF 3)
                                else (replacement ∷ [], idle))))))))

abbrev broken : Text × Pending → Text × Pending
broken (s, p) = (replacement ∷ s, p)

unfoldable pub feed : Pending → ℕ → Text × Pending
unfolding begin_char
feed idle b = begin_char b
feed (more bits low high left) b =
    if leb low b && leb b high
    then (if left == 1
        then ((bits * 64 + (b - 0x80)) ∷ [], idle)
        else ([], more (bits * 64 + (b - 0x80)) 0x80 0xBF (left - 1)))
    else broken (begin_char b)

unfoldable pub decode_from : Pending → Bytes → Text
unfolding feed
decode_from idle [] = []
decode_from (more bits low high left) [] = replacement ∷ []
decode_from p (b ∷ bs) = let (s, q) = feed p b in s ++ decode_from q bs

unfoldable pub from_utf8_lossy : Bytes → Text
unfolding decode_from
from_utf8_lossy bs = decode_from idle bs

-- A character over two, three and four bytes, a lone continuation byte, and a character that is cut.
from_utf8_lossy_test :
    from_utf8_lossy (
      65 ∷ 0xC3 ∷ 0xA9 ∷ 0xE2 ∷ 0x82 ∷ 0xAC ∷ 0xF0 ∷ 0x9F ∷ 0x98 ∷ 0x80 ∷ 0x80 ∷ 0xE2 ∷ 0x82 ∷ 66
      ∷ [])
    ≡ 65 ∷ 0xE9 ∷ 0x20AC ∷ 0x1F600 ∷ 0xFFFD ∷ 0xFFFD ∷ 66 ∷ []
unfolding from_utf8_lossy decode_from feed begin_char
from_utf8_lossy_test = refl
