-- ===== src/Common/Device/Utf8.antt =====
-- `std::str::from_utf8`: which byte sequences are UTF-8, as the standard library documents it.
use odyssey_desktop.Prelude.{
  ℕ, Bool, true, false, ◌&&◌, Option, none, some, List, [], ◌∷◌, Bytes, ltb, leb, ◌==◌,
  if◌then◌else◌,
}

abbrev pub Range : Type 0
Range = ℕ × ℕ

abbrev tail_byte : Range
tail_byte = (0x80, 0xBF)

-- The ranges of the bytes that must follow a leading byte, if it is one.
abbrev pub follow : ℕ → Option (List Range)
follow b =
    if ltb b 0x80
    then some []
    else if ltb b 0xC2
    then none
    else if ltb b 0xE0
    then some (tail_byte ∷ [])
    else if b == 0xE0
    then some ((0xA0, 0xBF) ∷ tail_byte ∷ [])
    else if b == 0xED
    then some ((0x80, 0x9F) ∷ tail_byte ∷ [])
    else if ltb b 0xF0
    then some (tail_byte ∷ tail_byte ∷ [])
    else if b == 0xF0
    then some ((0x90, 0xBF) ∷ tail_byte ∷ tail_byte ∷ [])
    else if ltb b 0xF4
    then some (tail_byte ∷ tail_byte ∷ tail_byte ∷ [])
    else if b == 0xF4
    then some ((0x80, 0x8F) ∷ tail_byte ∷ tail_byte ∷ [])
    else none

unfoldable pub utf8_from : List Range → Bytes → Bool
utf8_from [] [] = true
utf8_from (r ∷ rs) [] = false
utf8_from [] (b ∷ bs) = elim (follow b) [ none ↦ false | some rs ↦ utf8_from rs bs ]
utf8_from (r ∷ rs) (b ∷ bs) = leb r.0 b && leb b r.1 && utf8_from rs bs

unfoldable pub utf8_valid : Bytes → Bool
unfolding utf8_from
utf8_valid s = utf8_from [] s
