-- ===== src/StateFile/Blank.antt =====
-- `text.trim().is_empty()`: nothing but white space, in UTF-8.
use whirl.Prelude.{
  ℕ, [], ◌∷◌, Bool, true, false, ◌||◌, ◌&&◌, Option, none, some, Text, leb, ◌==◌, if◌then◌else◌,
}

-- What was read of a character beyond ASCII.
pub data Blank : Type 0 where
  between c2 e1 e1_9a e2 e2_80 e2_81 e3 e3_80 : Blank

unfoldable pub blank_byte : Blank → ℕ → Option Blank
blank_byte between c =
    if (leb 9 c && leb c 13) || (c == b' ')
    then some between
    else if c == 0xc2
    then some c2
    else if c == 0xe1
    then some e1
    else if c == 0xe2
    then some e2
    else if c == 0xe3
    then some e3
    else none
blank_byte c2 c = if (c == 0x85) || (c == 0xa0) then some between else none
blank_byte e1 c = if c == 0x9a then some e1_9a else none
blank_byte e1_9a c = if c == 0x80 then some between else none
blank_byte e2 c = if c == 0x80 then some e2_80 else if c == 0x81 then some e2_81 else none
blank_byte e2_80 c =
    if (leb 0x80 c && leb c 0x8a) || (c == 0xa8) || (c == 0xa9) || (c == 0xaf)
    then some between
    else none
blank_byte e2_81 c = if c == 0x9f then some between else none
blank_byte e3 c = if c == 0x80 then some e3_80 else none
blank_byte e3_80 c = if c == 0x80 then some between else none

unfoldable pub is_blank_from : Blank → Text → Bool
unfolding blank_byte
is_blank_from between [] = true
is_blank_from at [] = false
is_blank_from at (c ∷ s) = elim (blank_byte at c) [
  | none ↦ false
  | some next ↦ is_blank_from next s
]

abbrev pub is_blank : Text → Bool
is_blank text = is_blank_from between text
