-- ===== src/Json/Strings.antt =====
-- `Parser::string` and `Parser::hex4`.
use whirl.Prelude.{
  ℕ, zero, suc, ◌+◌, ◌-◌, ◌*◌, ◌/◌, ◌%◌, [], ◌∷◌, ◌++◌, Bool, true, false, not, ◌&&◌, ◌||◌, Option,
  none, some, Text, codes, length, ltb, leb, ◌==◌, if◌then◌else◌,
}
use whirl.Json.{
  Reason, Cursor, at, ok, err, spent, Reader, ◌>>=◌, ◌>>◌, done, fail, fail_at, next_line, newline,
  here, bump, expect, unterminated_string, unterminated_escape, not_a_low_surrogate, invalid_pair,
  control_character, not_utf8, unterminated_u, not_hex, unknown_escape, not_a_character,
}

-- `char::from_u32`, and `String::push`.
unfoldable pub is_char : ℕ → Bool
is_char code = ltb code 0xd800 || (leb 0xe000 code && leb code 0x10ffff)

unfoldable pub utf8 : ℕ → Text
utf8 code =
    if ltb code 0x80
    then code ∷ []
    else if ltb code 0x800
    then (0xc0 + code / 64) ∷ (0x80 + code % 64) ∷ []
    else if ltb code 0x10000
    then (0xe0 + code / 4096) ∷ (0x80 + code / 64 % 64) ∷ (0x80 + code % 64) ∷ []
    else (0xf0 + code / 262144)
      ∷ (0x80 + code / 4096 % 64)
      ∷ (0x80 + code / 64 % 64)
      ∷ (0x80 + code % 64)
      ∷ []

-- `std::str::from_utf8`: the bytes that a lead byte asks for, the first of them within bounds.
unfoldable pub is_tail : ℕ → Bool
is_tail c = leb 0x80 c && ltb c 0xc0

pub data Expected : Type 0 where
  lead : Expected
  second : ℕ → ℕ → ℕ → Expected
  tails : ℕ → Expected

unfoldable pub after_lead : ℕ → Option Expected
after_lead c =
    if ltb c 0x80
    then some lead
    else if leb 0xc2 c && ltb c 0xe0
    then some (tails 1)
    else if c == 0xe0
    then some (second 0xa0 0xc0 1)
    else if c == 0xed
    then some (second 0x80 0xa0 1)
    else if leb 0xe1 c && ltb c 0xf0
    then some (tails 2)
    else if c == 0xf0
    then some (second 0x90 0xc0 2)
    else if leb 0xf1 c && ltb c 0xf4
    then some (tails 3)
    else if c == 0xf4
    then some (second 0x80 0x90 2)
    else none

unfoldable pub after_byte : Expected → ℕ → Option Expected
unfolding after_lead is_tail
after_byte lead c = after_lead c
after_byte (second low high n) c = if leb low c && ltb c high then some (tails n) else none
after_byte (tails zero) c = after_lead c
after_byte (tails (suc n)) c = if is_tail c then some (tails n) else none

unfoldable pub is_utf8_after : Option Expected → Text → Bool
unfolding after_byte
is_utf8_after none s = false
is_utf8_after (some lead) [] = true
is_utf8_after (some (second low high n)) [] = false
is_utf8_after (some (tails n)) [] = n == 0
is_utf8_after (some e) (c ∷ s) = is_utf8_after (after_byte e c) s

abbrev pub is_utf8 : Text → Bool
is_utf8 s = is_utf8_after (some lead) s

-- `(byte as char).to_digit(16)`.
unfoldable pub to_digit : ℕ → Option ℕ
to_digit c =
    if leb b'0' c && leb c b'9'
    then some (c - b'0')
    else if leb b'a' c && leb c b'f'
    then some (c - b'a' + 10)
    else if leb b'A' c && leb c b'F'
    then some (c - b'A' + 10)
    else none

unfoldable pub hex_digit_of : Option ℕ → Reader ℕ
hex_digit_of none = fail unterminated_u
hex_digit_of (some c) = elim (to_digit c) [ none ↦ fail not_hex | some d ↦ done d ]

unfoldable pub hex_digits : ℕ → ℕ → Reader ℕ
hex_digits zero value = done value
hex_digits (suc n) value = do b ← bump; digit ← hex_digit_of b; hex_digits n (value * 16 + digit)

abbrev pub hex4 : Reader ℕ
hex4 = hex_digits 4 0

unfoldable pub push_char : ℕ → Reason → Reader (Option Text)
unfolding is_char utf8
push_char code why = if is_char code then done (some (utf8 code)) else fail why

unfoldable pub surrogate_pair : ℕ → Reader (Option Text)
unfolding hex_digits push_char
surrogate_pair high = do
  expect b'\\' (codes "a low surrogate")
  expect b'u' (codes "a low surrogate")
  low ← hex4
  if not (leb 0xdc00 low && ltb low 0xe000)
      then fail not_a_low_surrogate
      else push_char (0x10000 + (high - 0xd800) * 1024 + (low - 0xdc00)) invalid_pair

unfoldable pub unicode : Reader (Option Text)
unfolding hex_digits push_char surrogate_pair
unicode = do
  high ← hex4
  if leb 0xd800 high && ltb high 0xdc00
      then surrogate_pair high
      else push_char high (not_a_character high)

unfoldable pub escape : Option ℕ → Reader (Option Text)
unfolding unicode
escape none = fail unterminated_escape
escape (some c) =
    if (c == b'"') || (c == b'\\') || (c == b'/')
    then done (some (c ∷ []))
    else if c == b'b'
    then done (some (8 ∷ []))
    else if c == b'f'
    then done (some (12 ∷ []))
    else if c == b'n'
    then done (some (10 ∷ []))
    else if c == b'r'
    then done (some (13 ∷ []))
    else if c == b't'
    then done (some (9 ∷ []))
    else if c == b'u'
    then unicode
    else fail (unknown_escape c)

unfoldable pub control : ℕ → Reader (Option Text)
control c (at s line) = err (if c == newline then line - 1 else line) control_character line

-- `byte < 0x80 || byte >= 0x20 && byte != b'"' && byte != b'\\'`, where the copying breaks off.
unfoldable pub breaks : ℕ → Bool
breaks c = ltb c 0x80 || (leb 0x20 c && (not (c == b'"') && not (c == b'\\')))

unfoldable pub copied : Text → ℕ → Text × Cursor
unfolding breaks
copied [] line = ([], at [] line)
copied (c ∷ s) line = elim (breaks c) [
  | true ↦ ([], at (c ∷ s) line)
  | false ↦ let (more, p) = copied s (next_line c line) in (c ∷ more, p)
]

unfoldable pub chunk : ℕ → Reader (Option Text)
unfolding copied is_utf8_after
chunk c (at s line) =
    let (more, p) = copied s line in
    if is_utf8 (c ∷ more) then ok (some (c ∷ more)) p else fail not_utf8 p

-- One turn of the loop over the characters: what it adds, or none at the closing quote.
unfoldable pub string_turn : ℕ → Option ℕ → Reader (Option Text)
unfolding escape control chunk
string_turn start none = fail_at start unterminated_string
string_turn start (some c) =
    if c == b'"'
    then done none
    else if c == b'\\'
    then (bump >>= escape)
    else if ltb c 0x20
    then control c
    else chunk c

unfoldable pub string_from : ℕ → ℕ → Text → Reader Text
unfolding string_turn
string_from zero start out = λ p. spent
string_from (suc fuel) start out = do
  b ← bump
  added ← string_turn start b
  elim added [ none ↦ done out | some more ↦ string_from fuel start (out ++ more) ]

unfoldable pub string_body : ℕ → Reader Text
unfolding string_from
string_body start (at s line) = string_from (suc (length s)) start [] (at s line)

unfoldable pub string : Reader Text
unfolding string_body
string = do start ← here; expect b'"' (codes "a string"); string_body start
