-- ===== src/Json/Parser.antt =====
-- `Parser::value`, `object`, `array`, `literal`, and `parse`. A value within a value, and a turn of a
-- loop, takes one off the fuel; `parse` has one more than the bytes of the text.
use whirl.Prelude.{
  ℕ, zero, suc, [], ◌∷◌, Bool, true, false, ◌||◌, Option, none, some, Text, codes, length, ◌==◌,
  if◌then◌else◌,
}
use whirl.Strings.Number.{is_decimal}
use whirl.Json.{
  Node, node, Value, null, bool, num, str, arr, obj, Nodes, nil, Entries, end, node_line, push_node,
  push_entry, holds_key, Reason, at, Parsed, ok, err, spent, Reader, ◌>>=◌, ◌>>◌, done, fail,
  fail_at, next_line, here, peek, bump, past_ws, skip_ws, expect, trailing_content, no_value,
  trailing_comma_object, expected_comma_object, trailing_comma_array, expected_comma_array,
  unexpected, duplicate_key, bad_literal, in_an_object_key,
}
use whirl.Json.Strings.{string}
use whirl.Json.Numbers.{number_literal}

unfoldable pub literal_from : Text → Text → Reader (Unit {0})
literal_from word [] p = ok tt p
literal_from word (e ∷ w) (at [] line) = err line (bad_literal word) line
literal_from word (e ∷ w) (at (c ∷ s) line) = elim (c == e) [
  | true ↦ literal_from word w (at s (next_line c line))
  | false ↦ fail (bad_literal word) (at s (next_line c line))
]

abbrev pub literal : Text → Reader (Unit {0})
literal word = literal_from word word

unfoldable pub found_byte : Option ℕ → ℕ → Bool
found_byte none byte = false
found_byte (some c) byte = c == byte

-- The error of a key, told again at the line where the parser then stands.
unfoldable pub retold {ℓ} : {A : Type ℓ} → Parsed A → Parsed A
retold (ok a p) = ok a p
retold (err line why now) = err now (in_an_object_key why) now
retold spent = spent

unfoldable pub in_key {ℓ} : {A : Type ℓ} → Reader A → Reader A
unfolding retold
in_key m p = retold (m p)

-- Behind an entry: another one, the end of the object, or neither.
unfoldable pub after_entry : Reader Value → Entries → Option ℕ → Reader Value
unfolding found_byte
after_entry more entries b =
    if found_byte b b','
    then (do
      bump
      skip_ws
      c ← peek
      if found_byte c b'}' then fail trailing_comma_object else more)
    else if found_byte b b'}'
    then (bump >> done (obj entries))
    else fail expected_comma_object

unfoldable pub object_loop : ℕ → Reader Node → Entries → Reader Value
unfolding string in_key after_entry past_ws
object_loop zero value entries = λ p. spent
object_loop (suc fuel) value entries = do
  skip_ws
  key ← in_key string
  skip_ws
  expect b':' (codes "a colon after the key")
  n ← value
  if holds_key key entries then fail_at (node_line n) (duplicate_key key) else do
    skip_ws
    b ← peek
    after_entry (object_loop fuel value (push_entry entries key n)) (push_entry entries key n) b

unfoldable pub object : ℕ → Reader Node → Reader Value
unfolding found_byte object_loop past_ws
object fuel value = do
  expect b'{' (codes "an object")
  skip_ws
  b ← peek
  if found_byte b b'}' then (bump >> done (obj end)) else object_loop fuel value end

unfoldable pub after_element : Reader Value → Nodes → Option ℕ → Reader Value
unfolding found_byte
after_element more elements b =
    if found_byte b b','
    then (do bump; skip_ws; c ← peek; if found_byte c b']' then fail trailing_comma_array else more)
    else if found_byte b b']'
    then (bump >> done (arr elements))
    else fail expected_comma_array

unfoldable pub array_loop : ℕ → Reader Node → Nodes → Reader Value
unfolding after_element past_ws
array_loop zero value elements = λ p. spent
array_loop (suc fuel) value elements = do
  n ← value
  skip_ws
  b ← peek
  after_element (array_loop fuel value (push_node elements n)) (push_node elements n) b

unfoldable pub array : ℕ → Reader Node → Reader Value
unfolding found_byte array_loop past_ws
array fuel value = do
  expect b'[' (codes "an array")
  skip_ws
  b ← peek
  if found_byte b b']' then (bump >> done (arr nil)) else array_loop fuel value nil

unfoldable pub value_of : ℕ → Reader Node → Option ℕ → Reader Value
unfolding object array string literal_from number_literal is_decimal
value_of fuel value none = fail no_value
value_of fuel value (some c) =
    if c == b'{'
    then object fuel value
    else if c == b'['
    then array fuel value
    else if c == b'"'
    then (string >>= λ s. done (str s))
    else if c == b't'
    then (literal (codes "true") >> done (bool true))
    else if c == b'f'
    then (literal (codes "false") >> done (bool false))
    else if c == b'n'
    then (literal (codes "null") >> done null)
    else if (c == b'-') || is_decimal c
    then (number_literal >>= λ text. done (num text))
    else fail (unexpected c)

unfoldable pub value : ℕ → Reader Node
unfolding value_of past_ws
value zero = λ p. spent
value (suc fuel) = do
  skip_ws
  line ← here
  b ← peek
  v ← value_of fuel (value fuel) b
  done (node v line)

pub data Document : Type 0 where
  document : Node → Document
  refused : ℕ → Reason → Document
  unfinished : Document

unfoldable pub closed : Parsed Node → Document
closed (ok n (at [] line)) = document n
closed (ok n (at (c ∷ s) line)) = refused line trailing_content
closed (err line why now) = refused line why
closed spent = unfinished

unfoldable pub whole : ℕ → Reader Node
unfolding value past_ws
whole fuel = do skip_ws; n ← value fuel; skip_ws; done n

unfoldable pub parse : Text → Document
unfolding whole closed
parse text = closed (whole (suc (length text)) (at text 1))
