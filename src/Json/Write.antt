-- ===== src/Json/Write.antt =====
-- What is written as JSON: `write_json` of crates/whirl-cli/src/report.rs, and the literals of
-- crates/whirl-core/src/state.rs. Each is put in front of the text that follows it. How a number is
-- displayed is an argument.
use whirl.Prelude.{
  ℕ, zero, suc, ◌+◌, ◌-◌, ◌/◌, ◌%◌, [], ◌∷◌, ◌++◌, Bool, true, false, Text, codes, ltb, ◌==◌,
  if◌then◌else◌,
}
use whirl.Json.{
  Node, node, Value, null, bool, num, str, arr, obj, Nodes, nil, cons, Entries, end, entry, newline,
}

abbrev pub hex_lower : ℕ → ℕ
hex_lower d = if ltb d 10 then b'0' + d else b'a' + (d - 10)

unfoldable pub char_into : ℕ → Text → Text
char_into c rest =
    if c == b'"'
    then b'\\' ∷ b'"' ∷ rest
    else if c == b'\\'
    then b'\\' ∷ b'\\' ∷ rest
    else if c == newline
    then b'\\' ∷ b'n' ∷ rest
    else if c == 13
    then b'\\' ∷ b'r' ∷ rest
    else if c == 9
    then b'\\' ∷ b't' ∷ rest
    else if ltb c 0x20
    then b'\\' ∷ b'u' ∷ b'0' ∷ b'0' ∷ hex_lower (c / 16) ∷ hex_lower (c % 16) ∷ rest
    else c ∷ rest

unfoldable pub chars_into : Text → Text → Text
unfolding char_into
chars_into [] rest = rest
chars_into (c ∷ s) rest = char_into c (chars_into s rest)

unfoldable pub string_into : Text → Text → Text
unfolding chars_into
string_into s rest = b'"' ∷ chars_into s (b'"' ∷ rest)

abbrev pub write_json_string : Text → Text → Text
write_json_string s rest = string_into s rest

unfoldable pub indent_into : ℕ → Text → Text
indent_into zero rest = rest
indent_into (suc n) rest = b' ' ∷ b' ' ∷ indent_into n rest

-- `,` behind all but the last, and the end of the line.
abbrev pub comma_line : Bool → Text → Text
comma_line true rest = newline ∷ rest
comma_line false rest = b',' ∷ newline ∷ rest

abbrev pub is_nil : Nodes → Bool
is_nil nil = true
is_nil (cons n ns) = false

abbrev pub is_end : Entries → Bool
is_end end = true
is_end (entry key n es) = false

unfoldable mutual
  unfolding string_into indent_into

  pub write_json : (Text → Text) → ℕ → Node → Text → Text
  write_json display indent (node v line) rest = write_value display indent v rest

  pub write_value : (Text → Text) → ℕ → Value → Text → Text
  write_value display indent null rest = codes "null" ++ rest
  write_value display indent (bool true) rest = codes "true" ++ rest
  write_value display indent (bool false) rest = codes "false" ++ rest
  write_value display indent (num text) rest = display text ++ rest
  write_value display indent (str s) rest = write_json_string s rest
  write_value display indent (arr nil) rest = b'[' ∷ b']' ∷ rest
  write_value display indent (arr (cons n ns)) rest =
      b'[' ∷ newline ∷ write_elements display indent (cons n ns) (indent_into indent (b']' ∷ rest))
  write_value display indent (obj end) rest = b'{' ∷ b'}' ∷ rest
  write_value display indent (obj (entry key n es)) rest =
      b'{'
      ∷ newline
      ∷ write_entries display indent (entry key n es) (indent_into indent (b'}' ∷ rest))

  pub write_elements : (Text → Text) → ℕ → Nodes → Text → Text
  write_elements display indent nil rest = rest
  write_elements display indent (cons n ns) rest = indent_into (suc indent) (
      write_json display (suc indent) n
        (comma_line (is_nil ns) (write_elements display indent ns rest)))

  pub write_entries : (Text → Text) → ℕ → Entries → Text → Text
  write_entries display indent end rest = rest
  write_entries display indent (entry key n es) rest = indent_into (suc indent) (
      write_json_string key (
        b':'
        ∷ b' '
        ∷ write_json display (suc indent) n
            (comma_line (is_end es) (write_entries display indent es rest))))
