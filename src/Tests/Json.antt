-- ===== src/Tests/Json.antt =====
-- A tree that is written and read, and a text with a letter beyond ASCII.
use whirl.Prelude.{◌≡◌, ◌≢◌, refl, [], ◌∷◌, ◌++◌, Text, codes, true, text_eq, arith}
use whirl.Json.{
  Node, node, null, bool, num, str, arr, obj, nil, cons, end, entry, at, err, not_utf8,
  trailing_comma_object, newline, holds_key,
}
use whirl.Strings.Number.{is_decimal}
use whirl.Json.Numbers.{is_number_byte, is_float}
use whirl.Json.Strings.{string}
use whirl.Json.Parser.{refused, unfinished, parse}
use whirl.Json.Write.{string_into, write_json}
use whirl.Json.Total.{parse-answers}
use whirl.Json.Literals.{string-refuses}
use whirl.Json.Pieces.{Writable, Reparsed}
use whirl.Json.Roundtrip.{parse-write_json}

abbrev shown : Text → Text
shown text = text

abbrev tree : Node
tree =
    node
      (obj (
        entry (codes "a b") (node (arr (cons (node null 0) (cons (node (bool true) 0) nil))) 0) (
          entry (codes "c") (node (str (codes "q\"\n\t")) 0)
            (entry (codes "d") (node (num (codes "7")) 0) end))))
      0

tree-Writable : Writable shown tree
unfolding Writable holds_key text_eq is_decimal is_float is_number_byte
tree-Writable = (
  omega arith,
  (tt, (tt, tt)),
  refl,
  (omega arith, omega arith, refl, (omega arith, (refl, (refl, (refl, tt), refl)), refl, tt)),
)

parse-write_json_example : Reparsed tree (parse (write_json shown 0 tree (newline ∷ [])))
parse-write_json_example = parse-write_json shown tree tree-Writable

parse-answers_example : parse (codes "[[[{\"a\": [1, \"") ≢ unfinished
parse-answers_example = parse-answers (codes "[[[{\"a\": [1, \"")

-- A path with an umlaut, which UTF-8 writes as the bytes c3 bc.
string-refuses_example :
    string (at (string_into (codes "/k" ++ 0xc3 ∷ (0xbc ∷ codes "che.jpg")) (codes ",")) 3)
    ≡ err 3 not_utf8 3
string-refuses_example =
    string-refuses (codes "/k") (0xbc ∷ codes "che.jpg") (codes ",") 0xc3 3 (omega arith)
      (omega arith)

broken_off : parse (codes "{\n  \"a\": 1,\n}") ≡ refused 3 trailing_comma_object
unfolding parse holds_key
broken_off = refl
