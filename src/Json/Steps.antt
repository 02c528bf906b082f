-- ===== src/Json/Steps.antt =====
-- The steps of the reader on the pieces that `write_json` writes.
use whirl.Prelude.{
  ℕ, zero, suc, ◌≡◌, ◌∙◌, refl, ap, ◌∷◌, some, ◌++◌, true, false, ◌||◌, Text, codes, ◌==◌, All,
  if◌then◌else◌, arith,
}
use whirl.Strings.Number.{is_decimal}
use whirl.Json.{
  Node, node, Value, null, bool, num, str, arr, obj, nil, end, here, Cursor, at, Parsed, ok, Reader,
  and_then, ◌>>=◌, ◌>>◌, done, newline, is_ws, past_ws, peek, bump,
}
use whirl.Json.Numbers.{number_literal}
use whirl.Json.Parser.{
  literal_from, found_byte, object_loop, object, array_loop, array, value_of, value,
}
use whirl.Json.Write.{string_into, indent_into}
use whirl.Json.Escapes.{IsAscii}
use whirl.Json.Literals.{string-string_into}
use whirl.Json.Numerals.{Stops, IsNumeral, number_literal-append}
use whirl.Json.Comes.{Comes, comes, past_ws-indent_into}

pub value-space :
    (fuel : ℕ) (t : Text) (line : ℕ) → value fuel (at (b' ' ∷ t) line) ≡ value fuel (at t line)
unfolding value past_ws is_ws
value-space zero t line = refl
value-space (suc fuel) t line = refl

pub node-Comes :
    (P : Node → Type 0) (rest : Text) (r : Parsed Value) (line : ℕ)
    → Comes (λ v. P (node v line)) rest r
    → Comes P rest (and_then r (λ v. done (node v line)))
node-Comes P rest r line (comes v l h) = comes (node v line) l h

pub value-string :
    (fuel : ℕ) (s rest : Text) (line : ℕ)
    → All IsAscii s
    → value (suc fuel) (at (string_into s rest) line) ≡ ok (node (str s) line) (at rest line)
unfolding value value_of string_into past_ws is_ws
value-string fuel s rest line h =
    ap (λ r. and_then (and_then r (λ t. done (str t))) (λ v. done (node v line)))
      (string-string_into s rest line h)

pub value-null :
    (fuel : ℕ) (rest : Text) (line : ℕ)
    → value (suc fuel) (at (codes "null" ++ rest) line) ≡ ok (node null line) (at rest line)
unfolding value value_of past_ws is_ws literal_from
value-null fuel rest line = refl

pub value-true :
    (fuel : ℕ) (rest : Text) (line : ℕ)
    → value (suc fuel) (at (codes "true" ++ rest) line) ≡ ok (node (bool true) line) (at rest line)
unfolding value value_of past_ws is_ws literal_from
value-true fuel rest line = refl

pub value-false :
    (fuel : ℕ) (rest : Text) (line : ℕ)
    → value (suc fuel) (at (codes "false" ++ rest) line)
      ≡ ok (node (bool false) line) (at rest line)
unfolding value value_of past_ws is_ws literal_from
value-false fuel rest line = refl

pub value-no_elements :
    (fuel : ℕ) (rest : Text) (line : ℕ)
    → value (suc fuel) (at (b'[' ∷ b']' ∷ rest) line) ≡ ok (node (arr nil) line) (at rest line)
unfolding value value_of past_ws is_ws array found_byte
value-no_elements fuel rest line = refl

pub value-no_entries :
    (fuel : ℕ) (rest : Text) (line : ℕ)
    → value (suc fuel) (at (b'{' ∷ b'}' ∷ rest) line) ≡ ok (node (obj end) line) (at rest line)
unfolding value value_of past_ws is_ws object found_byte
value-no_entries fuel rest line = refl

-- The bytes that begin a number begin nothing else.
pub number_start :
    (c : ℕ)
    → ((c == b'-') || is_decimal c) ≡ true
    → (is_ws c ≡ false)
      × ((c == b'{') ≡ false)
      × ((c == b'[') ≡ false)
      × ((c == b'"') ≡ false)
      × ((c == b't') ≡ false)
      × ((c == b'f') ≡ false)
      × ((c == b'n') ≡ false)
      × ((c == b']') ≡ false)
unfolding is_decimal is_ws
number_start c h = (
  ground arith,
  ground arith,
  ground arith,
  ground arith,
  ground arith,
  ground arith,
  ground arith,
  ground arith,
)

past_ws-stays :
    (c : ℕ) (s : Text) (line : ℕ) → is_ws c ≡ false → past_ws (c ∷ s) line ≡ at (c ∷ s) line
unfolding past_ws
past_ws-stays c s line h = rw (h, past_ws) refl

-- `value` from where the white space ends.
from_here : ℕ → Reader Node
from_here fuel =
    here >>= λ line. peek >>= λ b. value_of fuel (value fuel) b >>= λ v. done (node v line)

value-from_here :
    (fuel : ℕ) (t : Text) (line : ℕ)
    → value (suc fuel) (at t line) ≡ from_here fuel (past_ws t line)
unfolding value from_here
value-from_here fuel t line = refl

value_of-number_literal :
    (fuel c : ℕ) (p : Cursor)
    → ((c == b'-') || is_decimal c) ≡ true
    → value_of fuel (value fuel) (some c) p ≡ (number_literal >>= λ text. done (num text)) p
unfolding value_of
value_of-number_literal fuel c p h =
    let (w, a, b, q, t, f, n, e) = number_start c h in rw (a, b, q, t, f, n, h, value_of) refl

pub value-number_literal :
    (fuel c : ℕ) (s rest : Text) (line : ℕ)
    → IsNumeral (c ∷ s)
    → Stops rest
    → value (suc fuel) (at (c ∷ s ++ rest) line) ≡ ok (node (num (c ∷ s)) line) (at rest line)
unfolding from_here
value-number_literal fuel c s rest line h stop =
    let w = (number_start c h.0).0 in
    value-from_here fuel (c ∷ s ++ rest) line
    ∙ ap (from_here fuel) (past_ws-stays c (s ++ rest) line w)
    ∙ ap (λ r. and_then r (λ v. done (node v line)))
        (value_of-number_literal fuel c (at (c ∷ s ++ rest) line) h.0
          ∙ ap (λ r. and_then r (λ text. done (num text)))
              (number_literal-append c s rest line h stop))

object_inside : ℕ → Reader Node → Reader Value
object_inside fuel rec =
    peek >>= λ b. if found_byte b b'}' then (bump >> done (obj end)) else object_loop fuel rec end

array_inside : ℕ → Reader Node → Reader Value
array_inside fuel rec =
    peek >>= λ b. if found_byte b b']' then (bump >> done (arr nil)) else array_loop fuel rec nil

pub past_indent :
    (k c : ℕ) (s : Text) (line : ℕ)
    → is_ws c ≡ false
    → past_ws (indent_into k (c ∷ s)) line ≡ at (c ∷ s) line
past_indent k c s line h = past_ws-indent_into k (c ∷ s) line ∙ past_ws-stays c s line h

pub value-entries :
    (fuel k : ℕ) (key s : Text) (line : ℕ)
    → value (suc fuel) (at (b'{' ∷ newline ∷ indent_into k (string_into key s)) line)
      ≡ and_then
          (object_loop fuel (value fuel) end (at (string_into key s) (suc line)))
          (λ v. done (node v line))
unfolding value value_of object object_inside past_ws is_ws string_into found_byte
value-entries fuel k key s line =
    ap (λ p. and_then (object_inside fuel (value fuel) p) (λ v. done (node v line)))
      (past_indent k b'"' _ (suc line) refl)

pub value-elements :
    (fuel k c : ℕ) (s : Text) (line : ℕ)
    → is_ws c ≡ false
    → (c == b']') ≡ false
    → value (suc fuel) (at (b'[' ∷ newline ∷ indent_into k (c ∷ s)) line)
      ≡ and_then
          (array_loop fuel (value fuel) nil (at (c ∷ s) (suc line)))
          (λ v. done (node v line))
unfolding value value_of array array_inside past_ws is_ws found_byte
value-elements fuel k c s line h e =
    ap (λ p. and_then (array_inside fuel (value fuel) p) (λ v. done (node v line)))
      (past_indent k c s (suc line) h)
    ∙ rw e refl
