-- ===== src/Json/Loops.antt =====
-- The turns of the reader's loops on the entries and elements that `write_json` writes.
use whirl.Prelude.{
  ℕ, suc, ◌≡◌, ◌∙◌, refl, ap, sym, subst, ◌∷◌, false, Text, codes, ◌==◌, All, if◌then◌else◌,
}
use whirl.Json.{
  Node, Value, arr, obj, Nodes, Entries, node_line, push_node, push_entry, holds_key, at, ok,
  Reader, and_then, ◌>>=◌, newline, is_ws, past_ws, peek, skip_ws, expect, fail, fail_at,
  duplicate_key, trailing_comma_object, trailing_comma_array,
}
use whirl.Json.Parser.{
  found_byte, retold, in_key, after_entry, object_loop, after_element, array_loop, value,
}
use whirl.Json.Write.{string_into, indent_into}
use whirl.Json.Escapes.{IsAscii}
use whirl.Json.Literals.{string-string_into}
use whirl.Json.Comes.{Comes, Comes-bind}
use whirl.Json.Steps.{value-space, past_indent}

-- Behind a value: the end of the object or the array, or a comma and the next one.
abbrev pub behind_entry : Reader Value → Entries → Reader Value
behind_entry more es = skip_ws >>= λ u. peek >>= λ b. after_entry more es b

abbrev pub behind_element : Reader Value → Nodes → Reader Value
behind_element more ns = skip_ws >>= λ u. peek >>= λ b. after_element more ns b

pub entry_last :
    (more : Reader Value) (es : Entries) (k : ℕ) (rest : Text) (line : ℕ)
    → behind_entry more es (at (newline ∷ indent_into k (b'}' ∷ rest)) line)
      ≡ ok (obj es) (at rest (suc line))
unfolding after_entry found_byte past_ws is_ws
entry_last more es k rest line =
    ap (λ p. (peek >>= λ b. after_entry more es b) p) (past_indent k b'}' rest (suc line) refl)

pub element_last :
    (more : Reader Value) (ns : Nodes) (k : ℕ) (rest : Text) (line : ℕ)
    → behind_element more ns (at (newline ∷ indent_into k (b']' ∷ rest)) line)
      ≡ ok (arr ns) (at rest (suc line))
unfolding after_element found_byte past_ws is_ws
element_last more ns k rest line =
    ap (λ p. (peek >>= λ b. after_element more ns b) p) (past_indent k b']' rest (suc line) refl)

pub entry_next :
    (more : Reader Value) (es : Entries) (k : ℕ) (key s : Text) (line : ℕ)
    → behind_entry more es (at (b',' ∷ newline ∷ indent_into k (string_into key s)) line)
      ≡ more (at (string_into key s) (suc line))
unfolding after_entry found_byte past_ws is_ws string_into
entry_next more es k key s line =
    ap (λ p. (peek >>= λ c. if found_byte c b'}' then fail trailing_comma_object else more) p)
      (past_indent k b'"' _ (suc line) refl)

pub element_next :
    (more : Reader Value) (ns : Nodes) (k c : ℕ) (s : Text) (line : ℕ)
    → is_ws c ≡ false
    → (c == b']') ≡ false
    → behind_element more ns (at (b',' ∷ newline ∷ indent_into k (c ∷ s)) line)
      ≡ more (at (c ∷ s) (suc line))
unfolding after_element found_byte past_ws is_ws
element_next more ns k c s line h e =
    ap (λ p. (peek >>= λ d. if found_byte d b']' then fail trailing_comma_array else more) p)
      (past_indent k c s (suc line) h)
    ∙ rw e refl

-- One entry: its key, the colon, its value, and what stands behind.
after_value : ℕ → ℕ → Entries → Text → Node → Reader Value
after_value fuel rec es key n =
    if holds_key key es
    then fail_at (node_line n) (duplicate_key key)
    else behind_entry (object_loop fuel (value rec) (push_entry es key n)) (push_entry es key n)

after_key : ℕ → ℕ → Entries → Text → Reader Value
after_key fuel rec es key = skip_ws >>= λ u. expect b':' (codes "a colon after the key") >>= λ w.
    value rec >>= λ n. after_value fuel rec es key n

object_loop-key :
    (fuel rec : ℕ) (es : Entries) (key text : Text) (line : ℕ)
    → All IsAscii key
    → object_loop (suc fuel) (value rec) es (at (string_into key (b':' ∷ b' ' ∷ text)) line)
      ≡ and_then (value rec (at text line)) (after_value fuel rec es key)
unfolding object_loop string_into past_ws is_ws in_key retold after_key after_value
object_loop-key fuel rec es key text line ascii =
    ap (λ r. and_then (retold r) (after_key fuel rec es))
      (string-string_into key (b':' ∷ b' ' ∷ text) line ascii)
    ∙ ap (λ r. and_then r (after_value fuel rec es key)) (value-space rec text line)

pub object_loop-entry :
    (P : Node → Type 0) (Q : Value → Type 0) (fuel rec : ℕ) (es : Entries)
    (key text behind rest : Text) (line : ℕ)
    → All IsAscii key
    → holds_key key es ≡ false
    → Comes P behind (value rec (at text line))
    → ((n : Node) (l : ℕ)
        → P n
        → Comes Q rest (
            behind_entry
              (object_loop fuel (value rec) (push_entry es key n))
              (push_entry es key n)
              (at behind l)))
    → Comes Q rest
        (object_loop (suc fuel) (value rec) es (at (string_into key (b':' ∷ b' ' ∷ text)) line))
unfolding after_value
object_loop-entry P Q fuel rec es key text behind rest line ascii new hv next =
    subst (Comes Q rest) (sym (object_loop-key fuel rec es key text line ascii)) (
      Comes-bind P Q behind rest (value rec (at text line)) _ hv
        λ n l h. rw (new, after_value) (next n l h))

pub array_loop-element :
    (P : Node → Type 0) (Q : Value → Type 0) (fuel rec : ℕ) (ns : Nodes) (text behind rest : Text)
    (line : ℕ)
    → Comes P behind (value rec (at text line))
    → ((n : Node) (l : ℕ)
        → P n
        → Comes Q rest (
            behind_element
              (array_loop fuel (value rec) (push_node ns n))
              (push_node ns n)
              (at behind l)))
    → Comes Q rest (array_loop (suc fuel) (value rec) ns (at text line))
unfolding array_loop
array_loop-element P Q fuel rec ns text behind rest line hv next =
    Comes-bind P Q behind rest (value rec (at text line)) _ hv next
