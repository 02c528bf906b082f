-- ===== src/Json/Pieces.antt =====
-- What may be written, and the pieces that its reading is put together from.
use whirl.Prelude.{
  ℕ, suc, ◌+◌, ◌≤◌, ◌<◌, ◌≡◌, ◌∙◌, refl, ap, sym, subst, [], ◌∷◌, ◌++◌, true, false, Text, codes,
  length, ◌==◌, All, arith,
}
use whirl.Json.{
  Node, node, Value, null, bool, num, str, arr, obj, Nodes, nil, cons, Entries, end, entry,
  push_node, push_entry, holds_key, at, Reader, and_then, done, newline, is_ws,
}
use whirl.Json.Parser.{array_loop, value, Document, document}
use whirl.Json.Write.{
  string_into, indent_into, comma_line, is_nil, is_end, write_json, write_elements, write_entries,
}
use whirl.Json.Total.{value-Keeps}
use whirl.Json.Escapes.{IsAscii}
use whirl.Json.Literals.{length-chars_into}
use whirl.Json.Numerals.{Stops, IsNumeral}
use whirl.Json.Numbers.{is_number_byte}
use whirl.Strings.Number.{is_decimal}
use whirl.Json.Comes.{Comes, Comes-le}
use whirl.Json.Same.{
  unlined, unlined_nodes, unlined_entries, append_nodes, append_entries, append_nodes-push_node,
  append_entries-push_entry, append_nodes-nil, append_entries-end,
}
use whirl.Json.Steps.{value-elements, number_start}
use whirl.Json.Loops.{behind_element, element_next}

-- Texts of ASCII, numbers that are displayed as they were read, and no key twice.
unfoldable mutual
  pub Writable : (Text → Text) → Node → Type 0
  Writable display (node v line) = WritableValue display v

  pub WritableValue : (Text → Text) → Value → Type 0
  WritableValue display null = Unit
  WritableValue display (bool b) = Unit
  WritableValue display (num t) = (display t ≡ t) × IsNumeral t
  WritableValue display (str s) = All IsAscii s
  WritableValue display (arr ns) = WritableNodes display ns
  WritableValue display (obj es) = WritableEntries display es

  pub WritableNodes : (Text → Text) → Nodes → Type 0
  WritableNodes display nil = Unit
  WritableNodes display (cons n ns) = Writable display n × WritableNodes display ns

  pub WritableEntries : (Text → Text) → Entries → Type 0
  WritableEntries display end = Unit
  WritableEntries display (entry key n es) =
      All IsAscii key × Writable display n × (holds_key key es ≡ false) × WritableEntries display es

-- A node, elements and entries as they are read back behind those that are there.
abbrev pub SameNode : Node → Node → Type 0
SameNode n m = unlined m ≡ unlined n

abbrev pub Elements : Nodes → Nodes → Value → Type 0
Elements before ns v =
    (ms : Nodes) × (v ≡ arr (append_nodes before ms)) × (unlined_nodes ms ≡ unlined_nodes ns)

abbrev pub Objects : Entries → Entries → Value → Type 0
Objects before es v =
    (fs : Entries) × (v ≡ obj (append_entries before fs))
    × (unlined_entries fs ≡ unlined_entries es)

-- The document is read, and differs from `n` in its lines alone.
pub data Reparsed (n : Node) : Document → Type 0 where
  reparsed : (m : Node) → unlined m ≡ unlined n → Reparsed n (document m)

-- A value begins with a byte that is no white space and closes no array.
abbrev pub Begins : Text → Type 0
Begins t = (c : ℕ) × (s : Text) × (t ≡ c ∷ s) × (is_ws c ≡ false) × ((c == b']') ≡ false)

module _ (display : Text → Text) where
  pub write_json-Begins :
      (n : Node) (indent : ℕ) (rest : Text)
      → Writable display n
      → Begins (write_json display indent n rest)
  unfolding write_json string_into is_ws Writable
  write_json-Begins (node null line) indent rest w = (b'n', codes "ull" ++ rest, refl, refl, refl)
  write_json-Begins (node (bool true) line) indent rest w =
      (b't', codes "rue" ++ rest, refl, refl, refl)
  write_json-Begins (node (bool false) line) indent rest w =
      (b'f', codes "alse" ++ rest, refl, refl, refl)
  write_json-Begins (node (num []) line) indent rest w = absurd (omega (arith, w.1))
  write_json-Begins (node (num (c ∷ s)) line) indent rest (shown, numeral) =
      let (ws, b1, b2, b3, b4, b5, b6, bracket) = number_start c numeral.0 in
      (c, s ++ rest, ap (λ t. t ++ rest) shown, ws, bracket)
  write_json-Begins (node (str s) line) indent rest w = (b'"', _, refl, refl, refl)
  write_json-Begins (node (arr nil) line) indent rest w = (b'[', _, refl, refl, refl)
  write_json-Begins (node (arr (cons n ns)) line) indent rest w = (b'[', _, refl, refl, refl)
  write_json-Begins (node (obj end) line) indent rest w = (b'{', _, refl, refl, refl)
  write_json-Begins (node (obj (entry key n es)) line) indent rest w = (b'{', _, refl, refl, refl)

  -- The elements without the indentation of the first, to the end of the array; and likewise the entries.
  abbrev pub elements_text : ℕ → Nodes → Text → Text
  elements_text indent nil rest = rest
  elements_text indent (cons n ns) rest =
      write_json display (suc indent) n (
        comma_line (is_nil ns)
          (write_elements display indent ns (indent_into indent (b']' ∷ rest))))

  abbrev pub value_text : ℕ → Node → Entries → Text → Text
  value_text indent n es rest =
      write_json display (suc indent) n (
        comma_line (is_end es) (write_entries display indent es (indent_into indent (b'}' ∷ rest))))

  abbrev pub entries_text : ℕ → Entries → Text → Text
  entries_text indent end rest = rest
  entries_text indent (entry key n es) rest =
      string_into key (b':' ∷ b' ' ∷ value_text indent n es rest)

  -- The text behind a value is no longer than the text with it.
  pub behind-le :
      (fuel indent : ℕ) (n : Node) (behind : Text) (line : ℕ)
      → length (write_json display indent n behind) < fuel
      → Comes (SameNode n) behind (value fuel (at (write_json display indent n behind) line))
      → length behind ≤ length (write_json display indent n behind)
  behind-le fuel indent n behind line small comes_back =
      Comes-le (SameNode n) behind _ _ comes_back
        (value-Keeps fuel fuel (omega arith) (at (write_json display indent n behind) line) small)

pub value-elements_of :
    (fuel k : ℕ) (t : Text) (line : ℕ)
    → Begins t
    → value (suc fuel) (at (b'[' ∷ newline ∷ indent_into k t) line)
      ≡ and_then (array_loop fuel (value fuel) nil (at t (suc line))) (λ v. done (node v line))
value-elements_of fuel k t line (c, s, e, ws, b) =
    subst
      (λ u.
        value (suc fuel) (at (b'[' ∷ newline ∷ indent_into k u) line)
        ≡ and_then (array_loop fuel (value fuel) nil (at u (suc line))) (λ v. done (node v line)))
      (sym e) (value-elements fuel k c s line ws b)

pub element_next_of :
    (more : Reader Value) (ns : Nodes) (k : ℕ) (t : Text) (line : ℕ)
    → Begins t
    → behind_element more ns (at (b',' ∷ newline ∷ indent_into k t) line) ≡ more (at t (suc line))
element_next_of more ns k t line (c, s, e, ws, b) =
    subst
      (λ u.
        behind_element more ns (at (b',' ∷ newline ∷ indent_into k u) line)
        ≡ more (at u (suc line)))
      (sym e) (element_next more ns k c s line ws b)

pub newline-Stops : (s : Text) → Stops (newline ∷ s)
unfolding is_number_byte is_decimal
newline-Stops s = refl

pub comma-Stops : (s : Text) → Stops (b',' ∷ s)
unfolding is_number_byte is_decimal
comma-Stops s = refl

pub last_element :
    (before : Nodes) (n m : Node)
    → SameNode n m
    → Elements before (cons n nil) (arr (push_node before m))
unfolding unlined
last_element before n m same = (
  cons m nil,
  ap arr (sym (append_nodes-nil (push_node before m)) ∙ append_nodes-push_node before m nil),
  ap (λ x. cons x nil) same,
)

pub more-Elements :
    (before : Nodes) (n m : Node) (ns : Nodes) (v : Value)
    → SameNode n m
    → Elements (push_node before m) ns v
    → Elements before (cons n ns) v
unfolding unlined
more-Elements before n m ns v same (ms, e, h) = (
  cons m ms,
  e ∙ ap arr (append_nodes-push_node before m ms),
  ap (λ x. cons x (unlined_nodes ms)) same ∙ ap (cons (unlined n)) h,
)

pub last_entry :
    (before : Entries) (key : Text) (n m : Node)
    → SameNode n m
    → Objects before (entry key n end) (obj (push_entry before key m))
unfolding unlined
last_entry before key n m same = (
  entry key m end,
  ap obj (
      sym (append_entries-end (push_entry before key m))
      ∙ append_entries-push_entry before key m end),
  ap (λ x. entry key x end) same,
)

pub more_entries :
    (before : Entries) (key : Text) (n m : Node) (es : Entries) (v : Value)
    → SameNode n m
    → Objects (push_entry before key m) es v
    → Objects before (entry key n es) v
unfolding unlined
more_entries before key n m es v same (fs, e, h) = (
  entry key m fs,
  e ∙ ap obj (append_entries-push_entry before key m fs),
  ap (λ x. entry key x (unlined_entries fs)) same ∙ ap (entry key (unlined n)) h,
)

pub nothing_there : true ≡ false → ⊥
nothing_there e = cc

pub key_first : (key text : Text) → length text + 3 ≤ length (string_into key (b':' ∷ b' ' ∷ text))
unfolding string_into
key_first key text = omega (arith, length-chars_into key (b'"' ∷ b':' ∷ b' ' ∷ text))

pub array_node :
    (ns : Nodes) (k line : ℕ) (v : Value)
    → Elements nil ns v
    → SameNode (node (arr ns) k) (node v line)
unfolding unlined append_nodes
array_node ns k line v (ms, e, h) = ap (λ x. unlined (node x line)) e ∙ ap (λ x. node (arr x) 0) h

pub object_node :
    (es : Entries) (k line : ℕ) (v : Value)
    → Objects end es v
    → SameNode (node (obj es) k) (node v line)
unfolding unlined append_entries
object_node es k line v (fs, e, h) = ap (λ x. unlined (node x line)) e ∙ ap (λ x. node (obj x) 0) h
