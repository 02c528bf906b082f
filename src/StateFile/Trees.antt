-- ===== src/StateFile/Trees.antt =====
-- The trees of the state files: how their entries are written, and how they are read back.
use whirl.Prelude.{
  ℕ, suc, ◌≡◌, ◌∙◌, refl, ap, sym, subst, List, [], ◌∷◌, false, Option, none, some, Text, codes,
  All, arith,
}
use whirl.Prelude.Decimal.{decimal}
use whirl.Vocabulary.Kind.{Kind, local, wallhaven, external, parse-as_str}
use whirl.Vocabulary.Kind
use whirl.Json.{Node, node, Value, null, num, str, arr, obj, Nodes, nil, cons, Entries, newline}
use whirl.Json.Same.{unlined_entries}
use whirl.Json.Parser.{parse}
use whirl.Json.Escapes.{IsAscii}
use whirl.Json.Write.{indent_into, write_json, write_elements}
use whirl.Json.Numerals.{decimal-IsNumeral}
use whirl.Json.Pieces.{Writable, WritableNodes, Reparsed}
use whirl.Json.Roundtrip.{parse-write_json}
use whirl.StateFile.{Answered, ok, ◌>>=◌}
use whirl.StateFile.Blank.{is_blank}
use whirl.StateFile.Fields.{state_document, opt_str_of, kind_of_name}
use whirl.StateFile.Unlined.{root_back}
use whirl.StateFile.Pieces.{entries_into, closing}

abbrev pub shown : Text → Text
shown literal = literal

abbrev pub leaf : Value → Node
leaf v = node v 0

abbrev pub optional_leaf : Option Text → Node
optional_leaf none = leaf null
optional_leaf (some s) = leaf (str s)

unfoldable pub nodes_of {ℓ} : {A : Type ℓ} → (A → Node) → List A → Nodes
nodes_of tree [] = nil
nodes_of tree (e ∷ es) = cons (tree e) (nodes_of tree es)

module _ {ℓ} {A : Type ℓ} (one : A → Text → Text) (tree : A → Node)
    (written : (a : A) (rest : Text)
      → one a rest ≡ newline ∷ indent_into 2 (write_json shown 2 (tree a) rest)) where
  entries_written :
      (a : A) (es : List A) (index : ℕ) (tail : Text)
      → one a (entries_into one (suc index) es (newline ∷ tail))
        ≡ newline ∷ write_elements shown 1 (nodes_of tree (a ∷ es)) tail
  unfolding entries_into nodes_of write_json
  entries_written a [] index tail = written a (newline ∷ tail)
  entries_written a (b ∷ es) index tail =
      written a _
      ∙ ap (λ t. newline ∷ indent_into 2 (write_json shown 2 (tree a) (b',' ∷ t)))
          (entries_written b es (suc index) tail)

  pub array_written :
      (es : List A)
      → b'[' ∷ entries_into one 0 es (closing es)
        ≡ write_json shown 1 (leaf (arr (nodes_of tree es))) (codes "\n}\n")
  unfolding entries_into nodes_of write_json indent_into
  array_written [] = refl
  array_written (e ∷ es) = ap (◌∷◌ b'[') (entries_written e es 0 (codes "  ]\n}\n"))

pub kind_of_name-as_str : (k : Kind) (index : ℕ) → kind_of_name (Kind.as_str k) index ≡ ok k
unfolding kind_of_name
kind_of_name-as_str k index = rw (parse-as_str k) refl

pub opt_str-leaf : (key : Text) (o : Option Text) → opt_str_of key (some (optional_leaf o)) ≡ ok o
unfolding opt_str_of
opt_str-leaf key none = refl
opt_str-leaf key (some s) = refl

abbrev pub IsAsciiOption : Option Text → Type 0
IsAsciiOption none = Unit
IsAsciiOption (some s) = All IsAscii s

pub kind-IsAscii : (k : Kind) → All IsAscii (Kind.as_str k)
unfolding Kind.as_str
kind-IsAscii local = omega arith
kind-IsAscii wallhaven = omega arith
kind-IsAscii external = omega arith

pub optional_leaf-Writable : (o : Option Text) → IsAsciiOption o → Writable shown (optional_leaf o)
unfolding Writable
optional_leaf-Writable none h = tt
optional_leaf-Writable (some s) h = h

pub decimal-Writable : (n : ℕ) → Writable shown (leaf (num (decimal n)))
unfolding Writable
decimal-Writable n = (refl, decimal-IsNumeral n)

pub nodes_of-Writable :
    {A : Type 0} (tree : A → Node) (P : A → Type 0)
    → ((a : A) → P a → Writable shown (tree a))
    → (es : List A) → All P es
    → WritableNodes shown (nodes_of tree es)
unfolding Writable nodes_of
nodes_of-Writable tree P w [] h = tt
nodes_of-Writable tree P w (e ∷ es) h = (w e h.0, nodes_of-Writable tree P w es h.1)

-- A text that is written of a tree is read as the fields of that tree.
pub document_back :
    {A : Type 0} (name text : Text) (f : Entries → Answered A) (root : Entries)
    → ((es : Entries) → f (unlined_entries es) ≡ f es)
    → Writable shown (leaf (obj root))
    → is_blank text ≡ false
    → text ≡ write_json shown 0 (leaf (obj root)) (newline ∷ [])
    → (state_document name text >>= f) ≡ f root
unfolding state_document
document_back name text f root same w not_blank written = rw not_blank (
    root_back name f root 0 (parse text) same (
      subst (λ t. Reparsed (leaf (obj root)) (parse t)) (sym written)
        (parse-write_json shown (leaf (obj root)) w)))
