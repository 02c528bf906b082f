-- ===== src/StateFile/Fields.antt =====
-- The root of a state file and the fields of an object: `document`, `schema_of`, `entries_of`, and the
-- readers of one field.
use whirl.Prelude.{
  ℕ, suc, [], List, ◌∷◌, ◌++◌, Bool, Option, none, some, Text, codes, text_eq, if◌then◌else◌,
}
use whirl.Prelude.Decimal.{decimal}
use whirl.Vocabulary.Kind.{Kind}
use whirl.Vocabulary.Kind
use whirl.Vocabulary.Via.{Via, source, manual, prev, startup, recovered}
use whirl.Json.{
  Node, node, Value, null, bool, num, str, arr, obj, Nodes, nil, cons, Entries, end, entry,
}
use whirl.Json.Parser.{Document, document, refused, unfinished, parse}
use whirl.StateFile.{
  is_empty, endless, not_json, not_an_object, want_an_object, key_missing, schema_missing,
  schema_no_integer, entries_missing, entries_no_array, type_mismatch, unknown_via, unknown_kind,
  Answered, ok, err, ◌>>=◌,
}
use whirl.StateFile.Integer.{as_u64}
use whirl.StateFile.Blank.{is_blank, is_blank_from}

-- `Node::kind_name`.
abbrev pub kind_name : Value → Text
kind_name null = codes "null"
kind_name (bool b) = codes "boolean"
kind_name (num t) = codes "number"
kind_name (str s) = codes "string"
kind_name (arr ns) = codes "array"
kind_name (obj es) = codes "object"

unfoldable pub root_of : Text → Document → Answered Entries
root_of name (document (node (obj es) line)) = ok es
root_of name (document (node v line)) = err (not_an_object name (kind_name v))
root_of name (refused line why) = err (not_json name line why)
root_of name unfinished = err (endless name)

unfoldable pub state_document : Text → Text → Answered Entries
unfolding root_of is_blank_from parse
state_document name text = if is_blank text then err (is_empty name) else root_of name (parse text)

unfoldable pub field_of : Entries → Text → Option Node
field_of end key = none
field_of (entry name n es) key = if text_eq name key then some n else field_of es key

abbrev pub want_object : Text → Node → Answered Entries
want_object what (node (obj es) line) = ok es
want_object what (node v line) = err (want_an_object what)

unfoldable pub optional_of : Text → Option Node → Answered (Option Entries)
optional_of key none = ok none
optional_of key (some (node null line)) = ok none
optional_of key (some (node (obj es) line)) = ok (some es)
optional_of key (some (node v line)) = err (want_an_object key)

abbrev pub optional : Entries → Text → Answered (Option Entries)
optional root key = optional_of key (field_of root key)

unfoldable pub opt_str_of : Text → Option Node → Answered (Option Text)
opt_str_of key none = ok none
opt_str_of key (some (node null line)) = ok none
opt_str_of key (some (node (str s) line)) = ok (some s)
opt_str_of key (some (node v line)) = err (type_mismatch key (codes "a string") (kind_name v))

abbrev pub opt_str : Entries → Text → Answered (Option Text)
opt_str entries key = opt_str_of key (field_of entries key)

abbrev pub required : Text → Option Text → Answered Text
required key none = err (key_missing key)
required key (some s) = ok s

abbrev pub req_str : Entries → Text → Answered Text
req_str entries key = opt_str entries key >>= required key

unfoldable pub opt_bool_of : Text → Option Node → Answered (Option Bool)
opt_bool_of key none = ok none
opt_bool_of key (some (node null line)) = ok none
opt_bool_of key (some (node (bool b) line)) = ok (some b)
opt_bool_of key (some (node v line)) = err (type_mismatch key (codes "a boolean") (kind_name v))

abbrev pub opt_bool : Entries → Text → Answered (Option Bool)
opt_bool entries key = opt_bool_of key (field_of entries key)

abbrev pub an_integer : Text → Text → Option ℕ → Answered (Option ℕ)
an_integer key found none = err (type_mismatch key (codes "a non-negative integer") found)
an_integer key found (some n) = ok (some n)

module _ (other : Text → Option ℕ) where
  unfoldable pub opt_int_of : Text → Option Node → Answered (Option ℕ)
  unfolding as_u64
  opt_int_of key none = ok none
  opt_int_of key (some (node null line)) = ok none
  opt_int_of key (some (node (num t) line)) = an_integer key (codes "number") (as_u64 other t)
  opt_int_of key (some (node v line)) = an_integer key (kind_name v) none

  abbrev pub opt_int : Entries → Text → Answered (Option ℕ)
  opt_int entries key = opt_int_of key (field_of entries key)

  abbrev pub a_schema : Option ℕ → Answered ℕ
  a_schema none = err schema_no_integer
  a_schema (some n) = ok n

  unfoldable pub schema_from : Option Node → Answered ℕ
  unfolding as_u64
  schema_from none = err schema_missing
  schema_from (some (node (num t) line)) = a_schema (as_u64 other t)
  schema_from (some (node v line)) = err schema_no_integer

  abbrev pub schema_of : Entries → Answered ℕ
  schema_of root = schema_from (field_of root (codes "schema"))

unfoldable pub entries_in : Option Node → Answered Nodes
entries_in none = err entries_missing
entries_in (some (node (arr ns) line)) = ok ns
entries_in (some (node v line)) = err entries_no_array

abbrev pub entries_of : Entries → Answered Nodes
entries_of root = entries_in (field_of root (codes "entries"))

-- `for (index, node) in entries_of(root)?.iter().enumerate()`, with what is pushed for each.
unfoldable pub read_nodes {ℓ} :
    {A : Type ℓ} → (ℕ → Node → Answered A) → ℕ → Nodes → Answered (List A)
read_nodes one index nil = ok []
read_nodes one index (cons n ns) =
    one index n >>= λ a. read_nodes one (suc index) ns >>= λ rest. ok (a ∷ rest)

abbrev pub entry_name : ℕ → Text
entry_name index = codes "entries[" ++ decimal index ++ codes "]"

-- Both lists of names that a file may have been written by.
unfoldable pub via_of : Text → ℕ → Answered Via
via_of name index =
    if text_eq name (codes "rotate")
    then ok source
    else if text_eq name (codes "source")
    then ok source
    else if text_eq name (codes "set")
    then ok manual
    else if text_eq name (codes "manual")
    then ok manual
    else if text_eq name (codes "prev")
    then ok prev
    else if text_eq name (codes "startup")
    then ok startup
    else if text_eq name (codes "external")
    then ok startup
    else if text_eq name (codes "recovered")
    then ok recovered
    else err (unknown_via index name)

abbrev pub a_kind : ℕ → Text → Option Kind → Answered Kind
a_kind index name none = err (unknown_kind index name)
a_kind index name (some k) = ok k

unfoldable pub kind_of_name : Text → ℕ → Answered Kind
unfolding Kind.parse
kind_of_name name index = a_kind index name (Kind.parse name)

abbrev pub or_else {ℓ} : {A : Type ℓ} → A → Option A → A
or_else a none = a
or_else a (some b) = b
