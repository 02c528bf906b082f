-- ===== src/StateFile/Unlined.antt =====
-- No reader of a state file looks at the line of a node.
use whirl.Prelude.{ℕ, suc, ◌≡◌, ◌∙◌, refl, ap, sym, Option, none, some, Text, arith}
use whirl.Json.{Node, node, null, bool, num, str, arr, obj, Nodes, nil, cons, Entries, end, entry}
use whirl.Json.Same.{unlined, unlined_nodes, unlined_entries}
use whirl.Json.Parser.{Document}
use whirl.Json.Pieces.{Reparsed, reparsed}
use whirl.StateFile.{Answered, ◌>>=◌}
use whirl.StateFile.Fields.{
  root_of, field_of, opt_str_of, opt_bool_of, optional_of, opt_int_of, schema_from, entries_in,
  read_nodes,
}

unfoldable pub unlined_option : Option Node → Option Node
unfolding unlined
unlined_option none = none
unlined_option (some n) = some (unlined n)

pub field_of-unlined_entries :
    (es : Entries) (key : Text)
    → field_of (unlined_entries es) key ≡ unlined_option (field_of es key)
unfolding field_of unlined unlined_option
field_of-unlined_entries end key = refl
field_of-unlined_entries (entry name n es) key = ground (arith, field_of-unlined_entries es key)

pub opt_str-unlined :
    (key : Text) (o : Option Node) → opt_str_of key (unlined_option o) ≡ opt_str_of key o
unfolding opt_str_of unlined_option unlined
opt_str-unlined key none = refl
opt_str-unlined key (some (node null line)) = refl
opt_str-unlined key (some (node (bool b) line)) = refl
opt_str-unlined key (some (node (num t) line)) = refl
opt_str-unlined key (some (node (str s) line)) = refl
opt_str-unlined key (some (node (arr ns) line)) = refl
opt_str-unlined key (some (node (obj es) line)) = refl

module _ (other : Text → Option ℕ) where
  pub opt_int-unlined :
      (key : Text) (o : Option Node)
      → opt_int_of other key (unlined_option o) ≡ opt_int_of other key o
  unfolding opt_int_of unlined_option unlined
  opt_int-unlined key none = refl
  opt_int-unlined key (some (node null line)) = refl
  opt_int-unlined key (some (node (bool b) line)) = refl
  opt_int-unlined key (some (node (num t) line)) = refl
  opt_int-unlined key (some (node (str s) line)) = refl
  opt_int-unlined key (some (node (arr ns) line)) = refl
  opt_int-unlined key (some (node (obj es) line)) = refl

  pub schema-unlined :
      (o : Option Node) → schema_from other (unlined_option o) ≡ schema_from other o
  unfolding schema_from unlined_option unlined
  schema-unlined none = refl
  schema-unlined (some (node null line)) = refl
  schema-unlined (some (node (bool b) line)) = refl
  schema-unlined (some (node (num t) line)) = refl
  schema-unlined (some (node (str s) line)) = refl
  schema-unlined (some (node (arr ns) line)) = refl
  schema-unlined (some (node (obj es) line)) = refl

pub opt_bool-unlined :
    (key : Text) (o : Option Node) → opt_bool_of key (unlined_option o) ≡ opt_bool_of key o
unfolding opt_bool_of unlined_option unlined
opt_bool-unlined key none = refl
opt_bool-unlined key (some (node null line)) = refl
opt_bool-unlined key (some (node (bool b) line)) = refl
opt_bool-unlined key (some (node (num t) line)) = refl
opt_bool-unlined key (some (node (str s) line)) = refl
opt_bool-unlined key (some (node (arr ns) line)) = refl
opt_bool-unlined key (some (node (obj es) line)) = refl

-- An object within the root, read by a reader that does not look at lines.
pub optional-unlined :
    {A : Type 0} (f : Option Entries → Answered A)
    → ((es : Entries) → f (some (unlined_entries es)) ≡ f (some es))
    → (key : Text) (o : Option Node)
    → (optional_of key (unlined_option o) >>= f) ≡ (optional_of key o >>= f)
unfolding optional_of unlined_option unlined
optional-unlined f same key none = refl
optional-unlined f same key (some (node null line)) = refl
optional-unlined f same key (some (node (bool b) line)) = refl
optional-unlined f same key (some (node (num t) line)) = refl
optional-unlined f same key (some (node (str s) line)) = refl
optional-unlined f same key (some (node (arr ns) line)) = refl
optional-unlined f same key (some (node (obj es) line)) = same es

-- The elements of an array, read each by itself, and no element where there is no array.
pub read_nodes-unlined :
    {A : Type 0} (one : ℕ → Node → Answered A)
    → ((index : ℕ) (n : Node) → one index (unlined n) ≡ one index n)
    → (index : ℕ) (ns : Nodes) → read_nodes one index (unlined_nodes ns) ≡ read_nodes one index ns
unfolding read_nodes unlined
read_nodes-unlined one same index nil = refl
read_nodes-unlined one same index (cons n ns) =
    rw (same index n, read_nodes-unlined one same (suc index) ns) refl

pub entries-unlined :
    {A : Type 0} (one : ℕ → Node → Answered A)
    → ((index : ℕ) (n : Node) → one index (unlined n) ≡ one index n)
    → (o : Option Node)
    → (entries_in (unlined_option o) >>= read_nodes one 0) ≡ (entries_in o >>= read_nodes one 0)
unfolding entries_in unlined_option unlined
entries-unlined one same none = refl
entries-unlined one same (some (node null line)) = refl
entries-unlined one same (some (node (bool b) line)) = refl
entries-unlined one same (some (node (num t) line)) = refl
entries-unlined one same (some (node (str s) line)) = refl
entries-unlined one same (some (node (arr ns) line)) = read_nodes-unlined one same 0 ns
entries-unlined one same (some (node (obj es) line)) = refl

-- What is read of a document is what is read of the tree that it differs from in its lines alone.
pub root_back :
    {A : Type 0} (name : Text) (f : Entries → Answered A) (es : Entries) (line : ℕ) (d : Document)
    → ((fs : Entries) → f (unlined_entries fs) ≡ f fs)
    → Reparsed (node (obj es) line) d
    → (root_of name d >>= f) ≡ f es
unfolding root_of unlined
root_back name f es line d same (reparsed (node null k) e) = absurd cc
root_back name f es line d same (reparsed (node (bool b) k) e) = absurd cc
root_back name f es line d same (reparsed (node (num t) k) e) = absurd cc
root_back name f es line d same (reparsed (node (str s) k) e) = absurd cc
root_back name f es line d same (reparsed (node (arr ns) k) e) = absurd cc
root_back name f es line d same (reparsed (node (obj fs) k) e) =
    let inside : unlined_entries fs ≡ unlined_entries es = cc in
    sym (same fs) ∙ ap f inside ∙ same es
