-- ===== src/StateFile/History/Back.antt =====
-- The ring that is saved is read back.
use whirl.Prelude.{
  ℕ, suc, ◌≡◌, ◌∙◌, ◌<◌, refl, List, [], ◌∷◌, false, Option, Text, codes, text_eq, All, arith,
}
use whirl.Vocabulary.Via.{Via, source, manual, prev, startup, recovered}
use whirl.Vocabulary.Via
use whirl.State.{HistoryEntry}
use whirl.Daemon.{HistoryFile}
use whirl.Json.{Node, node, null, bool, num, str, arr, obj, Entries, holds_key}
use whirl.Json.Same.{unlined, unlined_entries}
use whirl.Json.Escapes.{IsAscii}
use whirl.Json.Pieces.{Writable}
use whirl.StateFile.{read, ok}
use whirl.StateFile.Integer.{as_u64-decimal, f64_exact}
use whirl.StateFile.Blank.{is_blank, is_blank_from}
use whirl.StateFile.Fields.{
  field_of, opt_str_of, opt_int_of, schema_from, entries_in, read_nodes, via_of,
}
use whirl.StateFile.Unlined.{
  field_of-unlined_entries, opt_str-unlined, opt_int-unlined, schema-unlined, entries-unlined,
}
use whirl.StateFile.History.{
  history_name, history_entry, read_history, parse_history_file, encode_history,
}
use whirl.StateFile.Pieces.{schema}
use whirl.StateFile.Trees.{
  shown, nodes_of, opt_str-leaf, kind_of_name-as_str, IsAsciiOption, kind-IsAscii,
  optional_leaf-Writable, decimal-Writable, nodes_of-Writable, document_back,
}
use whirl.StateFile.History.Written.{entry_tree, history_root, history_tree, encode_history-tree}

history_entry-unlined :
    (index : ℕ) (n : Node) → history_entry index (unlined n) ≡ history_entry index n
unfolding history_entry unlined
history_entry-unlined index (node null line) = refl
history_entry-unlined index (node (bool b) line) = refl
history_entry-unlined index (node (num t) line) = refl
history_entry-unlined index (node (str s) line) = refl
history_entry-unlined index (node (arr ns) line) = refl
history_entry-unlined index (node (obj es) line) = simp (field_of-unlined_entries, opt_str-unlined)

module _ (other : Text → Option ℕ) where
  read_history-unlined :
      (es : Entries) → read_history other (unlined_entries es) ≡ read_history other es
  unfolding read_history
  read_history-unlined es = simp (
    field_of-unlined_entries,
    schema-unlined,
    opt_int-unlined,
    opt_str-unlined,
    entries-unlined history_entry history_entry-unlined,
  )

via_of-as_str : (v : Via) (index : ℕ) → via_of (Via.as_str v) index ≡ ok v
unfolding via_of Via.as_str text_eq
via_of-as_str source index = refl
via_of-as_str manual index = refl
via_of-as_str prev index = refl
via_of-as_str startup index = refl
via_of-as_str recovered index = refl

history_entry-tree : (index : ℕ) (e : HistoryEntry) → history_entry index (entry_tree e) ≡ ok e
unfolding history_entry field_of opt_str_of text_eq
history_entry-tree index e =
    rw
      (
        kind_of_name-as_str e.kind index,
        via_of-as_str e.via index,
        opt_str-leaf (codes "digest") e.digest,
        opt_str-leaf (codes "cached_path") e.path,
      )
      refl

entries_back :
    (es : List HistoryEntry) (index : ℕ)
    → read_nodes history_entry index (nodes_of entry_tree es) ≡ ok es
unfolding read_nodes nodes_of
entries_back [] index = refl
entries_back (e ∷ es) index = rw (history_entry-tree index e, entries_back es (suc index)) refl

pub record IsAsciiEntry (e : HistoryEntry) : Type 0 where
  pub set_at : All IsAscii e.set_at
  pub origin_key : All IsAscii e.origin_key
  pub digest : IsAsciiOption e.digest
  pub path : IsAsciiOption e.path

via-IsAscii : (v : Via) → All IsAscii (Via.as_str v)
unfolding Via.as_str
via-IsAscii source = omega arith
via-IsAscii manual = omega arith
via-IsAscii prev = omega arith
via-IsAscii startup = omega arith
via-IsAscii recovered = omega arith

entry_tree-Writable : (e : HistoryEntry) → IsAsciiEntry e → Writable shown (entry_tree e)
unfolding Writable holds_key text_eq
entry_tree-Writable e h = (
  omega arith,
  kind-IsAscii e.kind,
  refl,
  (
    omega arith,
    h.origin_key,
    refl,
    (
      omega arith,
      optional_leaf-Writable e.digest h.digest,
      refl,
      (
        omega arith,
        optional_leaf-Writable e.path h.path,
        refl,
        (omega arith, h.set_at, refl, (omega arith, via-IsAscii e.via, refl, tt)),
      ),
    ),
  ),
)

history_tree-Writable :
    (file : HistoryFile)
    → All IsAscii file.written_at
    → All IsAsciiEntry file.entries
    → Writable shown (history_tree file)
unfolding Writable holds_key text_eq
history_tree-Writable file w h = (
  omega arith,
  decimal-Writable schema,
  refl,
  (
    omega arith,
    decimal-Writable file.seq,
    refl,
    (
      omega arith,
      w,
      refl,
      (
        omega arith,
        nodes_of-Writable entry_tree IsAsciiEntry entry_tree-Writable file.entries h,
        refl,
        tt,
      ),
    ),
  ),
)

module _ (other : Text → Option ℕ) where
  history_root_back :
      (file : HistoryFile)
      → file.seq < f64_exact
      → read_history other (history_root file) ≡ ok (read file)
  unfolding read_history field_of opt_str_of opt_int_of schema_from entries_in text_eq
  history_root_back file h =
      rw
        (
          as_u64-decimal other schema (omega arith),
          as_u64-decimal other file.seq h,
          entries_back file.entries 0,
        )
        refl

  brace : (file : HistoryFile) → is_blank (encode_history file) ≡ false
  unfolding encode_history is_blank_from
  brace file = refl

  -- The history that is encoded is read back as it is, whatever numbers other literals are, where its
  -- texts are ASCII and its sequence number is below 2^53.
  pub parse_history_file-encode_history :
      (file : HistoryFile)
      → file.seq < f64_exact
      → All IsAscii file.written_at
      → All IsAsciiEntry file.entries
      → parse_history_file other (encode_history file) ≡ ok (read file)
  unfolding parse_history_file
  parse_history_file-encode_history file small w h =
      document_back history_name (encode_history file) (read_history other) (history_root file)
        (read_history-unlined other) (history_tree-Writable file w h) (brace file)
        (encode_history-tree file)
      ∙ history_root_back file small
