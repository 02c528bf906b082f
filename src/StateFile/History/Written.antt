-- ===== src/StateFile/History/Written.antt =====
-- What is encoded is what `write_json` writes of a tree.
use whirl.Prelude.{◌≡◌, refl, ap, [], ◌∷◌, ◌++◌, Option, none, some, Text, codes}
use whirl.Prelude.Decimal.{decimal}
use whirl.Vocabulary.Kind
use whirl.Vocabulary.Via
use whirl.State.{HistoryEntry}
use whirl.Daemon.{HistoryFile}
use whirl.Json.{Node, num, str, arr, obj, Entries, end, entry, newline}
use whirl.Json.Write.{string_into, indent_into, write_json}
use whirl.StateFile.Pieces.{schema, optional_string_into}
use whirl.StateFile.Trees.{shown, leaf, optional_leaf, nodes_of, array_written}
use whirl.StateFile.History.{entry_into, encode_history}

abbrev pub entry_tree : HistoryEntry → Node
entry_tree e = leaf (
    obj (
      entry (codes "kind") (leaf (str (Kind.as_str e.kind))) (
        entry (codes "origin_key") (leaf (str e.origin_key)) (
          entry (codes "digest") (optional_leaf e.digest) (
            entry (codes "cached_path") (optional_leaf e.path) (
              entry (codes "set_at") (leaf (str e.set_at))
                (entry (codes "via") (leaf (str (Via.as_str e.via))) end)))))))

abbrev pub history_root : HistoryFile → Entries
history_root file = entry (codes "schema") (leaf (num (decimal schema))) (
    entry (codes "seq") (leaf (num (decimal file.seq))) (
      entry (codes "written_at") (leaf (str file.written_at))
        (entry (codes "entries") (leaf (arr (nodes_of entry_tree file.entries))) end)))

abbrev pub history_tree : HistoryFile → Node
history_tree file = leaf (obj (history_root file))

fields_written :
    (set_at origin_key : Text) (via : Via.Via) (kind : Kind.Kind) (digest path : Option Text)
    (rest : Text)
    → (let e : HistoryEntry = record {
      set_at = set_at;
      via = via;
      kind = kind;
      origin_key = origin_key;
      digest = digest;
      path = path;
    } in
        entry_into e rest ≡ newline ∷ indent_into 2 (write_json shown 2 (entry_tree e) rest))
unfolding entry_into write_json string_into indent_into optional_string_into
fields_written set_at origin_key via kind none none rest = refl
fields_written set_at origin_key via kind none (some p) rest = refl
fields_written set_at origin_key via kind (some d) none rest = refl
fields_written set_at origin_key via kind (some d) (some p) rest = refl

pub entry_written :
    (e : HistoryEntry) (rest : Text)
    → entry_into e rest ≡ newline ∷ indent_into 2 (write_json shown 2 (entry_tree e) rest)
entry_written e rest = fields_written e.set_at e.origin_key e.via e.kind e.digest e.path rest

-- The file that is encoded is the tree written with one line end behind it.
pub encode_history-tree :
    (file : HistoryFile)
    → encode_history file ≡ write_json shown 0 (history_tree file) (newline ∷ [])
unfolding encode_history write_json string_into indent_into
encode_history-tree file =
    ap
      (λ t.
        codes "{\n  \"schema\": 1,\n  \"seq\": "
        ++ (decimal file.seq
            ++ (codes ",\n  \"written_at\": "
                ++ string_into file.written_at (codes ",\n  \"entries\": " ++ t))))
      (array_written entry_into entry_tree entry_written file.entries)
