-- ===== src/StateFile/History.antt =====
-- `HistoryFile::parse` and `HistoryFile::encode`. What is written is put in front of what follows it.
pub mod Written
pub mod Back
use whirl.Prelude.{
  ℕ, zero, suc, List, [], ◌∷◌, ◌++◌, Option, none, some, Text, codes, ltb, ◌==◌, if◌then◌else◌,
}
use whirl.Prelude.Decimal.{decimal}
use whirl.Vocabulary.Kind
use whirl.Vocabulary.Via
use whirl.State.{HistoryEntry}
use whirl.Daemon.{HistoryFile}
use whirl.Json.{Node, Entries}
use whirl.Json.Write.{string_into}
use whirl.StateFile.{StateFile, read, schema_newer, Answered, ok, ◌>>=◌}
use whirl.StateFile.Pieces.{schema, optional_string_into, entries_into, closing}
use whirl.StateFile.Fields.{
  state_document, field_of, want_object, opt_str_of, opt_str, req_str, opt_int_of, opt_int,
  schema_from, schema_of, entries_in, entries_of, read_nodes, entry_name, via_of, kind_of_name,
  or_else,
}

abbrev pub history_name : Text
history_name = codes "history.json"

unfoldable pub history_entry : ℕ → Node → Answered HistoryEntry
unfolding field_of opt_str_of via_of kind_of_name
history_entry index n = do
  fields ← want_object (entry_name index) n
  kind_text ← req_str fields (codes "kind")
  kind ← kind_of_name kind_text index
  set_at ← req_str fields (codes "set_at")
  via_text ← req_str fields (codes "via")
  via ← via_of via_text index
  origin_key ← req_str fields (codes "origin_key")
  digest ← opt_str fields (codes "digest")
  path ← opt_str fields (codes "cached_path")
  ok (record {
    set_at = set_at;
    via = via;
    kind = kind;
    origin_key = origin_key;
    digest = digest;
    path = path;
  })

module _ (other : Text → Option ℕ) where
  unfoldable pub read_history : Entries → Answered (StateFile HistoryFile)
  unfolding field_of opt_str_of opt_int_of schema_from entries_in read_nodes history_entry
  read_history root = do
    found ← schema_of other root
    if ltb schema found then ok (schema_newer found) else do
      seq ← opt_int other root (codes "seq")
      written_at ← opt_str root (codes "written_at")
      entries ← (entries_of root >>= read_nodes history_entry 0)
      ok (
          read
            (record { seq = or_else 0 seq; written_at = or_else [] written_at; entries = entries }))

  unfoldable pub parse_history_file : Text → Answered (StateFile HistoryFile)
  unfolding state_document read_history
  parse_history_file text = state_document history_name text >>= read_history

unfoldable pub entry_into : HistoryEntry → Text → Text
unfolding string_into optional_string_into Kind.as_str Via.as_str
entry_into e rest =
    codes "\n    {\n      \"kind\": "
    ++ string_into (Kind.as_str e.kind) (
        codes ",\n      \"origin_key\": "
        ++ string_into e.origin_key (
            codes ",\n      \"digest\": "
            ++ optional_string_into e.digest (
                codes ",\n      \"cached_path\": "
                ++ optional_string_into e.path (
                    codes ",\n      \"set_at\": "
                    ++ string_into e.set_at (
                        codes ",\n      \"via\": "
                        ++ string_into (Via.as_str e.via) (codes "\n    }" ++ rest))))))

unfoldable pub encode_history : HistoryFile → Text
unfolding string_into decimal entries_into entry_into
encode_history file =
    codes "{\n  \"schema\": "
    ++ (decimal schema
        ++ (codes ",\n  \"seq\": "
            ++ (decimal file.seq
                ++ (codes ",\n  \"written_at\": "
                    ++ string_into file.written_at (
                        codes ",\n  \"entries\": ["
                        ++ entries_into entry_into 0 file.entries (closing file.entries))))))
