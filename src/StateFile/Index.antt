-- ===== src/StateFile/Index.antt =====
-- `IndexFile::parse` and `IndexFile::encode`. What is written is put in front of what follows it.
pub mod Written
pub mod Order
pub mod Plain
pub mod Back
use whirl.Prelude.{
  ℕ, List, [], ◌∷◌, ◌++◌, Bool, true, false, Option, none, some, Text, codes, ltb, leb,
  if◌then◌else◌,
}
use whirl.Prelude.Decimal.{decimal}
use whirl.Vocabulary.Kind
use whirl.Strings.Number.{u32_max}
use whirl.Map.{Map, insert}
use whirl.Cache.{CacheIndexEntry, IndexFile}
use whirl.Json.{Node, node, Value, null, str, arr, Nodes, nil, Entries, end, entry}
use whirl.Json.Write.{string_into}
use whirl.StateFile.{
  StateFile, read, schema_newer, Answered, ok, err, ◌>>=◌, type_mismatch, dangling_no_array,
}
use whirl.StateFile.Pieces.{schema, optional_string_into, entries_into, closing}
use whirl.StateFile.Fields.{
  kind_name, state_document, field_of, want_object, optional_of, optional, opt_str_of, opt_str,
  req_str, opt_bool_of, opt_bool, opt_int_of, opt_int, schema_from, schema_of, read_nodes,
  kind_of_name, or_else,
}

abbrev pub index_name : Text
index_name = codes "index.json"

-- `u32::try_from`.
unfoldable pub as_u32 : Option ℕ → Option ℕ
as_u32 none = none
as_u32 (some n) = if leb n u32_max then some n else none

unfoldable pub dangling_of : Option Node → Answered Nodes
dangling_of none = ok nil
dangling_of (some (node null line)) = ok nil
dangling_of (some (node (arr ns) line)) = ok ns
dangling_of (some (node v line)) = err dangling_no_array

unfoldable pub dangling_digest : ℕ → Node → Answered Text
dangling_digest index (node (str s) line) = ok s
dangling_digest index (node v line) = err (
    type_mismatch (codes "dangling[" ++ decimal index ++ codes "]") (codes "a string")
      (kind_name v))

module _ (other : Text → Option ℕ) where
  unfoldable pub index_entry : Text → Node → Answered CacheIndexEntry
  unfolding field_of opt_str_of opt_int_of opt_bool_of kind_of_name as_u32
  index_entry digest n = do
    fields ← want_object (codes "entries[" ++ digest ++ codes "]") n
    ext ← req_str fields (codes "ext")
    bytes ← opt_int other fields (codes "bytes")
    first_seen ← opt_str fields (codes "first_seen")
    last_used ← opt_str fields (codes "last_used")
    source ← opt_str fields (codes "source")
    kind_text ← req_str fields (codes "kind")
    kind ← kind_of_name kind_text 0
    origin ← opt_str fields (codes "origin")
    origin_key ← req_str fields (codes "origin_key")
    width ← opt_int other fields (codes "width")
    height ← opt_int other fields (codes "height")
    pinned ← opt_bool fields (codes "pinned")
    ok (record {
      ext = ext;
      bytes = or_else 0 bytes;
      first_seen = or_else [] first_seen;
      last_used = or_else [] last_used;
      source = or_else [] source;
      kind = kind;
      origin = origin;
      origin_key = origin_key;
      width = as_u32 width;
      height = as_u32 height;
      pinned = or_else false pinned;
    })

  unfoldable pub insert_entries : Entries → Map CacheIndexEntry → Answered (Map CacheIndexEntry)
  unfolding index_entry insert
  insert_entries end m = ok m
  insert_entries (entry digest n es) m =
      index_entry digest n >>= λ e. insert_entries es (insert digest e m)

  abbrev pub read_index_entries : Option Entries → Answered (Map CacheIndexEntry)
  read_index_entries none = ok []
  read_index_entries (some es) = insert_entries es []

  unfoldable pub read_index_file : Entries → Answered (StateFile IndexFile)
  unfolding field_of opt_str_of opt_int_of schema_from optional_of insert_entries dangling_of
      dangling_digest read_nodes
  read_index_file root = do
    found ← schema_of other root
    if ltb schema found then ok (schema_newer found) else do
      seq ← opt_int other root (codes "seq")
      written_at ← opt_str root (codes "written_at")
      root_id ← opt_str root (codes "root_id")
      entries ← (optional root (codes "entries") >>= read_index_entries)
      dangling ← (dangling_of (field_of root (codes "dangling")) >>= read_nodes dangling_digest 0)
      ok (
          read (record {
            seq = or_else 0 seq;
            written_at = or_else [] written_at;
            root_id = or_else [] root_id;
            entries = entries;
            dangling = dangling;
          }))

  unfoldable pub parse_index : Text → Answered (StateFile IndexFile)
  unfolding state_document read_index_file
  parse_index text = state_document index_name text >>= read_index_file

unfoldable pub optional_int_into : Option ℕ → Text → Text
unfolding decimal
optional_int_into none rest = codes "null" ++ rest
optional_int_into (some n) rest = decimal n ++ rest

unfoldable pub index_entry_into : Text × CacheIndexEntry → Text → Text
unfolding string_into optional_string_into optional_int_into decimal Kind.as_str
index_entry_into (digest, e) rest =
    codes "\n    "
    ++ string_into digest (
        codes ": {\n      \"ext\": "
        ++ string_into e.ext (
            codes ",\n      \"bytes\": "
            ++ (decimal e.bytes
                ++ (codes ",\n      \"first_seen\": "
                    ++ string_into e.first_seen (
                        codes ",\n      \"last_used\": "
                        ++ string_into e.last_used (
                            codes ",\n      \"source\": "
                            ++ string_into e.source (
                                codes ",\n      \"kind\": "
                                ++ string_into (Kind.as_str e.kind) (
                                    codes ",\n      \"origin\": "
                                    ++ optional_string_into e.origin (
                                        codes ",\n      \"origin_key\": "
                                        ++ string_into e.origin_key (
                                            codes ",\n      \"width\": "
                                            ++ optional_int_into e.width (
                                                codes ",\n      \"height\": "
                                                ++ optional_int_into e.height (
                                                    codes ",\n      \"pinned\": "
                                                    ++ ((if e.pinned
                                                          then codes "true"
                                                          else codes "false")
                                                        ++ (codes "\n    }" ++ rest))))))))))))))

abbrev pub closing_brace {ℓ} : {A : Type ℓ} → List A → Text → Text
closing_brace [] rest = codes "},\n" ++ rest
closing_brace (e ∷ es) rest = codes "\n  },\n" ++ rest

unfoldable pub dangling_into : Text → Text → Text
unfolding string_into
dangling_into digest rest = codes "\n    " ++ string_into digest rest

unfoldable pub encode_index : IndexFile → Text
unfolding string_into decimal entries_into index_entry_into dangling_into
encode_index file =
    codes "{\n  \"schema\": "
    ++ (decimal schema
        ++ (codes ",\n  \"seq\": "
            ++ (decimal file.seq
                ++ (codes ",\n  \"written_at\": "
                    ++ string_into file.written_at (
                        codes ",\n  \"root_id\": "
                        ++ string_into file.root_id (
                            codes ",\n  \"entries\": {"
                            ++ entries_into index_entry_into 0 file.entries (
                                closing_brace file.entries (
                                  codes "  \"dangling\": ["
                                  ++ entries_into dangling_into 0 file.dangling
                                      (closing file.dangling)))))))))
