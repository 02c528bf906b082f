-- ===== src/StateFile/Current.antt =====
-- `CurrentFile::parse` and `CurrentFile::encode`. What is written is put in front of what follows it.
pub mod Written
pub mod Plain
pub mod Back
use whirl.Prelude.{
  ℕ, [], ◌∷◌, ◌++◌, Bool, true, false, Option, none, some, Text, codes, ltb, if◌then◌else◌,
}
use whirl.Prelude.Decimal.{decimal}
use whirl.Daemon.{CurrentFile, Anchor, CacheFacts}
use whirl.Json.{Entries}
use whirl.Json.Write.{string_into}
use whirl.StateFile.{StateFile, read, schema_newer, Answered, ok, ◌>>=◌}
use whirl.StateFile.Pieces.{schema, optional_string_into}
use whirl.StateFile.Fields.{
  state_document, field_of, opt_str_of, opt_str, req_str, opt_bool_of, opt_bool, opt_int_of,
  opt_int, schema_from, schema_of, optional_of, optional, or_else,
}

abbrev pub current_name : Text
current_name = codes "current.json"

unfoldable pub read_anchor : Option Entries → Answered (Option Anchor)
unfolding field_of opt_str_of
read_anchor none = ok none
read_anchor (some anchor) = do
  digest ← req_str anchor (codes "digest")
  cached_path ← opt_str anchor (codes "cached_path")
  set_at ← opt_str anchor (codes "set_at")
  display_mode ← opt_str anchor (codes "display_mode")
  ok (
      some (record {
        digest = digest;
        cached_path = cached_path;
        set_at = set_at;
        display_mode = display_mode;
      }))

module _ (other : Text → Option ℕ) where
  unfoldable pub read_cache : Option Entries → Answered (Option CacheFacts)
  unfolding field_of opt_str_of opt_int_of
  read_cache none = ok none
  read_cache (some cache) = do
    root_id ← opt_str cache (codes "root_id")
    files ← opt_int other cache (codes "files")
    bytes ← opt_int other cache (codes "bytes")
    over_cap_bytes ← opt_int other cache (codes "over_cap_bytes")
    over_cap_files ← opt_int other cache (codes "over_cap_files")
    ok (
        some (record {
          root_id = root_id;
          files = or_else 0 files;
          bytes = or_else 0 bytes;
          over_cap_bytes = or_else 0 over_cap_bytes;
          over_cap_files = or_else 0 over_cap_files;
        }))

  unfoldable pub read_current : Entries → Answered (StateFile CurrentFile)
  unfolding field_of opt_str_of opt_bool_of opt_int_of schema_from optional_of read_anchor
      read_cache
  read_current root = do
    found ← schema_of other root
    if ltb schema found then ok (schema_newer found) else do
      seq ← opt_int other root (codes "seq")
      written_at ← opt_str root (codes "written_at")
      written_by ← opt_str root (codes "written_by")
      paused ← opt_bool root (codes "paused")
      rotation_count ← opt_int other root (codes "rotation_count")
      next_at ← opt_str root (codes "next_at")
      last_error ← opt_str root (codes "last_error")
      anchor ← (optional root (codes "anchor") >>= read_anchor)
      cache ← (optional root (codes "cache") >>= read_cache)
      ok (
          read (record {
            seq = or_else 0 seq;
            written_at = or_else [] written_at;
            written_by = written_by;
            paused = or_else false paused;
            rotation_count = or_else 0 rotation_count;
            next_at = next_at;
            last_error = last_error;
            anchor = anchor;
            cache = cache;
          }))

  unfoldable pub parse_current : Text → Answered (StateFile CurrentFile)
  unfolding state_document read_current
  parse_current text = state_document current_name text >>= read_current

unfoldable pub anchor_into : Option Anchor → Text → Text
unfolding string_into optional_string_into
anchor_into none rest = codes "  \"anchor\": null,\n" ++ rest
anchor_into (some anchor) rest =
    codes "  \"anchor\": {\n    \"digest\": "
    ++ string_into anchor.digest (
        codes ",\n    \"cached_path\": "
        ++ optional_string_into anchor.cached_path (
            codes ",\n    \"set_at\": "
            ++ optional_string_into anchor.set_at (
                codes ",\n    \"display_mode\": "
                ++ optional_string_into anchor.display_mode
                    (codes ",\n    \"displays\": null\n  },\n" ++ rest))))

unfoldable pub cache_into : Option CacheFacts → Text → Text
unfolding optional_string_into decimal
cache_into none rest = codes "  \"cache\": null\n" ++ rest
cache_into (some cache) rest =
    codes "  \"cache\": {\n    \"root_id\": "
    ++ optional_string_into cache.root_id (
        codes ",\n    \"files\": "
        ++ (decimal cache.files
            ++ (codes ",\n    \"bytes\": "
                ++ (decimal cache.bytes
                    ++ (codes ",\n    \"over_cap_bytes\": "
                        ++ (decimal cache.over_cap_bytes
                            ++ (codes ",\n    \"over_cap_files\": "
                                ++ (decimal cache.over_cap_files
                                    ++ (codes "\n  }\n" ++ rest)))))))))

unfoldable pub encode_current : CurrentFile → Text
unfolding string_into optional_string_into decimal anchor_into cache_into
encode_current file =
    codes "{\n  \"schema\": "
    ++ (decimal schema
        ++ (codes ",\n  \"seq\": "
            ++ (decimal file.seq
                ++ (codes ",\n  \"written_at\": "
                    ++ string_into file.written_at (
                        codes ",\n  \"written_by\": "
                        ++ optional_string_into file.written_by (
                            codes ",\n  \"paused\": "
                            ++ ((if file.paused then codes "true" else codes "false")
                                ++ (codes ",\n  \"rotation_count\": "
                                    ++ (decimal file.rotation_count
                                        ++ (codes ",\n  \"next_at\": "
                                            ++ optional_string_into file.next_at (
                                                codes ",\n  \"last_error\": "
                                                ++ optional_string_into file.last_error (
                                                    codes ",\n"
                                                    ++ anchor_into file.anchor (
                                                        cache_into file.cache
                                                          (codes "}\n"))))))))))))))
