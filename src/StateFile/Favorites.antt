-- ===== src/StateFile/Favorites.antt =====
-- `FavoritesFile::parse` and `FavoritesFile::encode`. Whether a path exists is an argument. What is
-- written is put in front of what follows it.
pub mod Written
pub mod Back
use whirl.Prelude.{
  ℕ, suc, List, [], ◌∷◌, ◌++◌, Bool, Option, none, some, Text, codes, ltb, if◌then◌else◌,
}
use whirl.Prelude.Decimal.{decimal}
use whirl.Vocabulary.Kind
use whirl.State.{Favorite, FavoriteState, present, missing, unrecoverable}
use whirl.Daemon.{FavoritesFile}
use whirl.Json.{Node, Entries}
use whirl.Json.Write.{string_into}
use whirl.StateFile.{StateFile, read, schema_newer, Answered, ok, ◌>>=◌}
use whirl.StateFile.Pieces.{schema, optional_string_into, entries_into, closing}
use whirl.StateFile.Fields.{
  state_document, field_of, want_object, opt_str_of, opt_str, req_str, opt_int_of, opt_int,
  schema_from, schema_of, entries_in, entries_of, read_nodes, entry_name, kind_of_name, or_else,
}

abbrev pub favorites_name : Text
favorites_name = codes "favorites.json"

unfoldable pub favorite_state_of : (Text → Bool) → Option Text → FavoriteState
favorite_state_of exists none = unrecoverable
favorite_state_of exists (some path) = if exists path then present else missing

module _ (exists : Text → Bool) where
  unfoldable pub favorite_entry : ℕ → Node → Answered Favorite
  unfolding field_of opt_str_of kind_of_name favorite_state_of
  favorite_entry index n = do
    fields ← want_object (entry_name index) n
    path ← opt_str fields (codes "cached_path")
    added_at ← req_str fields (codes "added_at")
    kind_text ← req_str fields (codes "kind")
    kind ← kind_of_name kind_text index
    origin_key ← req_str fields (codes "origin_key")
    digest ← opt_str fields (codes "digest")
    ok (record {
      added_at = added_at;
      kind = kind;
      origin_key = origin_key;
      digest = digest;
      state = favorite_state_of exists path;
      path = path;
    })

  module _ (other : Text → Option ℕ) where
    unfoldable pub read_favorites : Entries → Answered (StateFile FavoritesFile)
    unfolding field_of opt_str_of opt_int_of schema_from entries_in read_nodes favorite_entry
    read_favorites root = do
      found ← schema_of other root
      if ltb schema found then ok (schema_newer found) else do
        seq ← opt_int other root (codes "seq")
        written_at ← opt_str root (codes "written_at")
        entries ← (entries_of root >>= read_nodes favorite_entry 0)
        ok (
            read (record {
              seq = or_else 0 seq;
              written_at = or_else [] written_at;
              entries = entries;
            }))

    unfoldable pub parse_favorites : Text → Answered (StateFile FavoritesFile)
    unfolding state_document read_favorites
    parse_favorites text = state_document favorites_name text >>= read_favorites

unfoldable pub favorite_into : Favorite → Text → Text
unfolding string_into optional_string_into Kind.as_str
favorite_into e rest =
    codes "\n    {\n      \"kind\": "
    ++ string_into (Kind.as_str e.kind) (
        codes ",\n      \"origin_key\": "
        ++ string_into e.origin_key (
            codes ",\n      \"digest\": "
            ++ optional_string_into e.digest (
                codes ",\n      \"cached_path\": "
                ++ optional_string_into e.path (
                    codes ",\n      \"added_at\": "
                    ++ string_into e.added_at (codes "\n    }" ++ rest)))))

unfoldable pub encode_favorites : FavoritesFile → Text
unfolding string_into decimal entries_into favorite_into
encode_favorites file =
    codes "{\n  \"schema\": "
    ++ (decimal schema
        ++ (codes ",\n  \"seq\": "
            ++ (decimal file.seq
                ++ (codes ",\n  \"written_at\": "
                    ++ string_into file.written_at (
                        codes ",\n  \"entries\": ["
                        ++ entries_into favorite_into 0 file.entries (closing file.entries))))))
