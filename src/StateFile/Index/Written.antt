-- ===== src/StateFile/Index/Written.antt =====
-- What is encoded of the index is what `write_json` writes of a tree.
use whirl.Prelude.{
  ℕ, suc, ◌≡◌, ◌∙◌, refl, ap, [], ◌∷◌, ◌++◌, Bool, true, false, Option, none, some, Text, codes,
  if◌then◌else◌,
}
use whirl.Prelude.Decimal.{decimal}
use whirl.Vocabulary.Kind
use whirl.Map.{Map}
use whirl.Cache.{CacheIndexEntry, IndexFile}
use whirl.Json.{Node, null, bool, str, arr, obj, Entries, end, entry, newline}
use whirl.Json.Write.{string_into, indent_into, write_json, write_entries, write_json_string}
use whirl.StateFile.Pieces.{schema, entries_into}
use whirl.StateFile.Trees.{shown, leaf, optional_leaf, nodes_of, array_written}
use whirl.StateFile.Current.Written.{number_leaf, optional_written}
use whirl.StateFile.Index.{
  optional_int_into, index_entry_into, closing_brace, dangling_into, encode_index,
}

abbrev pub optional_number : Option ℕ → Node
optional_number none = leaf null
optional_number (some n) = number_leaf n

abbrev pub index_entry_root : CacheIndexEntry → Entries
index_entry_root e = entry (codes "ext") (leaf (str e.ext)) (
    entry (codes "bytes") (number_leaf e.bytes) (
      entry (codes "first_seen") (leaf (str e.first_seen)) (
        entry (codes "last_used") (leaf (str e.last_used)) (
          entry (codes "source") (leaf (str e.source)) (
            entry (codes "kind") (leaf (str (Kind.as_str e.kind))) (
              entry (codes "origin") (optional_leaf e.origin) (
                entry (codes "origin_key") (leaf (str e.origin_key)) (
                  entry (codes "width") (optional_number e.width) (
                    entry (codes "height") (optional_number e.height)
                      (entry (codes "pinned") (leaf (bool e.pinned)) end))))))))))

abbrev pub index_entry_tree : CacheIndexEntry → Node
index_entry_tree e = leaf (obj (index_entry_root e))

unfoldable pub entries_of_map : Map CacheIndexEntry → Entries
entries_of_map [] = end
entries_of_map ((digest, e) ∷ m) = entry digest (index_entry_tree e) (entries_of_map m)

abbrev pub digest_tree : Text → Node
digest_tree digest = leaf (str digest)

abbrev pub index_root : IndexFile → Entries
index_root file = entry (codes "schema") (number_leaf schema) (
    entry (codes "seq") (number_leaf file.seq) (
      entry (codes "written_at") (leaf (str file.written_at)) (
        entry (codes "root_id") (leaf (str file.root_id)) (
          entry (codes "entries") (leaf (obj (entries_of_map file.entries)))
            (entry (codes "dangling") (leaf (arr (nodes_of digest_tree file.dangling))) end)))))

optional_number_written :
    (indent : ℕ) (o : Option ℕ) (rest : Text)
    → write_json shown indent (optional_number o) rest ≡ optional_int_into o rest
unfolding optional_int_into write_json
optional_number_written indent none rest = refl
optional_number_written indent (some n) rest = refl

bool_written :
    (indent : ℕ) (b : Bool) (rest : Text)
    → write_json shown indent (leaf (bool b)) rest
      ≡ (if b then codes "true" else codes "false") ++ rest
unfolding write_json
bool_written indent true rest = refl
bool_written indent false rest = refl

index_entry_written :
    (digest : Text) (e : CacheIndexEntry) (rest : Text)
    → index_entry_into (digest, e) rest
      ≡ newline
        ∷ indent_into 2
            (write_json_string digest (b':' ∷ b' ' ∷ write_json shown 2 (index_entry_tree e) rest))
unfolding index_entry_into write_json string_into indent_into
index_entry_written digest e rest = simp (optional_written, optional_number_written, bool_written)

index_entries_written :
    (digest : Text) (e : CacheIndexEntry) (m : Map CacheIndexEntry) (index : ℕ) (tail : Text)
    → index_entry_into (digest, e) (entries_into index_entry_into (suc index) m (newline ∷ tail))
      ≡ newline ∷ write_entries shown 1 (entries_of_map ((digest, e) ∷ m)) tail
unfolding entries_into entries_of_map write_json
index_entries_written digest e [] index tail = index_entry_written digest e (newline ∷ tail)
index_entries_written digest e ((d, f) ∷ m) index tail =
    index_entry_written digest e _
    ∙ ap
        (λ t.
          newline
          ∷ indent_into 2 (
              write_json_string digest
                (b':' ∷ b' ' ∷ write_json shown 2 (index_entry_tree e) (b',' ∷ t))))
        (index_entries_written d f m (suc index) tail)

object_written :
    (m : Map CacheIndexEntry) (rest : Text)
    → b'{' ∷ entries_into index_entry_into 0 m (closing_brace m rest)
      ≡ write_json shown 1 (leaf (obj (entries_of_map m))) (b',' ∷ newline ∷ rest)
unfolding entries_into entries_of_map write_json indent_into
object_written [] rest = refl
object_written ((d, e) ∷ m) rest =
    ap (◌∷◌ b'{') (index_entries_written d e m 0 (codes "  },\n" ++ rest))

digest_written :
    (digest rest : Text)
    → dangling_into digest rest
      ≡ newline ∷ indent_into 2 (write_json shown 2 (digest_tree digest) rest)
unfolding dangling_into write_json indent_into
digest_written digest rest = refl

-- The index that is encoded is the tree written with one line end behind it.
pub encode_index-tree :
    (file : IndexFile)
    → encode_index file ≡ write_json shown 0 (leaf (obj (index_root file))) (newline ∷ [])
unfolding encode_index write_json string_into indent_into
encode_index-tree file =
    ap
      (λ t.
        codes "{\n  \"schema\": 1,\n  \"seq\": "
        ++ (decimal file.seq
            ++ (codes ",\n  \"written_at\": "
                ++ string_into file.written_at (
                    codes ",\n  \"root_id\": "
                    ++ string_into file.root_id (codes ",\n  \"entries\": " ++ t)))))
      (object_written file.entries _
        ∙ ap
            (λ t.
              write_json shown 1 (leaf (obj (entries_of_map file.entries)))
                (codes ",\n  \"dangling\": " ++ t))
            (array_written dangling_into digest_tree digest_written file.dangling))
