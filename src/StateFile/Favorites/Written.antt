-- ===== src/StateFile/Favorites/Written.antt =====
-- What is encoded of the pins is what `write_json` writes of a tree.
use whirl.Prelude.{◌≡◌, ap, [], ◌∷◌, ◌++◌, Text, codes}
use whirl.Prelude.Decimal.{decimal}
use whirl.Vocabulary.Kind
use whirl.State.{Favorite}
use whirl.Daemon.{FavoritesFile}
use whirl.Json.{Node, str, arr, obj, Entries, end, entry, newline}
use whirl.Json.Write.{string_into, indent_into, write_json}
use whirl.StateFile.Pieces.{schema}
use whirl.StateFile.Trees.{shown, leaf, optional_leaf, nodes_of, array_written}
use whirl.StateFile.Current.Written.{number_leaf, optional_written}
use whirl.StateFile.Favorites.{favorite_into, encode_favorites}

abbrev pub favorite_tree : Favorite → Node
favorite_tree e = leaf (
    obj (
      entry (codes "kind") (leaf (str (Kind.as_str e.kind))) (
        entry (codes "origin_key") (leaf (str e.origin_key)) (
          entry (codes "digest") (optional_leaf e.digest) (
            entry (codes "cached_path") (optional_leaf e.path)
              (entry (codes "added_at") (leaf (str e.added_at)) end))))))

abbrev pub favorites_root : FavoritesFile → Entries
favorites_root file = entry (codes "schema") (number_leaf schema) (
    entry (codes "seq") (number_leaf file.seq) (
      entry (codes "written_at") (leaf (str file.written_at))
        (entry (codes "entries") (leaf (arr (nodes_of favorite_tree file.entries))) end)))

favorite_written :
    (e : Favorite) (rest : Text)
    → favorite_into e rest ≡ newline ∷ indent_into 2 (write_json shown 2 (favorite_tree e) rest)
unfolding favorite_into write_json string_into indent_into
favorite_written e rest = simp optional_written

-- The file that is encoded is the tree written with one line end behind it.
pub encode_favorites-tree :
    (file : FavoritesFile)
    → encode_favorites file ≡ write_json shown 0 (leaf (obj (favorites_root file))) (newline ∷ [])
unfolding encode_favorites write_json string_into indent_into
encode_favorites-tree file =
    ap
      (λ t.
        codes "{\n  \"schema\": 1,\n  \"seq\": "
        ++ (decimal file.seq
            ++ (codes ",\n  \"written_at\": "
                ++ string_into file.written_at (codes ",\n  \"entries\": " ++ t))))
      (array_written favorite_into favorite_tree favorite_written file.entries)
