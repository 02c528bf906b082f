-- ===== src/StateFile/Favorites/Back.antt =====
-- The pins that are saved are read back, their states looked up again.
use whirl.Prelude.{
  ℕ, suc, ◌≡◌, ◌∙◌, ◌<◌, refl, List, [], ◌∷◌, map, Bool, false, Option, Text, codes, text_eq, All,
  arith,
}
use whirl.State.{Favorite}
use whirl.Daemon.{FavoritesFile}
use whirl.Json.{Node, node, null, bool, num, str, arr, obj, Entries, holds_key}
use whirl.Json.Same.{unlined, unlined_entries}
use whirl.Json.Escapes.{IsAscii}
use whirl.Json.Pieces.{Writable}
use whirl.StateFile.{read, ok}
use whirl.StateFile.Integer.{as_u64-decimal, f64_exact}
use whirl.StateFile.Blank.{is_blank, is_blank_from}
use whirl.StateFile.Fields.{field_of, opt_str_of, opt_int_of, schema_from, entries_in, read_nodes}
use whirl.StateFile.Unlined.{
  field_of-unlined_entries, opt_str-unlined, opt_int-unlined, schema-unlined, entries-unlined,
}
use whirl.StateFile.Pieces.{schema}
use whirl.StateFile.Trees.{
  shown, leaf, nodes_of, kind_of_name-as_str, opt_str-leaf, IsAsciiOption, kind-IsAscii,
  optional_leaf-Writable, decimal-Writable, nodes_of-Writable, document_back,
}
use whirl.StateFile.Favorites.{
  favorites_name, favorite_state_of, favorite_entry, read_favorites, parse_favorites,
  encode_favorites,
}
use whirl.StateFile.Favorites.Written.{favorite_tree, favorites_root, encode_favorites-tree}

pub record IsAsciiPin (e : Favorite) : Type 0 where
  pub added_at : All IsAscii e.added_at
  pub origin_key : All IsAscii e.origin_key
  pub digest : IsAsciiOption e.digest
  pub path : IsAsciiOption e.path

favorite_tree-Writable : (e : Favorite) → IsAsciiPin e → Writable shown (favorite_tree e)
unfolding Writable holds_key text_eq
favorite_tree-Writable e h = (
  omega arith,
  kind-IsAscii e.kind,
  refl,
  (
    omega arith,
    h.origin_key,
    refl,
    (
      omega arith,
      optional_leaf-Writable e.digest h.digest,
      refl,
      (
        omega arith,
        optional_leaf-Writable e.path h.path,
        refl,
        (omega arith, h.added_at, refl, tt),
      ),
    ),
  ),
)

favorites_tree-Writable :
    (file : FavoritesFile)
    → All IsAscii file.written_at
    → All IsAsciiPin file.entries
    → Writable shown (leaf (obj (favorites_root file)))
unfolding Writable holds_key text_eq
favorites_tree-Writable file w h = (
  omega arith,
  decimal-Writable schema,
  refl,
  (
    omega arith,
    decimal-Writable file.seq,
    refl,
    (
      omega arith,
      w,
      refl,
      (
        omega arith,
        nodes_of-Writable favorite_tree IsAsciiPin favorite_tree-Writable file.entries h,
        refl,
        tt,
      ),
    ),
  ),
)

module _ (exists : Text → Bool) where
  -- The pin with the state that its path then has.
  abbrev pub looked_up : Favorite → Favorite
  looked_up e = record e { state = favorite_state_of exists e.path }

  favorite_entry-unlined :
      (index : ℕ) (n : Node)
      → favorite_entry exists index (unlined n) ≡ favorite_entry exists index n
  unfolding favorite_entry unlined
  favorite_entry-unlined index (node null line) = refl
  favorite_entry-unlined index (node (bool b) line) = refl
  favorite_entry-unlined index (node (num t) line) = refl
  favorite_entry-unlined index (node (str s) line) = refl
  favorite_entry-unlined index (node (arr ns) line) = refl
  favorite_entry-unlined index (node (obj es) line) =
      simp (field_of-unlined_entries, opt_str-unlined)

  favorite_entry-tree :
      (index : ℕ) (e : Favorite) → favorite_entry exists index (favorite_tree e) ≡ ok (looked_up e)
  unfolding favorite_entry field_of opt_str_of text_eq
  favorite_entry-tree index e =
      rw
        (
          opt_str-leaf (codes "cached_path") e.path,
          kind_of_name-as_str e.kind index,
          opt_str-leaf (codes "digest") e.digest,
        )
        refl

  entries_back :
      (es : List Favorite) (index : ℕ)
      → read_nodes (favorite_entry exists) index (nodes_of favorite_tree es) ≡ ok (map looked_up es)
  unfolding read_nodes nodes_of
  entries_back [] index = refl
  entries_back (e ∷ es) index = rw (favorite_entry-tree index e, entries_back es (suc index)) refl

  module _ (other : Text → Option ℕ) where
    read_favorites-unlined :
        (es : Entries)
        → read_favorites exists other (unlined_entries es) ≡ read_favorites exists other es
    unfolding read_favorites
    read_favorites-unlined es = simp (
      field_of-unlined_entries,
      schema-unlined,
      opt_int-unlined,
      opt_str-unlined,
      entries-unlined (favorite_entry exists) favorite_entry-unlined,
    )

    favorites_root_back :
        (file : FavoritesFile)
        → file.seq < f64_exact
        → read_favorites exists other (favorites_root file)
          ≡ ok (read (record file { entries = map looked_up file.entries }))
    unfolding read_favorites field_of opt_str_of opt_int_of schema_from entries_in text_eq
    favorites_root_back file h =
        rw
          (
            as_u64-decimal other schema (omega arith),
            as_u64-decimal other file.seq h,
            entries_back file.entries 0,
          )
          refl

    brace : (file : FavoritesFile) → is_blank (encode_favorites file) ≡ false
    unfolding encode_favorites is_blank_from
    brace file = refl

    -- The pins that are encoded are read back as they are, but for their states, which are those that
    -- their paths have at the reading, where the texts are ASCII and the sequence number is below 2^53.
    pub parse_favorites-encode_favorites :
        (file : FavoritesFile)
        → file.seq < f64_exact
        → All IsAscii file.written_at
        → All IsAsciiPin file.entries
        → parse_favorites exists other (encode_favorites file)
          ≡ ok (read (record file { entries = map looked_up file.entries }))
    unfolding parse_favorites
    parse_favorites-encode_favorites file small w h =
        document_back favorites_name (encode_favorites file) (read_favorites exists other)
          (favorites_root file) (read_favorites-unlined) (favorites_tree-Writable file w h)
          (brace file) (encode_favorites-tree file)
        ∙ favorites_root_back file small
