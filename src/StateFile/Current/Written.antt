-- ===== src/StateFile/Current/Written.antt =====
-- What is encoded of the live scalars is what `write_json` writes of a tree.
use whirl.Prelude.{
  ℕ, ◌≡◌, refl, [], ◌∷◌, ◌++◌, Bool, true, false, Option, none, some, Text, codes, if◌then◌else◌,
}
use whirl.Prelude.Decimal.{decimal}
use whirl.Daemon.{CurrentFile, Anchor, CacheFacts}
use whirl.Json.{Node, null, bool, num, str, obj, Entries, end, entry, newline}
use whirl.Json.Write.{string_into, indent_into, write_json}
use whirl.StateFile.Pieces.{schema, optional_string_into}
use whirl.StateFile.Trees.{shown, leaf, optional_leaf}
use whirl.StateFile.Current.{anchor_into, cache_into, encode_current}

abbrev pub number_leaf : ℕ → Node
number_leaf n = leaf (num (decimal n))

abbrev pub anchor_root : Anchor → Entries
anchor_root a = entry (codes "digest") (leaf (str a.digest)) (
    entry (codes "cached_path") (optional_leaf a.cached_path) (
      entry (codes "set_at") (optional_leaf a.set_at) (
        entry (codes "display_mode") (optional_leaf a.display_mode)
          (entry (codes "displays") (leaf null) end))))

abbrev pub anchor_tree : Option Anchor → Node
anchor_tree none = leaf null
anchor_tree (some a) = leaf (obj (anchor_root a))

abbrev pub cache_root : CacheFacts → Entries
cache_root c = entry (codes "root_id") (optional_leaf c.root_id) (
    entry (codes "files") (number_leaf c.files) (
      entry (codes "bytes") (number_leaf c.bytes) (
        entry (codes "over_cap_bytes") (number_leaf c.over_cap_bytes)
          (entry (codes "over_cap_files") (number_leaf c.over_cap_files) end))))

abbrev pub cache_tree : Option CacheFacts → Node
cache_tree none = leaf null
cache_tree (some c) = leaf (obj (cache_root c))

abbrev pub current_root : CurrentFile → Entries
current_root file = entry (codes "schema") (number_leaf schema) (
    entry (codes "seq") (number_leaf file.seq) (
      entry (codes "written_at") (leaf (str file.written_at)) (
        entry (codes "written_by") (optional_leaf file.written_by) (
          entry (codes "paused") (leaf (bool file.paused)) (
            entry (codes "rotation_count") (number_leaf file.rotation_count) (
              entry (codes "next_at") (optional_leaf file.next_at) (
                entry (codes "last_error") (optional_leaf file.last_error) (
                  entry (codes "anchor") (anchor_tree file.anchor)
                    (entry (codes "cache") (cache_tree file.cache) end)))))))))

pub optional_written :
    (indent : ℕ) (o : Option Text) (rest : Text)
    → write_json shown indent (optional_leaf o) rest ≡ optional_string_into o rest
unfolding optional_string_into write_json
optional_written indent none rest = refl
optional_written indent (some s) rest = refl

anchor_written :
    (o : Option Anchor) (rest : Text)
    → anchor_into o rest
      ≡ codes "  \"anchor\": " ++ write_json shown 1 (anchor_tree o) (b',' ∷ newline ∷ rest)
unfolding anchor_into write_json string_into indent_into
anchor_written none rest = refl
anchor_written (some a) rest = simp optional_written

cache_written :
    (o : Option CacheFacts) (rest : Text)
    → cache_into o rest
      ≡ codes "  \"cache\": " ++ write_json shown 1 (cache_tree o) (newline ∷ rest)
unfolding cache_into write_json string_into indent_into
cache_written none rest = refl
cache_written (some c) rest = simp optional_written

paused_written :
    (b : Bool) (rest : Text)
    → write_json shown 1 (leaf (bool b)) rest ≡ (if b then codes "true" else codes "false") ++ rest
unfolding write_json
paused_written true rest = refl
paused_written false rest = refl

-- The file that is encoded is the tree written with one line end behind it.
pub encode_current-tree :
    (file : CurrentFile)
    → write_json shown 0 (leaf (obj (current_root file))) (newline ∷ []) ≡ encode_current file
unfolding encode_current write_json string_into indent_into
encode_current-tree file = simp (optional_written, paused_written, anchor_written, cache_written)
