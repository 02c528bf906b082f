-- ===== src/StateFile/Index/Plain.antt =====
-- The index that can be written as JSON and read back.
use whirl.Prelude.{
  ℕ, ◌≡◌, ◌≤◌, ◌<◌, refl, [], ◌∷◌, Bool, false, Option, none, some, Text, text_eq, All, arith,
}
use whirl.Strings.Number.{u32_max}
use whirl.Map.{Map}
use whirl.Cache.{CacheIndexEntry, IndexFile}
use whirl.Json.{bool, obj, holds_key}
use whirl.Json.Escapes.{IsAscii}
use whirl.Json.Pieces.{Writable, WritableEntries}
use whirl.StateFile.Integer.{f64_exact}
use whirl.StateFile.Pieces.{schema}
use whirl.StateFile.Trees.{
  shown, leaf, IsAsciiOption, kind-IsAscii, optional_leaf-Writable, decimal-Writable,
  nodes_of-Writable,
}
use whirl.StateFile.Index.Order.{IsAfter, IsAscending, text_ltb_differs_back}
use whirl.StateFile.Index.Written.{
  optional_number, index_entry_tree, entries_of_map, digest_tree, index_root,
}

abbrev pub IsU32Option : Option ℕ → Type 0
IsU32Option none = Unit
IsU32Option (some n) = n ≤ u32_max

pub record IsPlainEntry (p : Text × CacheIndexEntry) : Type 0 where
  pub digest : All IsAscii p.0
  pub ext : All IsAscii p.1.ext
  pub bytes : p.1.bytes < f64_exact
  pub first_seen : All IsAscii p.1.first_seen
  pub last_used : All IsAscii p.1.last_used
  pub source : All IsAscii p.1.source
  pub origin : IsAsciiOption p.1.origin
  pub origin_key : All IsAscii p.1.origin_key
  pub width : IsU32Option p.1.width
  pub height : IsU32Option p.1.height

pub record IsPlainIndex (file : IndexFile) : Type 0 where
  pub seq : file.seq < f64_exact
  pub written_at : All IsAscii file.written_at
  pub root_id : All IsAscii file.root_id
  pub entries : All IsPlainEntry file.entries
  pub ascending : IsAscending file.entries
  pub dangling : All (All IsAscii) file.dangling

optional_number-Writable : (o : Option ℕ) → Writable shown (optional_number o)
unfolding Writable
optional_number-Writable none = tt
optional_number-Writable (some n) = decimal-Writable n

bool_leaf-Writable : (b : Bool) → Writable shown (leaf (bool b))
unfolding Writable
bool_leaf-Writable b = tt

index_entry_tree-Writable :
    (digest : Text) (e : CacheIndexEntry)
    → IsPlainEntry (digest, e)
    → Writable shown (index_entry_tree e)
unfolding Writable holds_key text_eq
index_entry_tree-Writable digest e h = (
  omega arith,
  h.ext,
  refl,
  (
    omega arith,
    decimal-Writable e.bytes,
    refl,
    (
      omega arith,
      h.first_seen,
      refl,
      (
        omega arith,
        h.last_used,
        refl,
        (
          omega arith,
          h.source,
          refl,
          (
            omega arith,
            kind-IsAscii e.kind,
            refl,
            (
              omega arith,
              optional_leaf-Writable e.origin h.origin,
              refl,
              (
                omega arith,
                h.origin_key,
                refl,
                (
                  omega arith,
                  optional_number-Writable e.width,
                  refl,
                  (
                    omega arith,
                    optional_number-Writable e.height,
                    refl,
                    (omega arith, bool_leaf-Writable e.pinned, refl, tt),
                  ),
                ),
              ),
            ),
          ),
        ),
      ),
    ),
  ),
)

no_later :
    (k : Text) (m : Map CacheIndexEntry)
    → All (IsAfter k) m
    → holds_key k (entries_of_map m) ≡ false
unfolding holds_key entries_of_map
no_later k [] h = refl
no_later k ((j, e) ∷ m) h = rw (text_ltb_differs_back k j h.0, no_later k m h.1) refl

entries_of_map-Writable :
    (m : Map CacheIndexEntry)
    → All IsPlainEntry m
    → IsAscending m
    → WritableEntries shown (entries_of_map m)
unfolding Writable entries_of_map
entries_of_map-Writable [] h a = tt
entries_of_map-Writable ((digest, e) ∷ m) h a = (
  h.0.digest,
  index_entry_tree-Writable digest e h.0,
  no_later digest m a.0,
  entries_of_map-Writable m h.1 a.1,
)

digest_tree-Writable : (digest : Text) → All IsAscii digest → Writable shown (digest_tree digest)
unfolding Writable
digest_tree-Writable digest h = h

pub index_tree-Writable :
    (file : IndexFile) → IsPlainIndex file → Writable shown (leaf (obj (index_root file)))
unfolding Writable holds_key text_eq
index_tree-Writable file h = (
  omega arith,
  decimal-Writable schema,
  refl,
  (
    omega arith,
    decimal-Writable file.seq,
    refl,
    (
      omega arith,
      h.written_at,
      refl,
      (
        omega arith,
        h.root_id,
        refl,
        (
          omega arith,
          entries_of_map-Writable file.entries h.entries h.ascending,
          refl,
          (
            omega arith,
            nodes_of-Writable digest_tree (All IsAscii) digest_tree-Writable file.dangling
                h.dangling,
            refl,
            tt,
          ),
        ),
      ),
    ),
  ),
)
