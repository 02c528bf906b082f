-- ===== src/StateFile/Current/Plain.antt =====
-- The live scalars that can be written as JSON and read back.
use whirl.Prelude.{◌<◌, refl, Bool, Option, none, some, text_eq, All, arith}
use whirl.Daemon.{CurrentFile, Anchor, CacheFacts}
use whirl.Json.{bool, obj, holds_key}
use whirl.Json.Escapes.{IsAscii}
use whirl.Json.Pieces.{Writable}
use whirl.StateFile.Integer.{f64_exact}
use whirl.StateFile.Pieces.{schema}
use whirl.StateFile.Trees.{shown, leaf, IsAsciiOption, optional_leaf-Writable, decimal-Writable}
use whirl.StateFile.Current.Written.{anchor_tree, cache_tree, current_root}

-- What an anchor and the facts of a cache ask for to be read back.
abbrev pub IsAsciiAnchor : Option Anchor → Type 0
IsAsciiAnchor none = Unit
IsAsciiAnchor (some a) =
    All IsAscii a.digest
    × IsAsciiOption a.cached_path
    × IsAsciiOption a.set_at
    × IsAsciiOption a.display_mode

abbrev pub IsExactCache : Option CacheFacts → Type 0
IsExactCache none = Unit
IsExactCache (some c) =
    IsAsciiOption c.root_id
    × (c.files < f64_exact)
    × (c.bytes < f64_exact)
    × (c.over_cap_bytes < f64_exact)
    × (c.over_cap_files < f64_exact)

pub record IsPlain (file : CurrentFile) : Type 0 where
  pub seq : file.seq < f64_exact
  pub rotation_count : file.rotation_count < f64_exact
  pub written_at : All IsAscii file.written_at
  pub written_by : IsAsciiOption file.written_by
  pub next_at : IsAsciiOption file.next_at
  pub last_error : IsAsciiOption file.last_error
  pub anchor : IsAsciiAnchor file.anchor
  pub cache : IsExactCache file.cache

anchor_tree-Writable : (o : Option Anchor) → IsAsciiAnchor o → Writable shown (anchor_tree o)
unfolding Writable holds_key text_eq
anchor_tree-Writable none h = tt
anchor_tree-Writable (some a) (d, p, s, m) = (
  omega arith,
  d,
  refl,
  (
    omega arith,
    optional_leaf-Writable a.cached_path p,
    refl,
    (
      omega arith,
      optional_leaf-Writable a.set_at s,
      refl,
      (omega arith, optional_leaf-Writable a.display_mode m, refl, (omega arith, tt, refl, tt)),
    ),
  ),
)

cache_tree-Writable : (o : Option CacheFacts) → IsExactCache o → Writable shown (cache_tree o)
unfolding Writable holds_key text_eq
cache_tree-Writable none h = tt
cache_tree-Writable (some c) h = (
  omega arith,
  optional_leaf-Writable c.root_id h.0,
  refl,
  (
    omega arith,
    decimal-Writable c.files,
    refl,
    (
      omega arith,
      decimal-Writable c.bytes,
      refl,
      (
        omega arith,
        decimal-Writable c.over_cap_bytes,
        refl,
        (omega arith, decimal-Writable c.over_cap_files, refl, tt),
      ),
    ),
  ),
)

bool-Writable : (b : Bool) → Writable shown (leaf (bool b))
unfolding Writable
bool-Writable b = tt

pub current_tree-Writable :
    (file : CurrentFile) → IsPlain file → Writable shown (leaf (obj (current_root file)))
unfolding Writable holds_key text_eq
current_tree-Writable file h = (
  omega arith,
  decimal-Writable schema,
  refl,
  (
    omega arith,
    decimal-Writable file.seq,
    refl,
    (
      omega arith,
      h.written_at,
      refl,
      (
        omega arith,
        optional_leaf-Writable file.written_by h.written_by,
        refl,
        (
          omega arith,
          bool-Writable file.paused,
          refl,
          (
            omega arith,
            decimal-Writable file.rotation_count,
            refl,
            (
              omega arith,
              optional_leaf-Writable file.next_at h.next_at,
              refl,
              (
                omega arith,
                optional_leaf-Writable file.last_error h.last_error,
                refl,
                (
                  omega arith,
                  anchor_tree-Writable file.anchor h.anchor,
                  refl,
                  (omega arith, cache_tree-Writable file.cache h.cache, refl, tt),
                ),
              ),
            ),
          ),
        ),
      ),
    ),
  ),
)
