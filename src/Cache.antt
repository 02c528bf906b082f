-- ===== src/Cache.antt =====
-- crates/whirld/src/cache.rs and the index records of crates/whirl-core/src/state.rs: the cache, its
-- index and the sweep. A path is its text with `/` between components; a set of texts is a list.
pub mod Disk
pub mod Measure
pub mod Evict
pub mod Sweep
pub mod Victim
pub mod Safety
pub mod Promises
pub mod Accounts
pub mod Loops
pub mod Caps
pub mod Order
pub mod Record
use whirl.Prelude.{
  ℕ, List, [], ◌∷◌, ◌++◌, Bool, true, false, ◌||◌, Option, none, some, Text, codes, text_eq, length,
  take, drop, leb, if◌then◌else◌,
}
use whirl.Prelude.Int.{ℤ, pos, ◌-ℤ◌, ltb_ℤ}
use whirl.Map.{Map}
use whirl.Vocabulary.Kind.{Kind}

pub record CacheIndexEntry : Type 0 where
  pub ext : Text
  pub bytes : ℕ
  pub first_seen : Text
  pub last_used : Text
  pub source : Text
  pub kind : Kind
  pub origin : Option Text
  pub origin_key : Text
  pub width : Option ℕ
  pub height : Option ℕ
  pub pinned : Bool

pub record IndexFile : Type 0 where
  pub seq : ℕ
  pub written_at : Text
  pub root_id : Text
  pub entries : Map CacheIndexEntry
  pub dangling : List Text

pub data Cause : Type 0 where
  single_file pinned sweep_error favorites_degraded : Cause

pub data Attempt : Type 0 where
  pending ran deferred failed : Attempt

-- Why a file is kept.
pub data Kept : Type 0 where
  anchor pin grace : Kept

pub record Protected : Type 0 where
  pub anchor_digest : Option Text
  pub anchor_paths : List Text
  pub pinned_digests : List Text
  pub pinned_paths : List Text
  pub degraded : Bool

-- One file under `sha256/`, measured; `mtime` in seconds of the wall clock.
pub record Cached : Type 0 where
  pub path : Text
  pub digest : Option Text
  pub bytes : ℕ
  pub mtime : Option ℤ

pub record Survey : Type 0 where
  pub files : ℕ
  pub bytes : ℕ
  pub cached : Map Cached

pub record Swept : Type 0 where
  pub files : ℕ
  pub bytes : ℕ
  pub removed : ℕ
  pub reclaimed : ℕ
  pub orphans : ℕ
  pub freed_bytes : ℕ
  pub hidden : ℕ

pub record CacheConfig : Type 0 where
  pub max_bytes : ℕ
  pub max_files : ℕ
  pub grace_seconds : ℕ
  pub orphan_grace_seconds : ℕ

-- `BTreeSet::contains`.
unfoldable pub member : Text → List Text → Bool
member k [] = false
member k (x ∷ xs) = text_eq x k || member k xs

-- `Path::join` of a relative path.
abbrev pub join : Text → Text → Text
join directory name = directory ++ b'/' ∷ name

abbrev pub images_dir : Text → Text
images_dir root = join root (codes "sha256")

abbrev pub tmp_dir : Text → Text
tmp_dir root = join root (codes "tmp")

unfoldable pub content_path : Text → Text → Text → Text
content_path root digest ext =
    let images = images_dir root in
    let fanned =
      if leb 4 (length digest)
      then join (join images (take 2 digest)) (take 2 (drop 2 digest))
      else images in
    join fanned (digest ++ b'.' ∷ ext)

-- `Some(modified) if now - modified < grace_seconds` and the two arms after it.
unfoldable pub keeps_by_age : Option ℤ → ℤ → ℕ → Option Kept
keeps_by_age none now grace_seconds = some grace
keeps_by_age (some modified) now grace_seconds =
    if ltb_ℤ (now -ℤ modified) (pos grace_seconds) then some grace else none

named_by : Option Text → List Text → Bool
unfolding member
named_by none digests = false
named_by (some digest) digests = member digest digests

is_anchor : Option Text → Option Text → Bool
is_anchor none digest = false
is_anchor (some named) none = false
is_anchor (some named) (some digest) = text_eq digest named

-- `Protected::keeps`.
unfoldable pub keeps : Protected → Cached → ℤ → ℕ → Option Kept
unfolding member named_by is_anchor keeps_by_age
keeps protected file now grace_seconds =
    if protected.degraded
    then some pin
    else if is_anchor protected.anchor_digest file.digest
    then some anchor
    else if member file.path protected.anchor_paths
    then some anchor
    else if member file.path protected.pinned_paths
    then some pin
    else if named_by file.digest protected.pinned_digests
    then some pin
    else keeps_by_age file.mtime now grace_seconds
