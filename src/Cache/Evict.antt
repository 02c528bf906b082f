-- ===== src/Cache/Evict.antt =====
-- The removing loops of the sweep: orphans (its step 3), stale part files (step 4) and the eviction of
-- index entries (step 5).
use whirl.Prelude.{
  ℕ, zero, suc, ◌+◌, List, [], ◌∷◌, Bool, true, false, ◌&&◌, ◌||◌, Option, none, some, Text,
  text_eq, if◌then◌else◌,
}
use whirl.Prelude.Int.{ℤ, pos, ◌-ℤ◌, leb_ℤ}
use whirl.Map.{Map, get, remove, text_ltb}
use whirl.Cache.{
  CacheIndexEntry, Protected, Cached, Survey, CacheConfig, Kept, keeps, content_path, tmp_dir,
}
use whirl.Cache.Disk.{
  Metadata, M, pure, fail, panicked, cannot_read_tmp, ◌>>=◌, remove_file, is_under,
}
use whirl.Cache.Measure.{forget, within_caps}

-- What a loop carries: the measured files, the entries, how many files it removed, and their bytes.
pub record Progress : Type 0 where
  pub measured : Survey
  pub entries : Map CacheIndexEntry
  pub removed : ℕ
  pub freed : ℕ

-- What the loops read of their surroundings.
pub record Rules : Type 0 where
  pub root : Text
  pub config : CacheConfig
  pub protected : Protected
  pub now : ℤ

abbrev pub rule_for : Rules → Cached → Option Kept
rule_for r file = keeps r.protected file r.now r.config.grace_seconds

abbrev pub Victim : Type 0
Victim = Text × CacheIndexEntry × Cached

-- The order of the tuples `(last_used, digest, …)`; digests are distinct, so no more is compared.
unfoldable pub older : Victim → Victim → Bool
older (digest, entry, file) (digest', entry', file') =
    text_ltb entry.last_used entry'.last_used
    || (text_eq entry.last_used entry'.last_used && text_ltb digest digest')

-- `Iterator::min` of one more element: the earlier of two equal ones stays.
unfoldable pub min_with : Victim → Option Victim → Option Victim
unfolding older
min_with v none = some v
min_with v (some w) = if older w v then some w else some v

module _ (r : Rules) where
  -- One file goes, with its bytes.
  abbrev pub drop_file : Text → Cached → Progress → Progress
  drop_file path file p = record p {
    measured = forget path p.measured;
    removed = p.removed + 1;
    freed = p.freed + file.bytes;
  }

  unfoldable pub reclaim : List Text → Progress → M Progress
  reclaim [] p = pure p
  reclaim (path ∷ paths) p = elim (get path p.measured.cached) [
    | none ↦ fail panicked
    | some file ↦ elim (rule_for r file) [
      | some rule ↦ reclaim paths p
      | none ↦ do _ ← remove_file path; reclaim paths (drop_file path file p)
    ]
  ]

  -- A part file without a date is not stale unless the grace is zero.
  unfoldable pub stale : Option ℤ → Bool
  stale none = leb_ℤ (pos r.config.orphan_grace_seconds) (pos 0)
  stale (some modified) = leb_ℤ (pos r.config.orphan_grace_seconds) (r.now -ℤ modified)

  unfoldable pub stale_parts : Map Metadata → List (Text × ℕ)
  unfolding stale
  stale_parts [] = []
  stale_parts ((path, m) ∷ rest) =
      if is_under (tmp_dir r.root) path && stale m.modified
      then (path, m.len) ∷ stale_parts rest
      else stale_parts rest

  unfoldable pub list_stale : M (List (Text × ℕ))
  unfolding stale_parts
  list_stale d = if d.tmp_unreadable then fail cannot_read_tmp d else pure (stale_parts d.files) d

  unfoldable pub clean : List (Text × ℕ) → ℕ × ℕ → M (ℕ × ℕ)
  clean [] counts = pure counts
  clean ((path, bytes) ∷ rest) (parts, freed) = do
    _ ← remove_file path
    clean rest (parts + 1, freed + bytes)

  -- An entry that may go: its file is measured and no rule keeps it.
  unfoldable pub candidate : Survey → Text → CacheIndexEntry → Option Cached
  candidate measured digest entry =
      elim (get (content_path r.root digest entry.ext) measured.cached) [
        | none ↦ none
        | some file ↦ elim (rule_for r file) [ none ↦ some file | some rule ↦ none ]
      ]

  unfoldable pub victim : Survey → Map CacheIndexEntry → Option Victim
  unfolding candidate min_with
  victim measured [] = none
  victim measured ((digest, entry) ∷ rest) = elim (candidate measured digest entry) [
    | none ↦ victim measured rest
    | some file ↦ min_with (digest, entry, file) (victim measured rest)
  ]

  -- The loop of step 5, for at most `fuel` rounds.
  unfoldable pub evict : ℕ → Progress → M Progress
  evict zero p = pure p
  evict (suc fuel) p = elim (within_caps r.config.max_bytes r.config.max_files p.measured) [
    | true ↦ pure p
    | false ↦ elim (victim p.measured p.entries) [
      | none ↦ pure p
      | some (digest, entry, file) ↦ do
        _ ← remove_file (content_path r.root digest entry.ext)
        evict fuel (record (drop_file (content_path r.root digest entry.ext) file p) {
          entries = remove digest p.entries;
        })
    ]
  ]
