-- ===== src/Cache/Sweep.antt =====
-- `sweep`: steps 2 to 6 in order, and the reading and rewriting of the index around them.
use whirl.Prelude.{
  ℕ, ◌+◌, List, [], ◌∷◌, Bool, true, false, none, some, Text, text_eq, if◌then◌else◌, length, keep,
}
use whirl.Prelude.Int.{ℤ}
use whirl.Map.{Map, contains_key, text_ltb}
use whirl.Timestamp.{rfc3339_utc}
use whirl.Cache.{
  CacheIndexEntry, IndexFile, Protected, Cached, Survey, Swept, CacheConfig, Kept, anchor, pin,
  grace, member, content_path,
}
use whirl.Cache.Disk.{
  Index, absent, unreadable, corrupt, newer, present, M, pure, fail, cannot_read_index,
  index_corrupt, schema_newer, ◌>>=◌, write,
}
use whirl.Cache.Measure.{survey, kept, over_cause}
use whirl.Cache.Evict.{Progress, Rules, reclaim, list_stale, clean, evict}

-- A cache with no index yet has an empty one, with no identity.
abbrev pub no_index : ℤ → IndexFile
no_index now = record {
  seq = 0;
  written_at = rfc3339_utc now;
  root_id = [];
  entries = [];
  dangling = [];
}

abbrev pub read_index : ℤ → Index → M IndexFile
read_index now absent = pure (no_index now)
read_index now unreadable = fail cannot_read_index
read_index now corrupt = fail index_corrupt
read_index now (newer found) = fail (schema_newer found)
read_index now (present index) = pure index

unfoldable pub load : ℤ → M IndexFile
load now d = read_index now d.index d

-- `minted` is the identity that `mint_root_id` draws from the system's entropy.
unfoldable pub mint_if_absent : Text → IndexFile → IndexFile
mint_if_absent minted index =
    if text_eq index.root_id [] then record index { root_id = minted } else index

-- `Vec::sort` of digests.
sort_in : Text → List Text → List Text
sort_in k [] = k ∷ []
sort_in k (x ∷ xs) = if text_ltb x k then x ∷ sort_in k xs else k ∷ x ∷ xs

sort : List Text → List Text
unfolding sort_in
sort [] = []
sort (x ∷ xs) = sort_in x (sort xs)

-- The entries whose file is measured, the paths that they claim, and the digests without a file.
pub record Reconciled : Type 0 where
  pub known : List Text
  pub entries : Map CacheIndexEntry
  pub dangling : List Text

unfoldable pub reconcile : Text → Map Cached → Map CacheIndexEntry → Reconciled
reconcile root cached [] = record { known = []; entries = []; dangling = [] }
reconcile root cached ((digest, entry) ∷ rest) =
    let r = reconcile root cached rest in
    let path = content_path root digest entry.ext in
    if contains_key path cached
    then record r { known = path ∷ r.known; entries = (digest, entry) ∷ r.entries }
    else record r { dangling = digest ∷ r.dangling }

-- The measured paths that no entry claims.
unfoldable pub orphans : List Text → Map Cached → List Text
orphans known [] = []
orphans known ((path, file) ∷ rest) =
    if member path known then orphans known rest else path ∷ orphans known rest

-- The index's copy of the pin set.
unfoldable pub refresh_pins : List Text → Map CacheIndexEntry → Map CacheIndexEntry
refresh_pins pinned [] = []
refresh_pins pinned ((digest, entry) ∷ rest) =
    (digest, record entry { pinned = member digest pinned }) ∷ refresh_pins pinned rest

-- `*kept == Kept::Pinned`.
abbrev is_pin : Cached × Kept → Bool
is_pin (file, anchor) = false
is_pin (file, pin) = true
is_pin (file, grace) = false

unfoldable pub hidden_count : CacheConfig → Protected → ℤ → Survey → ℕ
hidden_count config protected now s =
    elim (over_cause s config.max_bytes config.max_files protected now config.grace_seconds) [
      | none ↦ 0
      | some cause ↦ length (keep is_pin (kept protected now config.grace_seconds s.cached))
    ]

-- Step 6: what is written, whatever changed.
unfoldable pub finished_index :
    Rules → Text → IndexFile → List Text → Map CacheIndexEntry → IndexFile
unfolding mint_if_absent sort refresh_pins
finished_index r minted index dangling entries =
    let minted_index = mint_if_absent minted index in
    record minted_index {
      entries = refresh_pins r.protected.pinned_digests entries;
      dangling = sort dangling;
      seq = minted_index.seq + 1;
      written_at = rfc3339_utc r.now;
    }

-- Steps 3 to 5: the removals, as two reports: of the sweep's loops over the images, and of the part
-- files with their bytes.
unfoldable pub remove_all : Rules → Survey → Reconciled → M (Progress × Progress × ℕ)
unfolding reclaim list_stale clean evict orphans
remove_all r measured c = do
  reclaimed ←
      reclaim r (orphans c.known measured.cached)
        (record { measured = measured; entries = c.entries; removed = 0; freed = 0 })
  parts ← list_stale r
  (cleaned, freed) ← clean r parts (0, reclaimed.freed)
  evicted ←
      evict r (length c.entries)
        (record reclaimed { entries = c.entries; removed = 0; freed = freed })
  pure (reclaimed, evicted, cleaned)

unfoldable pub sweep : Rules → Text → M Swept
unfolding load survey reconcile remove_all finished_index hidden_count write
sweep r minted = do
  index ← load r.now
  measured ← survey r.root
  let c = reconcile r.root measured.cached index.entries
  (reclaimed, evicted, cleaned) ← remove_all r measured c
  _ ← write (finished_index r minted index c.dangling evicted.entries)
  pure (record {
    files = evicted.measured.files;
    bytes = evicted.measured.bytes;
    removed = evicted.removed;
    reclaimed = reclaimed.removed;
    orphans = cleaned;
    freed_bytes = evicted.freed;
    hidden = hidden_count r.config r.protected r.now evicted.measured;
  })
