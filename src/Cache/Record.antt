-- ===== src/Cache/Record.antt =====
-- `record`: the index entry for the file that a rotation reported.
pub mod Names
pub mod Entry
use whirl.Prelude.{
  ◌+◌, List, [], ◌∷◌, Bool, true, false, ◌&&◌, ◌||◌, not, Option, none, some, Text, text_eq, ◌==◌,
  if◌then◌else◌, keep,
}
use whirl.Prelude.Int.{ℤ}
use whirl.Map.{get, insert}
use whirl.Timestamp.{rfc3339_utc}
use whirl.Vocabulary.Kind.{Kind}
use whirl.Cache.{CacheIndexEntry, IndexFile, Protected, images_dir, member}
use whirl.Cache.Disk.{Metadata, M, pure, fail, cannot_stat, ◌>>=◌, is_under, write}
use whirl.Cache.Measure.{file_name}
use whirl.Cache.Sweep.{load, mint_if_absent}

pub record Reported : Type 0 where
  pub digest : Text
  pub origin_key : Text
  pub path : Text
  pub kind : Kind

-- What follows the last dot of a name, where the dot is not its first character.
after_dot : Text → Option Text → Text → Option Text
after_dot [] found name = found
after_dot (b ∷ rest) found name =
    after_dot rest (if (b == b'.') && not (text_eq (b ∷ rest) name) then some rest else found) name

-- `path.extension()…unwrap_or_default()`.
unfoldable pub extension : Text → Text
unfolding after_dot file_name
extension path =
    let name = file_name path path in elim (after_dot name none name) [ none ↦ [] | some ext ↦ ext ]

-- The text before the first colon, which is the whole where there is none.
unfoldable pub source_of : Text → Text
source_of [] = []
source_of (b ∷ rest) = if b == b':' then [] else b ∷ source_of rest

-- What `stat` of the reported path answers: `none` where there is no file to record.
unfoldable pub stat : Text → Text → M (Option Metadata)
stat root path d =
    if not (is_under (images_dir root) path)
    then pure none d
    else if d.unstatable path
    then fail (cannot_stat path) d
    else pure (get path d.files) d

-- The entry that a first report inserts.
abbrev fresh_entry : Reported → Metadata → Text → CacheIndexEntry
fresh_entry reported metadata written_at = record {
  ext = extension reported.path;
  bytes = metadata.len;
  first_seen = written_at;
  last_used = written_at;
  source = source_of reported.origin_key;
  kind = reported.kind;
  origin = none;
  origin_key = reported.origin_key;
  width = none;
  height = none;
  pinned = false;
}

abbrev pub existing_or : CacheIndexEntry → Option CacheIndexEntry → CacheIndexEntry
existing_or fresh none = fresh
existing_or fresh (some entry) = entry

-- The entry that stood there, or a fresh one, with what every report refreshes.
unfoldable pub refreshed :
    Reported → Protected → Metadata → Text → Option CacheIndexEntry → CacheIndexEntry
refreshed reported protected metadata written_at old =
    let entry = existing_or (fresh_entry reported metadata written_at) old in
    record entry {
      bytes = metadata.len;
      last_used = written_at;
      pinned = member reported.digest protected.pinned_digests;
    }

unfoldable pub recorded_index : Text → Reported → CacheIndexEntry → Text → IndexFile → IndexFile
recorded_index minted reported entry written_at index =
    let minted_index = mint_if_absent minted index in
    record minted_index {
      entries = insert reported.digest entry minted_index.entries;
      seq = minted_index.seq + 1;
      written_at = written_at;
      dangling = keep (λ digest. not (text_eq digest reported.digest)) minted_index.dangling;
    }

record_found : Text → Reported → Protected → ℤ → Option Metadata → M (Option CacheIndexEntry)
unfolding load recorded_index refreshed write
record_found minted reported protected now none = pure none
record_found minted reported protected now (some metadata) = do
  index ← load now
  let written_at = rfc3339_utc now
  let entry = refreshed reported protected metadata written_at (get reported.digest index.entries)
  _ ← write (recorded_index minted reported entry written_at index)
  pure (some entry)

unfoldable pub record_report : Text → Text → Reported → Protected → ℤ → M (Option CacheIndexEntry)
unfolding stat record_found
record_report root minted reported protected now = do
  found ← stat root reported.path
  record_found minted reported protected now found
