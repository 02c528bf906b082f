-- ===== src/Tests/Cache.antt =====
-- A cache of three images: one pinned by its path, one that is indexed, and one that nothing names.
use whirl.Prelude.{◌≡◌, refl, [], ◌∷◌, true, false, none, some, Text, codes, text_eq}
use whirl.Prelude.Int.{pos, ◌-ℤ◌}
use whirl.Map.{Map, get, insert, remove, contains_key}
use whirl.Timestamp.{rfc3339_utc}
use whirl.Vocabulary.Kind.{local}
use whirl.Cache.{
  CacheIndexEntry, IndexFile, Protected, Swept, CacheConfig, images_dir, member, content_path,
  keeps,
}
use whirl.Cache.Disk.{Disk, Metadata, present, is_under, ok, starts_with, continue, remove_file}
use whirl.Cache.Measure.{digest_of, forget, over_cause, walk, empty, cached_of}
use whirl.Cache.Evict.{Rules, Victim, victim}
use whirl.Cache.Order.{IsNext, victim-IsNext}
use whirl.Cache.Sweep.{sweep}
use whirl.Cache.Promises.{IsProtected, named, pinned_path, sweep_keeps_protected}
use whirl.Cache.Accounts.{Distinct}
use whirl.Cache.Caps.{Rests, sweep_settles}
use whirl.Cache.Record.{Reported}

abbrev pub root : Text
root = codes "/c"

abbrev pub pinned_image : Text
pinned_image = codes "/c/sha256/pin.jpg"

abbrev indexed_image : Text
indexed_image = codes "/c/sha256/abc.jpg"

abbrev orphan : Text
orphan = codes "/c/sha256/old.jpg"

abbrev notes : Text
notes = codes "/c/notes.txt"

abbrev pub old_file : Metadata
old_file = record { len = 5; modified = some (pos 0) }

abbrev entry : CacheIndexEntry
entry = record {
  ext = codes "jpg";
  bytes = 5;
  first_seen = codes "2026-01-01T00:00:00Z";
  last_used = codes "2026-01-01T00:00:00Z";
  source = codes "shots";
  kind = local;
  origin = none;
  origin_key = codes "shots:1.jpg";
  width = none;
  height = none;
  pinned = false;
}

abbrev index : IndexFile
index = record {
  seq = 3;
  written_at = codes "2026-01-01T00:00:00Z";
  root_id = codes "id";
  entries = (codes "abc", entry) ∷ [];
  dangling = [];
}

abbrev pub disk : Disk
disk = record {
  files =
      (indexed_image, old_file)
      ∷ (orphan, old_file)
      ∷ (pinned_image, old_file)
      ∷ (notes, old_file)
      ∷ [];
  index = present index;
  images_unreadable = false;
  tmp_unreadable = false;
  index_unwritable = false;
  undeletable = λ path. false;
  unstatable = λ path. false;
}

abbrev pub protected : Protected
protected = record {
  anchor_digest = none;
  anchor_paths = [];
  pinned_digests = [];
  pinned_paths = pinned_image ∷ [];
  degraded = false;
}

abbrev pub config : CacheConfig
config = record { max_bytes = 8; max_files = 4; grace_seconds = 60; orphan_grace_seconds = 60 }

abbrev pub rules : Rules
rules = record { root = root; config = config; protected = protected; now = pos 1_000 }

pin-IsProtected : IsProtected rules pinned_image disk.files
unfolding member text_eq
pin-IsProtected = named disk.files (pinned_path refl)

pub pin_is_image : is_under (images_dir root) pinned_image ≡ true
unfolding starts_with
pin_is_image = refl

sweep_keeps_protected_example :
    get pinned_image (sweep rules (codes "id") disk).1.files ≡ get pinned_image disk.files
sweep_keeps_protected_example =
    sweep_keeps_protected rules pinned_image (codes "id") disk pin_is_image pin-IsProtected

-- The orphan and the indexed image go, and the pin is what is left.
abbrev swept : Swept
swept = record {
  files = 1;
  bytes = 5;
  removed = 1;
  reclaimed = 1;
  orphans = 0;
  freed_bytes = 10;
  hidden = 0;
}

abbrev disk_after : Disk
disk_after = record disk {
  files = (pinned_image, old_file) ∷ (notes, old_file) ∷ [];
  index = present (record index { entries = []; seq = 4; written_at = rfc3339_utc (pos 1_000) });
}

sweep_runs : sweep rules (codes "id") disk ≡ (ok swept, disk_after)
unfolding sweep continue starts_with insert text_eq member contains_key content_path keeps digest_of
    ◌-ℤ◌ remove_file forget remove victim over_cause
sweep_runs = refl

Distinct-paths : Distinct disk.files
unfolding get text_eq
Distinct-paths = (refl, (refl, (refl, (refl, tt))))

sweep_settles_example : Rests rules swept disk_after
sweep_settles_example =
    sweep_settles rules (codes "id") disk disk_after swept Distinct-paths sweep_runs

abbrev reported : Reported
reported = record {
  digest = codes "abc";
  origin_key = codes "shots:1.jpg";
  path = indexed_image;
  kind = local;
}

abbrev recorded_entry : CacheIndexEntry
recorded_entry = record entry { last_used = rfc3339_utc (pos 1_000) }

abbrev disk_recorded : Disk
disk_recorded = record disk {
  index = present (record index {
    entries = (codes "abc", recorded_entry) ∷ [];
    seq = 4;
    written_at = rfc3339_utc (pos 1_000);
  });
}

-- Two entries, the second of which was used the longer ago.
abbrev two_entries : Map CacheIndexEntry
two_entries =
    (codes "abc", entry)
    ∷ (codes "old", record entry { last_used = codes "2025-01-01T00:00:00Z" })
    ∷ []

abbrev oldest : Victim
oldest = (
  codes "old",
  record entry { last_used = codes "2025-01-01T00:00:00Z" },
  cached_of orphan old_file,
)

oldest_found : victim rules (walk (images_dir root) disk.files empty) two_entries ≡ some oldest
unfolding victim walk get starts_with insert text_eq content_path keeps digest_of ◌-ℤ◌
oldest_found = refl

victim-IsNext_example :
    IsNext rules
      (walk (images_dir root) disk.files empty)
      two_entries
      (codes "old")
      oldest.1
      oldest.2
victim-IsNext_example =
    victim-IsNext rules (walk (images_dir root) disk.files empty) two_entries (codes "old") oldest.1
      oldest.2 oldest_found

-- The image of an entry that is marked as pinned in the index alone is evicted.
abbrev marked_disk : Disk
marked_disk = record disk {
  index = present (record index { entries = (codes "abc", record entry { pinned = true }) ∷ [] });
}

marked_evicted :
    (get indexed_image marked_disk.files ≡ some old_file)
    × (get indexed_image
          (sweep
            (record rules { config = record config { max_bytes = 5 } })
            (codes "id")
            marked_disk).1.files
        ≡ none)
unfolding sweep continue contains_key walk content_path insert text_eq keeps member get starts_with
    digest_of ◌-ℤ◌ remove_file forget remove victim over_cause
marked_evicted = (refl, refl)
