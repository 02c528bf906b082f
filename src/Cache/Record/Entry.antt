-- ===== src/Cache/Record/Entry.antt =====
-- What a recorded report leaves in the index.
use whirl.Prelude.{
  ◌≡◌, ◌≢◌, ◌⊎◌, ◌++◌, Lacks, true, [], ◌∷◌, false, Option, none, some, Text, text_eq,
}
use whirl.Prelude.Int.{ℤ}
use whirl.Map.{get}
use whirl.Timestamp.{rfc3339_utc}
use whirl.Cache.{CacheIndexEntry, IndexFile, Protected, images_dir, member}
use whirl.Cache.Disk.{Disk, Metadata, ok, present, is_under}
use whirl.Cache.Sweep.{load}
use whirl.Cache.Record.{Reported}

module _ (root minted : Text) (reported : Reported) (protected : Protected) (now : ℤ)
    (d : Disk) where
  -- A first report: the extension is that of the path, the source is the origin key up to its first
  -- colon, and what nobody knows of the bytes is left out.
  pub record IsFresh (entry : CacheIndexEntry) : Type 0 where
    pub named :
        (front stem ext : Text)
        → reported.path ≡ front ++ b'/' ∷ (stem ++ b'.' ∷ ext)
        → stem ≢ []
        → Lacks b'/' (stem ++ b'.' ∷ ext)
        → Lacks b'.' ext
        → entry.ext ≡ ext
    pub unnamed :
        (front name : Text)
        → reported.path ≡ front ++ b'/' ∷ name
        → Lacks b'/' name
        → Lacks b'.' name
        → entry.ext ≡ []
    pub sourced :
        (source rest : Text)
        → reported.origin_key ≡ source ++ b':' ∷ rest
        → Lacks b':' source
        → entry.source ≡ source
    pub seen : entry.first_seen ≡ rfc3339_utc now
    pub kind : entry.kind ≡ reported.kind
    pub origin_key : entry.origin_key ≡ reported.origin_key
    pub unknown : (entry.origin ≡ none) × (entry.width ≡ none) × (entry.height ≡ none)

  -- The file is on the disk below `sha256/`; the index has its entry with the size that the disk has, and
  -- with everything else as it was before or as a first report has it; it lists the digest as dangling no
  -- more, and has every other entry as it was.
  pub record Recorded (entry : CacheIndexEntry) (d' : Disk) : Type 0 where
    pub metadata : Metadata
    pub there : get reported.path d.files ≡ some metadata
    pub inside : is_under (images_dir root) reported.path ≡ true
    pub measured : entry.bytes ≡ metadata.len
    pub used : entry.last_used ≡ rfc3339_utc now
    pub pinned_as : entry.pinned ≡ member reported.digest protected.pinned_digests
    pub old : IndexFile
    pub loaded : load now d ≡ (ok old, d)
    pub again :
        (before : CacheIndexEntry)
        → get reported.digest old.entries ≡ some before
        → entry ≡ record before {
          bytes = metadata.len;
          last_used = rfc3339_utc now;
          pinned = member reported.digest protected.pinned_digests;
        }
    pub fresh : get reported.digest old.entries ≡ none → IsFresh entry
    pub index : IndexFile
    pub written : d'.index ≡ present index
    pub same_files : d'.files ≡ d.files
    pub entered : get reported.digest index.entries ≡ some entry
    pub others :
        (q : Text) → text_eq reported.digest q ≡ false → get q index.entries ≡ get q old.entries
    pub returned : member reported.digest index.dangling ≡ false

  abbrev pub RecordedOr : Option CacheIndexEntry → Disk → Type 0
  RecordedOr none d' =
      (d' ≡ d)
      × ((is_under (images_dir root) reported.path ≡ false) ⊎ (get reported.path d.files ≡ none))
  RecordedOr (some entry) d' = Recorded entry d'
