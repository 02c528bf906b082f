-- ===== src/Cache/Measure.antt =====
-- The measured tree: `survey`, `Survey::forget`, `Survey::kept` and `over_cause`.
use whirl.Prelude.{
  ℕ, ◌+◌, ◌-◌, List, [], ◌∷◌, Bool, ◌&&◌, ◌||◌, Option, none, some, Text, ◌==◌, ltb, leb, length,
  all, map, if◌then◌else◌,
}
use whirl.Prelude.Int.{ℤ}
use whirl.Map.{Map, get, insert, remove}
use whirl.Cache.{Protected, Cached, Survey, Kept, Cause, single_file, pinned, keeps, images_dir}
use whirl.Cache.Disk.{Metadata, M, pure, fail, cannot_read_images, is_under}

-- The last component of a path, and a name up to its first dot.
unfoldable pub file_name : Text → Text → Text
file_name name [] = name
file_name name (b ∷ rest) = file_name (if b == b'/' then rest else name) rest

up_to_dot : Text → Text
up_to_dot [] = []
up_to_dot (b ∷ rest) = if b == b'.' then [] else b ∷ up_to_dot rest

is_ascii_hexdigit : ℕ → Bool
is_ascii_hexdigit b =
    (leb b'0' b && leb b b'9') || ((leb b'a' b && leb b b'f') || (leb b'A' b && leb b b'F'))

to_ascii_lowercase : ℕ → ℕ
to_ascii_lowercase b = if leb b'A' b && leb b b'Z' then b + 32 else b

-- The digest that a file name carries, when it is one.
unfoldable pub digest_of : Text → Option Text
unfolding file_name up_to_dot is_ascii_hexdigit to_ascii_lowercase
digest_of path =
    let stem = up_to_dot (file_name path path) in
    if (length stem == 64) && all is_ascii_hexdigit stem
    then some (map to_ascii_lowercase stem)
    else none

abbrev pub cached_of : Text → Metadata → Cached
cached_of path m = record {
  path = path;
  digest = digest_of path;
  bytes = m.len;
  mtime = m.modified;
}

abbrev pub empty : Survey
empty = record { files = 0; bytes = 0; cached = [] }

-- One regular file of `walk`.
abbrev pub measure : Survey → Text → Metadata → Survey
measure s path m = record {
  files = s.files + 1;
  bytes = s.bytes + m.len;
  cached = insert path (cached_of path m) s.cached;
}

-- `walk` of `sha256/`: the regular files below it.
unfoldable pub walk : Text → Map Metadata → Survey → Survey
walk images [] s = s
walk images ((path, m) ∷ rest) s =
    walk images rest (if is_under images path then measure s path m else s)

unfoldable pub survey : Text → M Survey
unfolding walk
survey root d =
    if d.images_unreadable
    then fail cannot_read_images d
    else pure (walk (images_dir root) d.files empty) d

unfoldable pub forget : Text → Survey → Survey
forget path s = elim (get path s.cached) [
  | none ↦ s
  | some gone ↦ record {
    files = s.files - 1;
    bytes = s.bytes - gone.bytes;
    cached = remove path s.cached;
  }
]

-- The protected files, each with its rule.
unfoldable pub kept : Protected → ℤ → ℕ → Map Cached → List (Cached × Kept)
kept protected now grace_seconds [] = []
kept protected now grace_seconds ((path, file) ∷ rest) =
    elim (keeps protected file now grace_seconds) [
      | none ↦ kept protected now grace_seconds rest
      | some rule ↦ (file, rule) ∷ kept protected now grace_seconds rest
    ]

-- Whether one protected file alone is larger than the byte cap.
surplus : ℕ → List (Cached × Kept) → Cause
surplus max_bytes ((file, rule) ∷ []) = if ltb max_bytes file.bytes then single_file else pinned
surplus max_bytes files = pinned

-- `survey.bytes <= max_bytes && survey.files <= max_files`.
abbrev pub within_caps : ℕ → ℕ → Survey → Bool
within_caps max_bytes max_files s = leb s.bytes max_bytes && leb s.files max_files

unfoldable pub over_cause : Survey → ℕ → ℕ → Protected → ℤ → ℕ → Option Cause
unfolding surplus kept
over_cause s max_bytes max_files protected now grace_seconds =
    if within_caps max_bytes max_files s
    then none
    else some (surplus max_bytes (kept protected now grace_seconds s.cached))
