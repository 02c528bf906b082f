-- ===== src/Cache/Disk.antt =====
-- What the sweep does to a disk. The operating system is a record of the files that exist and of what
-- it refuses; an operation that may fail returns what went wrong, and the disk as it then is.
use whirl.Prelude.{
  ℕ, [], ◌∷◌, ◌++◌, Bool, true, false, ◌&&◌, Option, none, some, Text, ◌==◌, if◌then◌else◌,
}
use whirl.Prelude.Int.{ℤ}
use whirl.Map.{Map, get, remove}
use whirl.Cache.{IndexFile}

pub record Metadata : Type 0 where
  pub len : ℕ
  pub modified : Option ℤ

-- What reading `cache/index.json` finds.
pub data Index : Type 0 where
  absent unreadable corrupt : Index
  newer : ℕ → Index
  present : IndexFile → Index

-- Every regular file by its path, and the requests that the operating system refuses. A directory that
-- does not exist has no files; `images_unreadable` and `tmp_unreadable` stand for a directory or an
-- entry anywhere below that cannot be read, which ends the listing whichever it is.
pub record Disk : Type 0 where
  pub files : Map Metadata
  pub index : Index
  pub images_unreadable : Bool
  pub tmp_unreadable : Bool
  pub index_unwritable : Bool
  pub undeletable : Text → Bool
  pub unstatable : Text → Bool

pub data Fault : Type 0 where
  cannot_read_index index_corrupt cannot_read_images cannot_read_tmp cannot_write_index : Fault
  panicked : Fault
  schema_newer : ℕ → Fault
  cannot_remove cannot_stat : Text → Fault

pub data Outcome {ℓ} (A : Type ℓ) : Type ℓ where
  ok : A → Outcome A
  fault : Fault → Outcome A

abbrev pub M : Type 0 → Type 0
M A = Disk → Outcome A × Disk

abbrev pub pure : {A : Type 0} → A → M A
pure a d = (ok a, d)

abbrev pub fail : {A : Type 0} → Fault → M A
fail e d = (fault e, d)

-- What follows a step; a fault ends the run.
unfoldable pub continue : {A B : Type 0} → (A → M B) → Outcome A × Disk → Outcome B × Disk
continue f (ok a, d) = f a d
continue f (fault e, d) = (fault e, d)

infixl 5 ◌>>=◌
abbrev pub ◌>>=◌ : {A B : Type 0} → M A → (A → M B) → M B
◌>>=◌ m f d = continue f (m d)

-- A file that is not there counts as removed.
unfoldable pub remove_file : Text → M (Unit {0})
remove_file path d = elim (get path d.files) [
  | none ↦ (ok tt, d)
  | some m ↦
      if d.undeletable path
      then (fault (cannot_remove path), d)
      else (ok tt, record d { files = remove path d.files })
]

unfoldable pub write : IndexFile → M (Unit {0})
write index d =
    if d.index_unwritable
    then (fault cannot_write_index, d)
    else (ok tt, record d { index = present index })

-- `path.starts_with(directory)` for a path below the directory.
unfoldable pub starts_with : Text → Text → Bool
starts_with [] t = true
starts_with (a ∷ s) [] = false
starts_with (a ∷ s) (b ∷ t) = (a == b) && starts_with s t

abbrev pub is_under : Text → Text → Bool
is_under directory path = starts_with (directory ++ b'/' ∷ []) path
