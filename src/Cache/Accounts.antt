-- ===== src/Cache/Accounts.antt =====
-- The measured survey against the disk: what it holds, counts and sums, and that a removal keeps the
-- two in step.
use whirl.Prelude.{
  ℕ, ◌+◌, ◌≡◌, refl, sym, ◌∙◌, [], ◌∷◌, true, false, Option, none, some, Text, text_eq_iff,
  Option-cases, inl, inr, if◌then◌else◌, arith,
}
use whirl.Map.{Map, get, remove, get-insert, get-remove}
use whirl.Cache.{Cached, Survey}
use whirl.Cache.Disk.{Metadata, is_under}
use whirl.Cache.Measure.{cached_of, empty, measure, walk, forget}

-- No path stands twice.
abbrev pub Distinct : Map Metadata → Type 0
Distinct [] = Unit
Distinct ((path, m) ∷ files) = (get path files ≡ none) × Distinct files

abbrev lookup_with : Text → Option Cached → Option Metadata → Option Cached
lookup_with q old none = old
lookup_with q old (some m) = some (cached_of q m)

module _ (images : Text) where
  -- How many files are below the directory, and how many bytes they have.
  abbrev pub count : Map Metadata → ℕ
  count [] = 0
  count ((path, m) ∷ files) = if is_under images path then count files + 1 else count files

  abbrev pub total : Map Metadata → ℕ
  total [] = 0
  total ((path, m) ∷ files) = if is_under images path then total files + m.len else total files

  get-walk :
      (q : Text) (files : Map Metadata) (s : Survey)
      → Distinct files
      → get q (walk images files s).cached ≡ (
          if is_under images q
          then lookup_with q (get q s.cached) (get q files)
          else get q s.cached)
  unfolding walk get
  get-walk q [] s h = ground arith
  get-walk q ((path, m) ∷ files) s h = ground (
    arith,
    get-walk q files (measure s path m) h.1,
    get-walk q files s h.1,
    get-insert path q (cached_of path m) s.cached,
    text_eq_iff path q,
  )

  walk-count :
      (files : Map Metadata) (s : Survey)
      → ((walk images files s).files ≡ s.files + count files)
        × ((walk images files s).bytes ≡ s.bytes + total files)
  unfolding walk
  walk-count [] s = omega arith
  walk-count ((path, m) ∷ files) s =
      ground (arith, walk-count files (measure s path m), walk-count files s)

  remove-Distinct :
      (path : Text) (files : Map Metadata) → Distinct files → Distinct (remove path files)
  unfolding remove
  remove-Distinct path [] h = tt
  remove-Distinct path ((k, m) ∷ files) h =
      ground (arith, get-remove path k files, remove-Distinct path files h.1)

  pub remove_absent :
      (path : Text) (files : Map Metadata) → get path files ≡ none → remove path files ≡ files
  unfolding get remove
  remove_absent path [] h = refl
  remove_absent path ((k, m) ∷ files) h = ground (arith, remove_absent path files)

  remove-count :
      (path : Text) (files : Map Metadata) (m : Metadata)
      → Distinct files
      → get path files ≡ some m
      → is_under images path ≡ true
      → (count (remove path files) + 1 ≡ count files)
        × (total (remove path files) + m.len ≡ total files)
  unfolding get remove
  remove-count path [] m d h under = cc
  remove-count path ((k, n) ∷ files) m d h under =
      ground (arith, text_eq_iff k path, remove_absent path files, remove-count path files m d.1)

  remove-count_outside :
      (path : Text) (files : Map Metadata)
      → is_under images path ≡ false
      → (count (remove path files) ≡ count files) × (total (remove path files) ≡ total files)
  unfolding remove
  remove-count_outside path [] out = (refl, refl)
  remove-count_outside path ((k, n) ∷ files) out =
      ground (arith, text_eq_iff k path, remove-count_outside path files out)

-- The survey holds what the disk has below the directory, counts it and sums its bytes.
pub record Agrees (images : Text) (s : Survey) (files : Map Metadata) : Type 0 where
  pub distinct : Distinct files
  pub holds :
      (q : Text)
      → get q s.cached ≡ (if is_under images q then lookup_with q none (get q files) else none)
  pub counted : s.files ≡ count images files
  pub summed : s.bytes ≡ total images files

pub walk-Agrees :
    (images : Text) (files : Map Metadata)
    → Distinct files
    → Agrees images (walk images files empty) files
walk-Agrees images files h = record {
  distinct = h;
  holds = λ q. get-walk images q files empty h ∙ unfold get in refl;
  counted = omega (arith, walk-count images files empty);
  summed = omega (arith, walk-count images files empty);
}

module _ (images : Text) (s : Survey) (files : Map Metadata) (path : Text)
    (v : Agrees images s files) where
  -- What is measured is on the disk.
  measured_file :
      (c : Cached)
      → get path s.cached ≡ some c
      → (m : Metadata) × (get path files ≡ some m)
        × (c.bytes ≡ m.len)
        × (is_under images path ≡ true)
  measured_file c h = elim (Option-cases (get path files)) [
    | inl gone ↦ absurd (ground (arith, v.holds path))
    | inr (m, there) ↦ (m, there, ground (arith, v.holds path), ground (arith, v.holds path))
  ]

  -- Forgetting a file that the disk loses keeps the two in step.
  pub forget-Agrees :
      (c : Cached) → get path s.cached ≡ some c → Agrees images (forget path s) (remove path files)
  unfolding forget
  forget-Agrees c h =
      let (m, there, size, under) = measured_file c h in
      let counts = remove-count images path files m v.distinct there under in
      record {
        distinct = remove-Distinct images path files v.distinct;
        holds = λ q. ground (arith, get-remove path q s.cached, get-remove path q files, v.holds q);
        counted = rw (h, forget) (omega (arith, counts, v.counted));
        summed = rw (h, forget) (omega (arith, counts, v.summed));
      }

  -- A file elsewhere does not matter.
  pub outside-Agrees : is_under images path ≡ false → Agrees images s (remove path files)
  outside-Agrees out = record {
    distinct = remove-Distinct images path files v.distinct;
    holds = λ q. ground (arith, get-remove path q files, v.holds q, text_eq_iff path q);
    counted = v.counted ∙ sym (remove-count_outside images path files out).0;
    summed = v.summed ∙ sym (remove-count_outside images path files out).1;
  }
