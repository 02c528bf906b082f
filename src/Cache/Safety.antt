-- ===== src/Cache/Safety.antt =====
-- Which files a sweep leaves alone: whatever it does, and wherever it stops.
use whirl.Prelude.{
  ℕ, zero, suc, ◌≡◌, ◌≢◌, refl, sym, subst, ◌∙◌, List, [], ◌∷◌, ◌&&◌, false, none, some, Text,
  text_eq_iff, Option-cases, Bool-cases, arith, inl, inr, All,
}
use whirl.Map.{Map, get, remove, get-remove}
use whirl.Cache.{IndexFile, Cached, Survey, images_dir, tmp_dir, content_path}
use whirl.Cache.Disk.{
  Disk, Metadata, Index, absent, unreadable, corrupt, newer, present, M, Outcome, ok, fault, Fault,
  continue, remove_file, cannot_remove, write, is_under,
}
use whirl.Cache.Measure.{survey, walk, empty, forget, within_caps}
use whirl.Cache.Evict.{
  Progress, Rules, rule_for, drop_file, reclaim, stale_parts, list_stale, stale, clean, victim,
  evict,
}
use whirl.Cache.Victim.{candidate_measured, victim-candidate}
use whirl.Cache.Sweep.{Reconciled, reconcile, sweep, load, read_index, remove_all}

-- A run that leaves the file `q` as it was, and whose value, if it has one, satisfies `P`.
pub data Spares {ℓ} {A : Type 0} (q : Text) (P : A → Disk → Type ℓ) (d : Disk)
    : Outcome A × Disk → Type ℓ where
  done : (a : A) (d' : Disk) → get q d'.files ≡ get q d.files → P a d' → Spares q P d (ok a, d')
  stopped : (e : Fault) (d' : Disk) → get q d'.files ≡ get q d.files → Spares q P d (fault e, d')

Spares-bind {ℓ κ} :
    {A B : Type 0} (q : Text) (P : A → Disk → Type ℓ) (Q : B → Disk → Type κ) (d : Disk)
    (f : A → M B) {r : Outcome A × Disk}
    → Spares q P d r
    → ((a : A) (d' : Disk) → P a d' → Spares q Q d' (f a d'))
    → Spares q Q d (continue f r)
unfolding continue
Spares-bind q P Q d f (stopped e d' same) next = stopped e d' same
Spares-bind q P Q d f (done a d' same p) next = Spares-trans (next a d' p) same
  where
    Spares-trans :
        {r : Outcome _ × Disk} → Spares q Q d' r → get q d'.files ≡ get q d.files → Spares q Q d r
    Spares-trans (done b d'' s y) e = done b d'' (s ∙ e) y
    Spares-trans (stopped e' d'' s) e = stopped e' d'' (s ∙ e)

abbrev Anything : {A : Type 0} → A → Disk → Type 0
Anything a d = Unit {0}

remove_file-Spares :
    (q path : Text) (d : Disk) → path ≢ q → Spares q Anything d (remove_file path d)
unfolding remove_file
remove_file-Spares q path d h = elim (Option-cases (get path d.files)) [
  | inl gone ↦ rw (gone, remove_file) (done tt d refl tt)
  | inr (m, there) ↦ elim (Bool-cases (d.undeletable path)) [
    | inl held ↦ rw (there, remove_file, held) (stopped (cannot_remove path) d refl)
    | inr free ↦
        rw (there, remove_file, free)
          (done tt _ (ground (arith, get-remove path q d.files, text_eq_iff path q)) tt)
  ]
]

-- Whatever is measured under the path `q` is kept by a rule.
abbrev pub Spared : Rules → Text → Survey → Type 0
Spared r q s = (c : Cached) → get q s.cached ≡ some c → rule_for r c ≢ none

get-forget :
    (path q : Text) (s : Survey) (c : Cached)
    → get q (forget path s).cached ≡ some c
    → get q s.cached ≡ some c
unfolding forget
get-forget path q s c h = ground (arith, get-remove path q s.cached)

forget-Spared : (r : Rules) (q path : Text) (s : Survey) → Spared r q s → Spared r q (forget path s)
forget-Spared r q path s h c e = h c (get-forget path q s c e)

module _ (r : Rules) (q : Text) where
  -- A file that no rule keeps is another than `q`.
  other_path :
      (s : Survey) (path : Text) (file : Cached)
      → Spared r q s
      → get path s.cached ≡ some file
      → rule_for r file ≡ none
      → path ≢ q
  other_path s path file h there unkept e = h file (rw e at there) unkept

  reclaim-Spares :
      (paths : List Text) (p : Progress) (d : Disk)
      → Spared r q p.measured
      → Spares q (λ (p' : Progress) d'. Spared r q p'.measured) d (reclaim r paths p d)
  unfolding reclaim
  reclaim-Spares [] p d h = done p d refl h
  reclaim-Spares (path ∷ paths) p d h = elim (Option-cases (get path p.measured.cached)) [
    | inl gone ↦ rw (gone, reclaim) (stopped _ d refl)
    | inr (file, there) ↦ elim (Option-cases (rule_for r file)) [
      | inr (rule, kept) ↦ rw (there, reclaim, kept) (reclaim-Spares paths p d h)
      | inl unkept ↦
          rw (there, reclaim, unkept)
            (Spares-bind q Anything _ d _
              (remove_file-Spares q path d (other_path p.measured path file h there unkept))
              (λ _ d' _.
                reclaim-Spares paths (drop_file r path file p) d'
                  (forget-Spared r q path p.measured h)))
    ]
  ]

  evict-Spares :
      (fuel : ℕ) (p : Progress) (d : Disk)
      → Spared r q p.measured
      → Spares q (λ (p' : Progress) d'. Spared r q p'.measured) d (evict r fuel p d)
  unfolding evict
  evict-Spares zero p d h = done p d refl h
  evict-Spares (suc fuel) p d h =
      elim (Bool-cases (within_caps r.config.max_bytes r.config.max_files p.measured)) [
        | inl within ↦ rw (within, evict) (done p d refl h)
        | inr over ↦ elim (Option-cases (victim r p.measured p.entries)) [
          | inl nothing ↦ rw (over, evict, nothing) (done p d refl h)
          | inr ((digest, entry, file), found) ↦
              let chosen = victim-candidate r p.measured p.entries digest entry file found in
              let (there, unkept) = candidate_measured r p.measured digest entry file chosen.0 in
              let path = content_path r.root digest entry.ext in
              rw (over, evict, found)
                (Spares-bind q Anything _ d _
                  (remove_file-Spares q path d (other_path p.measured path file h there unkept))
                  (λ _ d' _.
                    evict-Spares fuel
                      (record (drop_file r path file p) { entries = remove digest p.entries }) d'
                      (forget-Spared r q path p.measured h)))
        ]
      ]

  clean-Spares :
      (parts : List (Text × ℕ)) (counts : ℕ × ℕ) (d : Disk)
      → All (λ (part : Text × ℕ). part.0 ≢ q) parts
      → Spares q Anything d (clean r parts counts d)
  unfolding clean
  clean-Spares [] counts d h = done counts d refl tt
  clean-Spares ((path, bytes) ∷ parts) (cleaned, freed) d (other, h) =
      Spares-bind q Anything Anything d _ (remove_file-Spares q path d other)
        (λ _ d' _. clean-Spares parts _ d' h)

  stale_parts-other :
      (files : Map Metadata)
      → is_under (tmp_dir r.root) q ≡ false
      → All (λ (part : Text × ℕ). part.0 ≢ q) (stale_parts r files)
  unfolding stale_parts
  stale_parts-other [] h = tt
  stale_parts-other ((path, m) ∷ files) h =
      elim (Bool-cases (is_under (tmp_dir r.root) path && stale r m.modified)) [
        | inl old ↦ rw old (λ e. ground arith, stale_parts-other files h)
        | inr fresh ↦ rw fresh (stale_parts-other files h)
      ]

  list_stale-Spares :
      (d : Disk)
      → is_under (tmp_dir r.root) q ≡ false
      → Spares q
          (λ (parts : List (Text × ℕ)) d'. All (λ (part : Text × ℕ). part.0 ≢ q) parts)
          d
          (list_stale r d)
  unfolding list_stale
  list_stale-Spares d h = elim (Bool-cases d.tmp_unreadable) [
    | inl held ↦ simp held (stopped _ d refl)
    | inr free ↦ simp free (done _ d refl (stale_parts-other d.files h))
  ]

  write-Spares : (index : IndexFile) (d : Disk) → Spares q Anything d (write index d)
  unfolding write
  write-Spares index d = elim (Bool-cases d.index_unwritable) [
    | inl held ↦ simp held (stopped _ d refl)
    | inr free ↦ simp free (done tt _ refl tt)
  ]

  remove_all-Spares :
      (measured : Survey) (c : Reconciled) (d : Disk)
      → Spared r q measured
      → is_under (tmp_dir r.root) q ≡ false
      → Spares q Anything d (remove_all r measured c d)
  unfolding remove_all
  remove_all-Spares measured c d h out =
      Spares-bind q (λ (p : Progress) d'. Spared r q p.measured) Anything d _
        (reclaim-Spares _ _ d h)
        λ reclaimed d1 h1.
          Spares-bind q
            (λ (parts : List (Text × ℕ)) d'. All (λ (part : Text × ℕ). part.0 ≢ q) parts) Anything
            d1 _ (list_stale-Spares d1 out)
            λ parts d2 others.
              Spares-bind q Anything Anything d2 _ (clean-Spares parts _ d2 others)
                λ (cleaned, freed) d3 _.
                  Spares-bind q (λ (p : Progress) d'. Spared r q p.measured) Anything d3 _
                    (evict-Spares _ _ d3 h1) (λ evicted d4 _. done _ d4 refl tt)

  read_index-Spares :
      (i : Index) (d : Disk)
      → Spares q (λ (index : IndexFile) (d' : Disk). d'.files ≡ d.files) d (read_index r.now i d)
  read_index-Spares absent d = done _ d refl refl
  read_index-Spares unreadable d = stopped _ d refl
  read_index-Spares corrupt d = stopped _ d refl
  read_index-Spares (newer n) d = stopped _ d refl
  read_index-Spares (present index) d = done _ d refl refl

  load-Spares :
      (d : Disk) → Spares q (λ (index : IndexFile) (d' : Disk). d'.files ≡ d.files) d (load r.now d)
  unfolding load
  load-Spares d = read_index-Spares d.index d

  survey-Spares :
      (d : Disk)
      → Spared r q (walk (images_dir r.root) d.files empty)
      → Spares q (λ (s : Survey) (d' : Disk). Spared r q s) d (survey r.root d)
  unfolding survey
  survey-Spares d h = elim (Bool-cases d.images_unreadable) [
    | inl held ↦ simp held (stopped _ d refl)
    | inr free ↦ simp free (done _ d refl h)
  ]

  -- A file that is not under `tmp/`, and that a rule keeps where it is measured, is there after the
  -- sweep as it was before, wherever the sweep stops.
  pub sweep-Spares :
      (minted : Text) (d : Disk)
      → Spared r q (walk (images_dir r.root) d.files empty)
      → is_under (tmp_dir r.root) q ≡ false
      → Spares q Anything d (sweep r minted d)
  unfolding sweep
  sweep-Spares minted d h out =
      Spares-bind q (λ (index : IndexFile) (d' : Disk). d'.files ≡ d.files) Anything d _
        (load-Spares d)
        λ index d1 same.
          Spares-bind q (λ (s : Survey) (d' : Disk). Spared r q s) Anything d1 _
            (survey-Spares d1
              (subst (λ files. Spared r q (walk (images_dir r.root) files empty)) (sym same) h))
            λ measured d2 h2.
              Spares-bind q Anything Anything d2 _
                (remove_all-Spares measured (reconcile r.root measured.cached index.entries) d2 h2
                  out)
                λ (reclaimed, evicted, cleaned) d3 _.
                  Spares-bind q Anything Anything d3 _ (write-Spares _ d3)
                    (λ _ d4 _. done _ d4 refl tt)

pub Spares-files :
    {A : Type 0} {P : A → Disk → Type 0} {q : Text} {d : Disk} (x : Outcome A × Disk)
    → Spares q P d x
    → get q x.1.files ≡ get q d.files
Spares-files x (done a d' same p) = same
Spares-files x (stopped e d' same) = same
