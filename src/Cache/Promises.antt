-- ===== src/Cache/Promises.antt =====
-- The promises in the module comment of crates/whirld/src/cache.rs: the anchor, the pins and what is
-- young are kept, and nothing outside the cache is touched. A pin is one of `favorites.json`: the copy of
-- it that an entry of the index has is not read.
use whirl.Prelude.{
  ◌≡◌, ◌≢◌, sym, subst, [], ◌∷◌, ◌++◌, append_assoc, text_eq, true, false, none, some, Text, Option,
  Bool-cases, refl, text_eq_iff, arith, inl, inr, All, codes,
}
use whirl.Prelude.Int.{ℤ, pos, ◌-ℤ◌, ◌<ℤ◌}
use whirl.Map.{Map, get, get-insert}
use whirl.Cache.{Cached, Protected, Survey, images_dir, tmp_dir, member, keeps, keeps_by_age, grace}
use whirl.Cache.Disk.{Disk, Metadata, is_under, starts_with}
use whirl.Cache.Measure.{digest_of, cached_of, empty, measure, walk}
use whirl.Cache.Evict.{Rules, rule_for}
use whirl.Cache.Sweep.{sweep}
use whirl.Cache.Safety.{Spared, sweep-Spares, Spares-files}

measure-cached {ℓ} :
    (images q : Text) (Q : Cached → Type ℓ) (path : Text) (m : Metadata) (s : Survey)
    → (path ≡ q → Q (cached_of path m))
    → ((c : Cached) → get q s.cached ≡ some c → Q c)
    → (c : Cached) → get q (measure s path m).cached ≡ some c
    → Q c
measure-cached images q Q path m s here old c h = elim (Bool-cases (text_eq path q)) [
  | inl same ↦
      subst Q (ground (arith, get-insert path q (cached_of path m) s.cached))
        (here ((text_eq_iff path q).0 same))
  | inr other ↦ old c (ground (arith, get-insert path q (cached_of path m) s.cached))
]

-- What is measured under `q` comes from a file with that path.
walk-cached {ℓ} :
    (images q : Text) (Q : Cached → Type ℓ) (files : Map Metadata) (s : Survey)
    → All
        (λ (f : Text × Metadata). is_under images f.0 ≡ true → f.0 ≡ q → Q (cached_of f.0 f.1))
        files
    → ((c : Cached) → get q s.cached ≡ some c → Q c)
    → (c : Cached) → get q (walk images files s).cached ≡ some c
    → Q c
unfolding walk
walk-cached images q Q [] s from old c h = old c h
walk-cached images q Q ((path, m) ∷ files) s from old c h =
    elim (Bool-cases (is_under images path)) [
      | inl under ↦
          walk-cached images q Q files (measure s path m) from.1
            (measure-cached images q Q path m s (from.0 under) old) c (rw (under, walk) at h)
      | inr out ↦ walk-cached images q Q files s from.1 old c (rw (out, walk) at h)
    ]

-- One text is not below two directories that differ in one place.
starts_with-append :
    (root s t path : Text)
    → starts_with (root ++ s) path ≡ true
    → starts_with (root ++ t) path ≡ true
    → (rest : Text) × (starts_with s rest ≡ true) × (starts_with t rest ≡ true)
unfolding starts_with
starts_with-append [] s t path h k = (path, h, k)
starts_with-append (a ∷ root) s t [] h k = cc
starts_with-append (a ∷ root) s t (b ∷ path) h k =
    starts_with-append root s t path (ground arith) (ground arith)

differ :
    (rest : Text)
    → starts_with (b'/' ∷ codes "sha256" ++ b'/' ∷ []) rest ≡ true
    → starts_with (b'/' ∷ codes "tmp" ++ b'/' ∷ []) rest ≡ true
    → ⊥
unfolding starts_with
differ [] s t = cc
differ (a ∷ []) s t = ground arith
differ (a ∷ b ∷ rest) s t = ground arith

pub images-not-tmp :
    (root path : Text)
    → is_under (images_dir root) path ≡ true
    → is_under (tmp_dir root) path ≡ false
unfolding starts_with
images-not-tmp root path h = elim (Bool-cases (is_under (tmp_dir root) path)) [
  | inr out ↦ out
  | inl under ↦
      let (rest, s, t) =
        starts_with-append root (b'/' ∷ codes "sha256" ++ b'/' ∷ [])
          (b'/' ∷ codes "tmp" ++ b'/' ∷ []) path (rw append_assoc at h)
          (rw append_assoc at under) in
      absurd (differ rest s t)
]

-- The rules by which a file is kept whatever its age: the whole cache while the pins are unknown, the
-- file on screen, and a pin, each by its path or by the digest in its name.
pub data IsNamed (protected : Protected) (q : Text) : Type 0 where
  degraded : protected.degraded ≡ true → IsNamed protected q
  anchor_path : member q protected.anchor_paths ≡ true → IsNamed protected q
  anchor_digest :
      (digest : Text)
      → digest_of q ≡ some digest
      → protected.anchor_digest ≡ some digest
      → IsNamed protected q
  pinned_path : member q protected.pinned_paths ≡ true → IsNamed protected q
  pinned_digest :
      (digest : Text)
      → digest_of q ≡ some digest
      → member digest protected.pinned_digests ≡ true
      → IsNamed protected q

IsNamed-kept :
    (r : Rules) (q : Text) (m : Metadata)
    → IsNamed r.protected q
    → rule_for r (cached_of q m) ≢ none
unfolding keeps
IsNamed-kept r q m (degraded h) = ground arith
IsNamed-kept r q m (anchor_path h) = ground arith
IsNamed-kept r q m (anchor_digest digest e h) = ground (arith, text_eq_iff digest digest)
IsNamed-kept r q m (pinned_path h) = ground arith
IsNamed-kept r q m (pinned_digest digest e h) = ground arith

-- Fewer seconds of the wall clock than the grace have passed since the file was modified, or nobody
-- knows when that was.
abbrev pub IsYoung : Rules → Option ℤ → Type 0
IsYoung r none = Unit
IsYoung r (some modified) = r.now -ℤ modified <ℤ pos r.config.grace_seconds

young_by_age :
    (r : Rules) (modified : Option ℤ)
    → IsYoung r modified
    → keeps_by_age modified r.now r.config.grace_seconds ≡ some grace
unfolding keeps_by_age
young_by_age r none h = refl
young_by_age r (some modified) h = ground arith

young-kept :
    (r : Rules) (q : Text) (m : Metadata) → IsYoung r m.modified → rule_for r (cached_of q m) ≢ none
unfolding keeps
young-kept r q m h = ground (arith, young_by_age r m.modified h)

-- A file that is named, or that is as young as the grace asks for.
pub data IsProtected (r : Rules) (q : Text) : Map Metadata → Type 0 where
  named : (files : Map Metadata) → IsNamed r.protected q → IsProtected r q files
  young :
      (files : Map Metadata)
      → All (λ (f : Text × Metadata). f.0 ≡ q → IsYoung r f.1.modified) files
      → IsProtected r q files

module _ (r : Rules) (q : Text) where
  abbrev AllKept : Map Metadata → Type 0
  AllKept = All (λ (f : Text × Metadata).
      is_under (images_dir r.root) f.0 ≡ true → f.0 ≡ q → rule_for r (cached_of f.0 f.1) ≢ none)

  named-AllKept : (files : Map Metadata) → IsNamed r.protected q → AllKept files
  named-AllKept [] h = tt
  named-AllKept ((path, m) ∷ files) h = (
    λ _ e. subst (λ p. rule_for r (cached_of p m) ≢ none) (sym e) (IsNamed-kept r q m h),
    named-AllKept files h,
  )

  young-AllKept :
      (files : Map Metadata)
      → All (λ (f : Text × Metadata). f.0 ≡ q → IsYoung r f.1.modified) files
      → AllKept files
  young-AllKept [] h = tt
  young-AllKept ((path, m) ∷ files) h =
      (λ _ e. young-kept r path m (h.0 e), young-AllKept files h.1)

  IsProtected-AllKept : (files : Map Metadata) → IsProtected r q files → AllKept files
  IsProtected-AllKept files (named _ h) = named-AllKept files h
  IsProtected-AllKept files (young _ h) = young-AllKept files h

  AllKept-Spared :
      (files : Map Metadata) → AllKept files → Spared r q (walk (images_dir r.root) files empty)
  AllKept-Spared files h =
      walk-cached (images_dir r.root) q (λ c. rule_for r c ≢ none) files empty h
        (λ c e. unfold get in cc)

  -- An image below `sha256/` is on the disk after a sweep as it was before, wherever the sweep stops,
  -- where the protected set names it by its path or by the digest in its name, as the anchor or as a
  -- pin of favorites.json; where its modification lies less than the grace behind, or has no date; and where
  -- the pin file cannot be read.
  pub sweep_keeps_protected :
      (minted : Text) (d : Disk)
      → is_under (images_dir r.root) q ≡ true
      → IsProtected r q d.files
      → get q (sweep r minted d).1.files ≡ get q d.files
  sweep_keeps_protected minted d under h = Spares-files (sweep r minted d) (
      sweep-Spares r q minted d (AllKept-Spared d.files (IsProtected-AllKept d.files h))
        (images-not-tmp r.root q under))
