-- ===== src/Cache/Loops.antt =====
-- The removing loops keep the survey in step with the disk.
use whirl.Prelude.{
  ℕ, zero, suc, ◌+◌, ◌≡◌, refl, subst, List, [], ◌∷◌, ◌&&◌, false, Text, Option-cases, Bool-cases,
  inl, inr, arith, All, sym,
}
use whirl.Map.{Map, get, remove}
use whirl.Cache.{Survey, content_path, images_dir, tmp_dir}
use whirl.Cache.Disk.{Disk, Metadata, M, Outcome, ok, fault, Fault, continue, remove_file, is_under}
use whirl.Cache.Measure.{within_caps}
use whirl.Cache.Evict.{
  Progress, Rules, rule_for, drop_file, reclaim, stale, stale_parts, list_stale, clean, victim,
  evict,
}
use whirl.Cache.Victim.{candidate_measured, victim-candidate}
use whirl.Cache.Accounts.{Agrees, forget-Agrees, outside-Agrees, remove_absent}
use whirl.Cache.Promises.{images-not-tmp}

-- A run whose value, if it has one, satisfies `P`.
pub data Ends {ℓ} {A : Type 0} (P : A → Disk → Type ℓ) : Outcome A × Disk → Type ℓ where
  done : (a : A) (d : Disk) → P a d → Ends P (ok a, d)
  stopped : (e : Fault) (d : Disk) → Ends P (fault e, d)

pub Ends-bind {ℓ} :
    {A B : Type 0} (Q : B → Disk → Type ℓ) (f : A → M B) (x : Outcome A × Disk)
    → ((a : A) (d : Disk) → x ≡ (ok a, d) → Ends Q (f a d))
    → Ends Q (continue f x)
unfolding continue
Ends-bind Q f (ok a, d) h = h a d refl
Ends-bind Q f (fault e, d) h = stopped e d

abbrev pub Holds {ℓ} : {A : Type 0} → (A → Disk → Type ℓ) → Outcome A × Disk → Type ℓ
Holds P (ok a, d) = P a d
Holds P (fault e, d) = Unit

pub Ends-Holds {ℓ} :
    {A : Type 0} (P : A → Disk → Type ℓ) {x : Outcome A × Disk} → Ends P x → Holds P x
Ends-Holds P (done a d p) = p
Ends-Holds P (stopped e d) = tt

-- What a run ends with, where it does not fail.
pub Ends-at {ℓ} :
    {A : Type 0} (P : A → Disk → Type ℓ) {x : Outcome A × Disk} (a : A) (d : Disk)
    → Ends P x
    → x ≡ (ok a, d)
    → P a d
Ends-at P a d t e = subst (Holds P) e (Ends-Holds P t)

-- A removal that succeeds takes every file of that path.
remove_file-files :
    (path : Text) (d d' : Disk) (u : Unit {0})
    → remove_file path d ≡ (ok u, d')
    → d'.files ≡ remove path d.files
unfolding remove_file
remove_file-files path d d' u h = ground (arith, remove_absent [] path d.files)

module _ (r : Rules) where
  abbrev pub InStep : Progress → Disk → Type 0
  InStep p d = Agrees (images_dir r.root) p.measured d.files

  pub reclaim-InStep :
      (paths : List Text) (p : Progress) (d : Disk) → InStep p d → Ends InStep (reclaim r paths p d)
  unfolding reclaim
  reclaim-InStep [] p d h = done p d h
  reclaim-InStep (path ∷ paths) p d h = elim (Option-cases (get path p.measured.cached)) [
    | inl gone ↦ rw (gone, reclaim) (stopped _ d)
    | inr (file, there) ↦ elim (Option-cases (rule_for r file)) [
      | inr (rule, kept) ↦ rw (there, reclaim, kept) (reclaim-InStep paths p d h)
      | inl unkept ↦
          rw (there, reclaim, unkept)
            (Ends-bind InStep _ (remove_file path d) (λ u d' e.
              reclaim-InStep paths (drop_file r path file p) d' (
                subst (Agrees (images_dir r.root) _) (sym (remove_file-files path d d' u e))
                  (forget-Agrees (images_dir r.root) p.measured d.files path h file there))))
    ]
  ]

  pub evict-InStep :
      (fuel : ℕ) (p : Progress) (d : Disk) → InStep p d → Ends InStep (evict r fuel p d)
  unfolding evict
  evict-InStep zero p d h = done p d h
  evict-InStep (suc fuel) p d h =
      elim (Bool-cases (within_caps r.config.max_bytes r.config.max_files p.measured)) [
        | inl within ↦ rw (within, evict) (done p d h)
        | inr over ↦ elim (Option-cases (victim r p.measured p.entries)) [
          | inl nothing ↦ rw (over, evict, nothing) (done p d h)
          | inr ((digest, entry, file), found) ↦
              let chosen = victim-candidate r p.measured p.entries digest entry file found in
              let (there, _) = candidate_measured r p.measured digest entry file chosen.0 in
              let path = content_path r.root digest entry.ext in
              rw (over, evict, found)
                (Ends-bind InStep _ (remove_file path d) (λ u d' e.
                  evict-InStep fuel
                    (record (drop_file r path file p) { entries = remove digest p.entries }) d'
                    (subst (Agrees (images_dir r.root) _) (sym (remove_file-files path d d' u e))
                      (forget-Agrees (images_dir r.root) p.measured d.files path h file there))))
        ]
      ]

  abbrev pub PartsOf : List (Text × ℕ) → Type 0
  PartsOf = All (λ (part : Text × ℕ). is_under (images_dir r.root) part.0 ≡ false)

  stale_parts-PartsOf : (files : Map Metadata) → PartsOf (stale_parts r files)
  unfolding stale_parts
  stale_parts-PartsOf [] = tt
  stale_parts-PartsOf ((path, m) ∷ files) =
      elim (Bool-cases (is_under (tmp_dir r.root) path && stale r m.modified)) [
        | inl old ↦ rw old (ground (arith, images-not-tmp r.root path), stale_parts-PartsOf files)
        | inr fresh ↦ rw fresh (stale_parts-PartsOf files)
      ]

  pub clean-InStep :
      (parts : List (Text × ℕ)) (counts : ℕ × ℕ) (s : Survey) (d : Disk)
      → PartsOf parts
      → Agrees (images_dir r.root) s d.files
      → Ends
          (λ (n : ℕ × ℕ) (d' : Disk). Agrees (images_dir r.root) s d'.files)
          (clean r parts counts d)
  unfolding clean
  clean-InStep [] counts s d h v = done counts d v
  clean-InStep ((path, bytes) ∷ parts) (cleaned, freed) s d h v =
      Ends-bind _ _ (remove_file path d) (λ u d' e.
        clean-InStep parts (cleaned + 1, freed + bytes) s d' h.1
          (subst (Agrees (images_dir r.root) s) (sym (remove_file-files path d d' u e))
            (outside-Agrees (images_dir r.root) s d.files path v h.0)))

  pub list_stale-InStep :
      (s : Survey) (d : Disk)
      → Agrees (images_dir r.root) s d.files
      → Ends
          (λ (parts : List (Text × ℕ)) (d' : Disk).
            PartsOf parts × Agrees (images_dir r.root) s d'.files)
          (list_stale r d)
  unfolding list_stale
  list_stale-InStep s d v = elim (Bool-cases d.tmp_unreadable) [
    | inl held ↦ simp held (stopped _ d)
    | inr free ↦ simp free (done _ d (stale_parts-PartsOf d.files, v))
  ]
