-- ===== src/Cache/Victim.antt =====
-- What the choice of a victim guarantees.
use whirl.Prelude.{
  ◌≤◌, ◌<◌, ◌≡◌, [], ◌∷◌, true, ◌≢◌, Option, none, some, Text, text_eq_iff, Option-cases, arith,
  inl, inr, length,
}
use whirl.Map.{Map, get, remove, contains_key}
use whirl.Cache.{CacheIndexEntry, Cached, Survey, content_path}
use whirl.Cache.Evict.{Rules, rule_for, Victim, candidate, min_with, victim}

module _ (r : Rules) where
  pub candidate_measured :
      (s : Survey) (digest : Text) (entry : CacheIndexEntry) (file : Cached)
      → candidate r s digest entry ≡ some file
      → (get (content_path r.root digest entry.ext) s.cached ≡ some file) × (rule_for r file ≡ none)
  unfolding candidate
  candidate_measured s digest entry file h = ground arith

  -- The victim is an entry of the index that may go.
  pub victim-candidate :
      (s : Survey) (entries : Map CacheIndexEntry) (digest : Text) (entry : CacheIndexEntry)
      (file : Cached)
      → victim r s entries ≡ some (digest, entry, file)
      → (candidate r s digest entry ≡ some file) × (contains_key digest entries ≡ true)
  unfolding victim contains_key get min_with
  victim-candidate s [] digest entry file h = cc
  victim-candidate s ((digest', entry') ∷ rest) digest entry file h =
      ground (arith, victim-candidate s rest digest entry file, text_eq_iff digest' digest)

-- No victim is left exactly when every entry's measured file is kept by a rule.
abbrev pub EntriesKept : Rules → Survey → Map CacheIndexEntry → Type 0
EntriesKept r s [] = Unit
EntriesKept r s ((digest, entry) ∷ rest) =
    ((file : Cached)
      → get (content_path r.root digest entry.ext) s.cached ≡ some file
      → rule_for r file ≢ none)
    × EntriesKept r s rest

min_with-ne-none : (v : Victim) (o : Option Victim) → min_with v o ≢ none
unfolding min_with
min_with-ne-none v none h = cc
min_with-ne-none v (some w) h = ground arith

pub victim-none :
    (r : Rules) (s : Survey) (entries : Map CacheIndexEntry)
    → victim r s entries ≡ none
    → EntriesKept r s entries
unfolding victim candidate
victim-none r s [] h = tt
victim-none r s ((digest, entry) ∷ rest) h = elim (Option-cases (candidate r s digest entry)) [
  | inl kept ↦ (λ file there unkept. ground arith, victim-none r s rest (ground arith))
  | inr (file, free) ↦
      absurd (min_with-ne-none (digest, entry, file) (victim r s rest) (ground arith))
]

-- Removing a key that is there makes the map shorter.
length-remove-le {ℓ} : {V : Type ℓ} (k : Text) (m : Map V) → length (remove k m) ≤ length m
unfolding remove
length-remove-le k [] = omega arith
length-remove-le k ((j, v) ∷ m) = ground (arith, length-remove-le k m)

pub length-remove-lt {ℓ} :
    {V : Type ℓ} (k : Text) (m : Map V) → contains_key k m ≡ true → length (remove k m) < length m
unfolding remove contains_key get
length-remove-lt k [] h = cc
length-remove-lt k ((j, v) ∷ m) h = ground (arith, length-remove-le k m, length-remove-lt k m)
