-- ===== src/Cache/Order.antt =====
-- Which entry the sweep evicts next.
use whirl.Prelude.{
  ◌≡◌, ◌≢◌, ◌⊎◌, subst, refl, [], ◌∷◌, true, false, Option, none, some, Text, text_eq, text_eq_iff,
  Option-cases, Bool-cases, inl, inr, arith,
}
use whirl.Map.{Map, get, text_ltb}
use whirl.Cache.{CacheIndexEntry, Cached, Survey, content_path, keeps}
use whirl.Cache.Evict.{Rules, Victim, older, min_with, candidate, victim}
use whirl.Cache.Victim.{candidate_measured, victim-candidate}

text_ltb_asym : (s t : Text) → text_ltb s t ≡ true → text_ltb t s ≡ false
unfolding text_ltb
text_ltb_asym [] [] h = cc
text_ltb_asym [] (b ∷ t) h = refl
text_ltb_asym (a ∷ s) [] h = cc
text_ltb_asym (a ∷ s) (b ∷ t) h = ground (arith, text_ltb_asym s t)

-- What is not above the middle one, which is not above the last, is not above the last.
text_ltb_trans_le :
    (s t u : Text) → text_ltb s t ≡ false → text_ltb t u ≡ false → text_ltb s u ≡ false
unfolding text_ltb
text_ltb_trans_le s t [] h k = refl
text_ltb_trans_le [] [] (c ∷ u) h k = cc
text_ltb_trans_le [] (b ∷ t) (c ∷ u) h k = cc
text_ltb_trans_le (a ∷ s) [] (c ∷ u) h k = cc
text_ltb_trans_le (a ∷ s) (b ∷ t) (c ∷ u) h k = ground (arith, text_ltb_trans_le s t u)

text_ltb_total : (s t : Text) → text_ltb s t ≡ false → text_ltb t s ≡ false → text_eq s t ≡ true
unfolding text_ltb text_eq
text_ltb_total [] [] h k = refl
text_ltb_total [] (b ∷ t) h k = cc
text_ltb_total (a ∷ s) [] h k = cc
text_ltb_total (a ∷ s) (b ∷ t) h k = ground (arith, text_ltb_total s t)

older_asym : (v w : Victim) → older v w ≡ true → older w v ≡ false
unfolding older
older_asym (d, e, f) (d', e', f') h = ground (
  arith,
  text_ltb_asym e.last_used e'.last_used,
  text_ltb_asym e'.last_used e.last_used,
  text_ltb_asym d d',
  text_eq_iff e.last_used e'.last_used,
  text_eq_iff e'.last_used e.last_used,
)

older_trans_le : (v w x : Victim) → older v w ≡ false → older w x ≡ false → older v x ≡ false
unfolding older
older_trans_le (d, e, f) (d', e', f') (d'', e'', f'') h k = ground (
  arith,
  text_ltb_trans_le e.last_used e'.last_used e''.last_used,
  text_ltb_trans_le d d' d'',
  text_ltb_total e.last_used e'.last_used,
  text_ltb_total e'.last_used e''.last_used,
  text_ltb_asym e'.last_used e.last_used,
  text_ltb_asym e''.last_used e'.last_used,
  text_eq_iff e.last_used e'.last_used,
  text_eq_iff e'.last_used e''.last_used,
  text_eq_iff e.last_used e''.last_used,
)

older_irrefl : (v : Victim) → older v v ≡ false
older_irrefl v = elim (Bool-cases (older v v)) [
  | inr after ↦ after
  | inl before ↦ older_asym v v before
]

module _ (r : Rules) (measured : Survey) where
  -- No entry whose file is measured and kept by no rule comes before the victim in the order of use.
  abbrev NoneBefore : Victim → Map CacheIndexEntry → Type 0
  NoneBefore v [] = Unit
  NoneBefore v ((digest, entry) ∷ rest) =
      ((file : Cached)
        → candidate r measured digest entry ≡ some file
        → older (digest, entry, file) v ≡ false)
      × NoneBefore v rest

  never : (v : Victim) (o : Option Victim) → min_with v o ≢ none
  unfolding min_with
  never v none = cc
  never v (some w) = ground arith

  none-NoneBefore :
      (v : Victim) (entries : Map CacheIndexEntry)
      → victim r measured entries ≡ none
      → NoneBefore v entries
  unfolding victim min_with
  none-NoneBefore v [] h = tt
  none-NoneBefore v ((digest, entry) ∷ rest) h =
      elim (Option-cases (candidate r measured digest entry)) [
        | inl kept ↦
            (λ file there. absurd (ground arith), none-NoneBefore v rest (rw (kept, victim) at h))
        | inr (file, there) ↦
            absurd (never (digest, entry, file) (victim r measured rest) (rw (there, victim) at h))
      ]

  NoneBefore-le :
      (v w : Victim) (entries : Map CacheIndexEntry)
      → older w v ≡ false
      → NoneBefore w entries
      → NoneBefore v entries
  NoneBefore-le v w [] le h = tt
  NoneBefore-le v w ((digest, entry) ∷ rest) le h = (
    λ file there. older_trans_le (digest, entry, file) w v (h.0 file there) le,
    NoneBefore-le v w rest le h.1,
  )

  min_with-NoneBefore :
      (digest : Text) (entry : CacheIndexEntry) (file : Cached) (rest : Map CacheIndexEntry)
      (o : Option Victim)
      → (o ≡ none → (x : Victim) → NoneBefore x rest)
      → ((w : Victim) → o ≡ some w → NoneBefore w rest)
      → (v : Victim) → min_with (digest, entry, file) o ≡ some v
      → NoneBefore v ((digest, entry) ∷ rest)
  unfolding min_with older
  min_with-NoneBefore digest entry file rest none alone least v h =
      subst (λ v. NoneBefore v ((digest, entry) ∷ rest)) (same h)
        (λ file' _. older_irrefl (digest, entry, file), alone refl (digest, entry, file))
    where
      same : some (digest, entry, file) ≡ some v → (digest, entry, file) ≡ v
      same e = cc
  min_with-NoneBefore digest entry file rest (some w) alone least v h =
      elim (Bool-cases (older w (digest, entry, file))) [
        | inl before ↦
            subst (λ v. NoneBefore v ((digest, entry) ∷ rest)) (same_before before h)
              (λ file' _. older_asym w (digest, entry, file) before, least w refl)
        | inr after ↦
            subst (λ v. NoneBefore v ((digest, entry) ∷ rest)) (same_after after h)
              (
                λ file' _. older_irrefl (digest, entry, file),
                NoneBefore-le (digest, entry, file) w rest after (least w refl),
              )
      ]
    where
      same_before :
          older w (digest, entry, file) ≡ true
          → min_with (digest, entry, file) (some w) ≡ some v
          → w ≡ v
      same_before b e = ground arith

      same_after :
          older w (digest, entry, file) ≡ false
          → min_with (digest, entry, file) (some w) ≡ some v
          → (digest, entry, file) ≡ v
      same_after b e = ground arith

  victim-NoneBefore :
      (entries : Map CacheIndexEntry) (v : Victim)
      → victim r measured entries ≡ some v
      → NoneBefore v entries
  unfolding victim min_with
  victim-NoneBefore [] v h = cc
  victim-NoneBefore ((digest, entry) ∷ rest) v h =
      elim (Option-cases (candidate r measured digest entry)) [
        | inl kept ↦
            (λ file there. absurd (ground arith), victim-NoneBefore rest v (rw (kept, victim) at h))
        | inr (file, there) ↦
            min_with-NoneBefore digest entry file rest (victim r measured rest)
              (λ alone x. none-NoneBefore x rest alone) (λ w found. victim-NoneBefore rest w found)
              v (rw (there, victim) at h)
      ]

  -- An entry of the index that may go: its file is measured, and no rule keeps it.
  abbrev pub IsFree : Text → CacheIndexEntry → Cached → Type 0
  IsFree digest entry file =
      (get (content_path r.root digest entry.ext) measured.cached ≡ some file)
      × (keeps r.protected file r.now r.config.grace_seconds ≡ none)

  -- Used no earlier than `entry`, and with no smaller digest where both were used at the same time.
  abbrev pub NoEarlier : Text → CacheIndexEntry → Text → CacheIndexEntry → Type 0
  NoEarlier digest' entry' digest entry =
      (text_ltb entry'.last_used entry.last_used ≡ false)
      × (entry'.last_used ≡ entry.last_used → text_ltb digest' digest ≡ false)

  abbrev pub AllNoEarlier : Text → CacheIndexEntry → Map CacheIndexEntry → Type 0
  AllNoEarlier digest entry [] = Unit
  AllNoEarlier digest entry ((digest', entry') ∷ rest) =
      ((file' : Cached) → IsFree digest' entry' file' → NoEarlier digest' entry' digest entry)
      × AllNoEarlier digest entry rest

  abbrev pub IsAmong : Text → CacheIndexEntry → Map CacheIndexEntry → Type 0
  IsAmong digest entry [] = ⊥
  IsAmong digest entry ((digest', entry') ∷ rest) =
      ((digest' ≡ digest) × (entry' ≡ entry)) ⊎ IsAmong digest entry rest

  pub record IsNext (entries : Map CacheIndexEntry) (digest : Text) (entry : CacheIndexEntry)
      (file : Cached) : Type 0 where
    pub among : IsAmong digest entry entries
    pub free : IsFree digest entry file
    pub first : AllNoEarlier digest entry entries

  free-candidate :
      (digest : Text) (entry : CacheIndexEntry) (file : Cached)
      → IsFree digest entry file
      → candidate r measured digest entry ≡ some file
  unfolding candidate
  free-candidate digest entry file h = ground (arith, h)

  older-NoEarlier :
      (digest' digest : Text) (entry' entry : CacheIndexEntry) (file' file : Cached)
      → older (digest', entry', file') (digest, entry, file) ≡ false
      → NoEarlier digest' entry' digest entry
  unfolding older
  older-NoEarlier digest' digest entry' entry file' file h =
      (ground arith, λ e. ground (arith, text_eq_iff entry'.last_used entry.last_used))

  NoneBefore-AllNoEarlier :
      (digest : Text) (entry : CacheIndexEntry) (file : Cached) (entries : Map CacheIndexEntry)
      → NoneBefore (digest, entry, file) entries
      → AllNoEarlier digest entry entries
  NoneBefore-AllNoEarlier digest entry file [] h = tt
  NoneBefore-AllNoEarlier digest entry file ((digest', entry') ∷ rest) h = (
    λ file' free.
        older-NoEarlier digest' digest entry' entry file' file
          (h.0 file' (free-candidate digest' entry' file' free)),
    NoneBefore-AllNoEarlier digest entry file rest h.1,
  )

  victim-IsAmong :
      (entries : Map CacheIndexEntry) (digest : Text) (entry : CacheIndexEntry) (file : Cached)
      → victim r measured entries ≡ some (digest, entry, file)
      → IsAmong digest entry entries
  unfolding victim min_with
  victim-IsAmong [] digest entry file h = absurd cc
  victim-IsAmong ((digest', entry') ∷ rest) digest entry file h =
      ground (arith, victim-IsAmong rest digest entry file)

  -- The entry that the sweep evicts next is one of the index whose file is measured and kept by no rule,
  -- and it is the one used the longest ago among these; of two used at the same time it is the one with
  -- the smaller digest.
  pub victim-IsNext :
      (entries : Map CacheIndexEntry) (digest : Text) (entry : CacheIndexEntry) (file : Cached)
      → victim r measured entries ≡ some (digest, entry, file)
      → IsNext entries digest entry file
  victim-IsNext entries digest entry file h = record {
    among = victim-IsAmong entries digest entry file h;
    free =
        candidate_measured r measured digest entry file
          (victim-candidate r measured entries digest entry file h).0;
    first =
        NoneBefore-AllNoEarlier digest entry file entries
          (victim-NoneBefore entries (digest, entry, file) h);
  }
