-- ===== src/State/Ring.antt =====
-- The history ring: what a push keeps, and what `prev` finds.
use whirl.Prelude.{
  ℕ, zero, suc, ◌-◌, ◌≡◌, ◌≢◌, ◌≤◌, refl, sym, ap, ◌∙◌, subst, List, [], ◌∷◌, ◌++◌, Bool, not,
  Option, none, some, Text, option_eq, option_eq_iff, Bool-cases, inl, inr, leb, length, take, drop,
  find, if◌then◌else◌, arith, take-take, take_of_length-le, All,
}
use whirl.State.{
  HistoryEntry, HistoryRing, new_ring, pop_back, pop_to, push, position, walk_start, prev_from,
}

pop_back-take :
    (e : HistoryEntry) (rest : List HistoryEntry)
    → pop_back (e ∷ rest) ≡ take (length rest) (e ∷ rest)
unfolding pop_back
pop_back-take e [] = refl
pop_back-take e (f ∷ rest) = ap (λ xs. e ∷ xs) (pop_back-take f rest)

length-pop_back :
    (e : HistoryEntry) (rest : List HistoryEntry) → length (pop_back (e ∷ rest)) ≡ length rest
unfolding pop_back
length-pop_back e [] = refl
length-pop_back e (f ∷ rest) = omega (arith, length-pop_back f rest)

take-nil : (n : ℕ) → take {A = HistoryEntry} n [] ≡ []
take-nil zero = refl
take-nil (suc n) = refl

-- The loop takes the oldest until there is room for one more.
pop_to-take :
    (fuel n : ℕ) (entries : List HistoryEntry)
    → length entries ≤ fuel
    → pop_to fuel (suc n) entries ≡ take n entries
unfolding pop_to
pop_to-take zero n [] h = sym (take-nil n)
pop_to-take zero n (e ∷ rest) h = absurd (omega arith)
pop_to-take (suc fuel) n [] h = ground (arith, take-nil n)
pop_to-take (suc fuel) n (e ∷ rest) h = elim (Bool-cases (leb (suc n) (suc (length rest)))) [
  | inl full ↦ rw full (
      pop_to-take fuel n (pop_back (e ∷ rest)) (omega (arith, length-pop_back e rest))
      ∙ ap (take n) (pop_back-take e rest)
      ∙ take-take n (length rest) (e ∷ rest) (ground arith))
  | inr room ↦ rw room (sym (take_of_length-le n (e ∷ rest) (ground arith)))
]

push-entries :
    (e : HistoryEntry) (n : ℕ) (ring : HistoryRing)
    → ring.bound ≡ suc n
    → (push e ring).entries ≡ take (suc n) (e ∷ ring.entries)
unfolding push
push-entries e n ring h =
    ground (arith, h, pop_to-take (length ring.entries) n ring.entries (omega arith))

-- The ring after the entries were pushed, the last of them first in the list.
abbrev pub pushed : ℕ → List HistoryEntry → HistoryRing
pushed bound [] = new_ring bound
pushed bound (e ∷ entries) = push e (pushed bound entries)

pushed-bound :
    (bound : ℕ) (entries : List HistoryEntry)
    → (pushed bound entries).bound ≡ (if leb bound 1 then 1 else bound)
unfolding push new_ring
pushed-bound bound [] = refl
pushed-bound bound (e ∷ entries) = ground (arith, pushed-bound bound entries)

suc_bound : (bound : ℕ) → (if leb bound 1 then 1 else bound) ≡ suc (bound - 1)
suc_bound bound = ground arith

new_ring-entries : (bound : ℕ) → (new_ring bound).entries ≡ []
unfolding new_ring
new_ring-entries bound = refl

pushed-take :
    (bound : ℕ) (entries : List HistoryEntry)
    → (pushed bound entries).entries ≡ take (suc (bound - 1)) entries
pushed-take bound [] = new_ring-entries bound
pushed-take bound (e ∷ entries) =
    push-entries e (bound - 1) (pushed bound entries) (pushed-bound bound entries ∙ suc_bound bound)
    ∙ ap (λ xs. take (suc (bound - 1)) (e ∷ xs)) (pushed-take bound entries)
    ∙ ap (λ xs. e ∷ xs) (take-take (bound - 1) (suc (bound - 1)) entries (omega arith))

-- However many entries were pushed, the ring holds the newest of them up to its bound, newest first; a
-- bound of 0 counts as 1.
pub ring_keeps_newest :
    (bound : ℕ) (entries : List HistoryEntry)
    → (pushed bound entries).entries ≡ take (if leb bound 1 then 1 else bound) entries
ring_keeps_newest bound entries =
    pushed-take bound entries ∙ ap (λ n. take n entries) (sym (suc_bound bound))

-- The first of the entries.
abbrev pub newest : List HistoryEntry → Option HistoryEntry
newest [] = none
newest (e ∷ rest) = some e

-- Entries that begin with one of another digest, if they begin at all.
abbrev pub Begins : Option Text → List HistoryEntry → Type 0
Begins anchor [] = Unit
Begins anchor (e ∷ rest) = e.digest ≢ anchor

-- What `prev` is from an anchor: the newest entry where the anchor is nowhere in the ring; otherwise the
-- entry that comes right after the newest run of entries with the anchor's digest.
pub data Previous (anchor : Option Text) : List HistoryEntry → Option HistoryEntry → Type 0 where
  unseen :
      (entries : List HistoryEntry)
      → All (λ (e : HistoryEntry). e.digest ≢ anchor) entries
      → Previous anchor entries (newest entries)
  after_run :
      (newer : List HistoryEntry) (e : HistoryEntry) (run older : List HistoryEntry)
      → All (λ (e : HistoryEntry). e.digest ≢ anchor) newer
      → All (λ (e : HistoryEntry). e.digest ≡ anchor) (e ∷ run)
      → Begins anchor older
      → Previous anchor (newer ++ (e ∷ (run ++ older))) (newest older)

module _ (digest : Text) where
  abbrev has : HistoryEntry → Bool
  has e = option_eq e.digest (some digest)

  abbrev Differs : HistoryEntry → Type 0
  Differs e = e.digest ≢ some digest

  abbrev Same : HistoryEntry → Type 0
  Same e = e.digest ≡ some digest

  -- Where the walk begins.
  data Located : List HistoryEntry → Option ℕ → Type 0 where
    nowhere : (entries : List HistoryEntry) → All Differs entries → Located entries none
    located :
        (newer : List HistoryEntry) (e : HistoryEntry) (rest : List HistoryEntry) (i : ℕ)
        → All Differs newer
        → Same e
        → drop i (newer ++ e ∷ rest) ≡ e ∷ rest
        → Located (newer ++ e ∷ rest) (some i)

  further :
      (e : HistoryEntry) (rest : List HistoryEntry) (i : Option ℕ)
      → Differs e
      → Located rest i
      → Located (e ∷ rest) (elim i as (λ _. Option ℕ) [ none ↦ none | some i ↦ some (suc i) ])
  further e _ _ differs (nowhere rest h) = nowhere (e ∷ rest) (differs, h)
  further e _ _ differs (located newer f older i h same split) =
      located (e ∷ newer) f older (suc i) (differs, h) same split

  position-Located : (entries : List HistoryEntry) → Located entries (position has entries)
  unfolding position
  position-Located [] = nowhere [] tt
  position-Located (e ∷ rest) = elim (Bool-cases (has e)) [
    | inl same ↦
        rw same (located [] e rest 0 tt ((option_eq_iff e.digest (some digest)).0 same) refl)
    | inr other ↦ rw other (
        further e rest _ (λ same. ground (arith, (option_eq_iff e.digest (some digest)).1))
          (position-Located rest))
  ]

  -- What `find` takes after the walk's beginning.
  find-run :
      (rest : List HistoryEntry)
      → (run older : List HistoryEntry) × (rest ≡ run ++ older)
        × All Same run
        × Begins (some digest) older
        × (find (λ e. not (has e)) rest ≡ newest older)
  find-run [] = ([], [], refl, tt, tt, refl)
  find-run (e ∷ rest) = elim (Bool-cases (has e)) [
    | inl same ↦
        let (run, older, split, all_same, begins, found) = find-run rest in
        (
          e ∷ run,
          older,
          ap (λ xs. e ∷ xs) split,
          ((option_eq_iff e.digest (some digest)).0 same, all_same),
          begins,
          rw same found,
        )
    | inr other ↦ (
      [],
      e ∷ rest,
      refl,
      tt,
      λ same. ground (arith, (option_eq_iff e.digest (some digest)).1),
      rw other refl,
    )
  ]

  begin_at : Option ℕ → ℕ
  begin_at none = 0
  begin_at (some i) = i

  find_differing : List HistoryEntry → Option HistoryEntry
  find_differing = find (λ e. not (has e))

  unseen-newest :
      (entries : List HistoryEntry) → All Differs entries → find_differing entries ≡ newest entries
  unfolding find_differing
  unseen-newest [] h = refl
  unseen-newest (e ∷ rest) h = ground (arith, option_eq_iff e.digest (some digest))

  run-Previous :
      (newer : List HistoryEntry) (e : HistoryEntry) (rest : List HistoryEntry)
      → All Differs newer
      → Same e
      → Previous (some digest) (newer ++ e ∷ rest) (find_differing (e ∷ rest))
  unfolding find_differing
  run-Previous newer e rest h same =
      let (run, older, split, all_same, begins, found) = find-run rest in
      let skipped : find (λ e. not (has e)) (e ∷ rest) ≡ newest older =
        ground (arith, option_eq_iff e.digest (some digest), found) in
      subst (λ found. Previous (some digest) (newer ++ (e ∷ rest)) found) (sym skipped)
        (subst (λ rest. Previous (some digest) (newer ++ (e ∷ rest)) (newest older)) (sym split)
          (after_run newer e run older h (same, all_same) begins))

  Located-Previous :
      (entries : List HistoryEntry) (i : Option ℕ)
      → Located entries i
      → Previous (some digest) entries (find_differing (drop (begin_at i) entries))
  unfolding begin_at
  Located-Previous _ _ (nowhere entries h) = rw (unseen-newest entries h) (unseen entries h)
  Located-Previous _ _ (located newer e rest i h same split) =
      rw split (run-Previous newer e rest h same)

  walk_start-begin_at :
      (entries : List HistoryEntry)
      → walk_start (some digest) entries ≡ begin_at (position has entries)
  unfolding walk_start begin_at
  walk_start-begin_at entries = ground arith

  -- The entry that `prev` goes to from an anchor with a digest is the one that `Previous` describes.
  pub prev_from-Previous :
      (ring : HistoryRing) → Previous (some digest) ring.entries (prev_from (some digest) ring)
  unfolding prev_from find_differing
  prev_from-Previous ring =
      rw (walk_start-begin_at ring.entries)
        (Located-Previous ring.entries (position has ring.entries) (position-Located ring.entries))
