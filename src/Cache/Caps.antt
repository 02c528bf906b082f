-- ===== src/Cache/Caps.antt =====
-- What a completed sweep leaves: a cache within its caps, or nothing more that may be evicted.
use whirl.Prelude.{
  ℕ, zero, suc, ◌≡◌, ◌≤◌, refl, sym, ◌∙◌, List, [], ◌∷◌, none, Text, Option-cases, Bool-cases, ◌⊎◌,
  inl, inr, length, ap, subst, arith,
}
use whirl.Prelude.Int.{ℤ}
use whirl.Map.{Map, get, remove}
use whirl.Cache.{CacheIndexEntry, IndexFile, Survey, Swept, content_path, images_dir}
use whirl.Cache.Disk.{
  Disk, Metadata, ok, Index, absent, unreadable, corrupt, newer, present, remove_file, write,
}
use whirl.Cache.Measure.{survey, walk, empty, within_caps}
use whirl.Cache.Evict.{Progress, Rules, victim, evict, drop_file, reclaim, list_stale, clean}
use whirl.Cache.Accounts.{Agrees, Distinct, count, total, walk-Agrees}
use whirl.Cache.Victim.{EntriesKept, victim-candidate, victim-none, length-remove-lt}
use whirl.Cache.Loops.{
  Ends, done, Ends-bind, Ends-at, InStep, reclaim-InStep, evict-InStep, clean-InStep,
  list_stale-InStep,
}
use whirl.Cache.Sweep.{
  Reconciled, read_index, load, reconcile, refresh_pins, finished_index, remove_all, sweep,
}

-- Reading the index changes nothing.
pub load_same : (now : ℤ) (d d' : Disk) (index : IndexFile) → load now d ≡ (ok index, d') → d' ≡ d
unfolding load
load_same now d d' index h = of_index d.index h
  where
    of_index : (x : Index) → read_index now x d ≡ (ok index, d') → d' ≡ d
    of_index absent h = ap (λ x. x.1) (sym h)
    of_index unreadable h = cc
    of_index corrupt h = cc
    of_index (newer found) h = cc
    of_index (present found) h = ap (λ x. x.1) (sym h)

pub write-index :
    (index : IndexFile) (d d' : Disk) (u : Unit {0})
    → write index d ≡ (ok u, d')
    → (d'.index ≡ present index) × (d'.files ≡ d.files)
unfolding write
write-index index d d' u h = ground arith

module _ (r : Rules) where
  -- Within both caps, or no entry of the index has a measured file that no rule keeps.
  abbrev pub Settled : Survey → Map CacheIndexEntry → Type 0
  Settled s entries =
      ((s.bytes ≤ r.config.max_bytes) × (s.files ≤ r.config.max_files)) ⊎ EntriesKept r s entries

  abbrev pub SettledAfter : Progress → Disk → Type 0
  SettledAfter p d = Settled p.measured p.entries

  -- As many rounds as there are entries are enough.
  evict-Settled :
      (fuel : ℕ) (p : Progress) (d : Disk)
      → length p.entries ≤ fuel
      → Ends SettledAfter (evict r fuel p d)
  unfolding evict
  evict-Settled zero p d h =
      done p d (inr (victim-none r p.measured p.entries (none_of_empty p.entries h)))
    where
      none_of_empty :
          (entries : Map CacheIndexEntry) → length entries ≤ 0 → victim r p.measured entries ≡ none
      none_of_empty [] h = unfold victim in refl
      none_of_empty (e ∷ entries) h = absurd (omega arith)
  evict-Settled (suc fuel) p d h =
      elim (Bool-cases (within_caps r.config.max_bytes r.config.max_files p.measured)) [
        | inl within ↦ rw (within, evict) (done p d (inl (ground arith, ground arith)))
        | inr over ↦ elim (Option-cases (victim r p.measured p.entries)) [
          | inl nothing ↦
              rw (over, evict, nothing)
                (done p d (inr (victim-none r p.measured p.entries nothing)))
          | inr ((digest, entry, file), found) ↦
              let chosen = victim-candidate r p.measured p.entries digest entry file found in
              let path = content_path r.root digest entry.ext in
              rw (over, evict, found)
                (Ends-bind SettledAfter _ (remove_file path d) (λ _ d' _.
                  evict-Settled fuel
                    (record (drop_file r path file p) { entries = remove digest p.entries }) d'
                    (omega (arith, length-remove-lt digest p.entries chosen.1))))
        ]
      ]

  abbrev AllDone : Progress × Progress × ℕ → Disk → Type 0
  AllDone (reclaimed, evicted, cleaned) d = SettledAfter evicted d × InStep r evicted d

  remove_all-AllDone :
      (measured : Survey) (c : Reconciled) (d : Disk)
      → Agrees (images_dir r.root) measured d.files
      → Ends AllDone (remove_all r measured c d)
  unfolding remove_all
  remove_all-AllDone measured c d v = Ends-bind AllDone _ (reclaim r _ _ d) λ reclaimed d1 e1.
      let v1 = Ends-at (InStep r) reclaimed d1 (reclaim-InStep r _ _ d v) e1 in
      Ends-bind AllDone _ (list_stale r d1) λ parts d2 e2.
        let v2 = Ends-at _ parts d2 (list_stale-InStep r reclaimed.measured d1 v1) e2 in
        Ends-bind AllDone _ (clean r parts _ d2) λ (cleaned, freed) d3 e3.
          let v3 =
            Ends-at _ (cleaned, freed) d3 (clean-InStep r parts _ reclaimed.measured d2 v2.0 v2.1)
              e3 in
          Ends-bind AllDone _ (evict r _ _ d3) λ evicted d4 e4. done _ d4 (
            Ends-at SettledAfter evicted d4 (evict-Settled (length c.entries) _ d3 (omega arith))
                e4,
            Ends-at (InStep r) evicted d4 (evict-InStep r _ _ d3 v3) e4,
          )

  EntriesKept-same :
      (s s' : Survey) (entries : Map CacheIndexEntry) (pins : List Text)
      → ((q : Text) → get q s.cached ≡ get q s'.cached)
      → EntriesKept r s entries
      → EntriesKept r s' (refresh_pins pins entries)
  unfolding refresh_pins
  EntriesKept-same s s' [] pins same h = tt
  EntriesKept-same s s' ((digest, entry) ∷ rest) pins same h = (
    λ file there. h.0 file (same (content_path r.root digest entry.ext) ∙ there),
    EntriesKept-same s s' rest pins same h.1,
  )

  -- What a sweep reports and leaves: the totals of the files below `sha256/`, and a cache within both
  -- caps or an index each of whose files a rule keeps.
  pub record Rests (s : Swept) (d : Disk) : Type 0 where
    pub index : IndexFile
    pub written : d.index ≡ present index
    pub files_left : s.files ≡ count (images_dir r.root) d.files
    pub bytes_left : s.bytes ≡ total (images_dir r.root) d.files
    pub settled :
        ((s.bytes ≤ r.config.max_bytes) × (s.files ≤ r.config.max_files))
        ⊎ EntriesKept r (walk (images_dir r.root) d.files empty) index.entries

  survey-walk :
      (d d' : Disk) (measured : Survey)
      → survey r.root d ≡ (ok measured, d')
      → (measured ≡ walk (images_dir r.root) d.files empty) × (d'.files ≡ d.files)
  unfolding survey
  survey-walk d d' measured h = ground arith

  -- The account at the end of the removals, read off the disk and the index that are left.
  settled_Rests :
      (s : Swept) (pins : List Text) (index : IndexFile) (p : Progress) (d3 d4 : Disk)
      → s.files ≡ p.measured.files
      → s.bytes ≡ p.measured.bytes
      → index.entries ≡ refresh_pins pins p.entries
      → d4.index ≡ present index
      → d4.files ≡ d3.files
      → SettledAfter p d3
      → InStep r p d3
      → Rests s d4
  settled_Rests s pins index p d3 d4 f b entries written same settled agrees = record {
    index = index;
    written = written;
    files_left = f ∙ agrees.counted ∙ ap (count (images_dir r.root)) (sym same);
    bytes_left = b ∙ agrees.summed ∙ ap (total (images_dir r.root)) (sym same);
    settled = elim settled [
      | inl (b', f') ↦ inl (omega arith, omega arith)
      | inr kept ↦ inr (of_kept d4.files same index.entries entries kept)
    ];
  }
    where
      of_kept :
          (files : Map Metadata)
          → files ≡ d3.files
          → (entries' : Map CacheIndexEntry) → entries' ≡ refresh_pins pins p.entries
          → EntriesKept r p.measured p.entries
          → EntriesKept r (walk (images_dir r.root) files empty) entries'
      of_kept files same' entries' e kept =
          let fresh = walk-Agrees (images_dir r.root) d3.files agrees.distinct in
          let kept' =
            EntriesKept-same p.measured (walk (images_dir r.root) d3.files empty) p.entries pins
              (λ q. agrees.holds q ∙ sym (fresh.holds q)) kept in
          rw (same', e) kept'

  finished_index-entries :
      (minted : Text) (index : IndexFile) (dangling : List Text) (entries : Map CacheIndexEntry)
      → (finished_index r minted index dangling entries).entries
        ≡ refresh_pins r.protected.pinned_digests entries
  unfolding finished_index
  finished_index-entries minted index dangling entries = refl

  sweep-Rests : (minted : Text) (d : Disk) → Distinct d.files → Ends Rests (sweep r minted d)
  unfolding sweep
  sweep-Rests minted d h = Ends-bind Rests _ (load r.now d) λ index d1 e1.
      Ends-bind Rests _ (survey r.root d1) λ measured d2 e2.
        let found = survey-walk d1 d2 measured e2 in
        let same = found.1 ∙ ap (λ d. d.files) (load_same r.now d d1 index e1) in
        let agrees =
          subst (λ m. Agrees (images_dir r.root) m d2.files) (sym found.0)
            (subst (Agrees (images_dir r.root) _) (sym found.1) (
              walk-Agrees (images_dir r.root) d1.files
                (subst Distinct (sym (ap (λ d. d.files) (load_same r.now d d1 index e1))) h))) in
        let c = reconcile r.root measured.cached index.entries in
        Ends-bind Rests _ (remove_all r measured c d2) λ removed d3 e3.
          let all_done = Ends-at AllDone removed d3 (remove_all-AllDone measured c d2 agrees) e3 in
          Ends-bind Rests _ (write _ d3) λ u d4 e4.
            let after = write-index _ d3 d4 u e4 in
            done _ d4 (
              settled_Rests _ _ _ removed.1 d3 d4 refl refl
                (finished_index-entries minted index c.dangling removed.1.entries) after.0 after.1
                all_done.0 all_done.1)

  -- A sweep that does not fail reports exactly the files and bytes that are then below `sha256/`, and has
  -- written an index; and either both caps hold, or every file of that index that is still there is
  -- kept by a rule. No path stands twice in the list of the disk's files before the sweep.
  pub sweep_settles :
      (minted : Text) (d d' : Disk) (s : Swept)
      → Distinct d.files
      → sweep r minted d ≡ (ok s, d')
      → Rests s d'
  sweep_settles minted d d' s h e = Ends-at Rests s d' (sweep-Rests minted d h) e
