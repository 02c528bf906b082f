-- ===== src/Pipeline/Sniff/Nesting.antt =====
-- The boxes of a range stand in it one after the other.
use whirl.Prelude.{
  ℕ, zero, suc, ◌+◌, ◌-◌, ◌^◌, ◌≤◌, ◌<◌, ◌≡◌, ◌⊎◌, refl, List, [], ◌∷◌, not, ◌||◌, Option, none,
  some, Text, ltb, leb, leb→le, ◌==◌, All, length, min, Bool-cases, Option-cases, inl, inr, arith,
}
use whirl.Pipeline.Sniff.{Run, done, ◌>>=◌, be32}
use whirl.Pipeline.Sniff.Ends.{Ends, ends, IsByte, Ends-bind, if-both, if-Ends, next, next_slice}
use whirl.Pipeline.Sniff.Boxes.{
  BoxHeader, be64, get_range, large_size, unwrap_or_zero, declared_size, box_of, box_at, boxes_from,
  boxes,
}

-- Each box starts where the one before it ends, holds its own header, and ends within the range.
abbrev pub Chain : ℕ → ℕ → List BoxHeader → Type 0
Chain at end [] = Unit
Chain at end (b ∷ found) =
    ((b.payload ≡ at + 8) ⊎ (b.payload ≡ at + 16))
    × (b.payload ≤ b.end)
    × (b.end ≤ end)
    × (b.end < 2 ^ 64)
    × Chain b.end end found

abbrev Inside : ℕ → ℕ → Option BoxHeader → Type 0
Inside at end none = Unit
Inside at end (some b) =
    ((b.payload ≡ at + 8) ⊎ (b.payload ≡ at + 16))
    × (b.payload ≤ b.end)
    × (b.end ≤ end)
    × (b.end < 2 ^ 64)

abbrev Headed : Option (ℕ × ℕ) → Type 0
Headed none = Unit
Headed (some (size, head)) = (head ≡ 8) ⊎ (head ≡ 16)

large_size-Headed : (field : Option Text) → Headed (large_size field)
unfolding large_size
large_size-Headed none = tt
large_size-Headed (some field) = elim (Option-cases (be64 field)) [
  | inl e ↦ rw (e, large_size) tt
  | inr (large, e) ↦ rw (e, large_size) (inr refl)
]

follow_box :
    (at end : ℕ) (k : ℕ → Run (List BoxHeader)) (found : Option BoxHeader)
    → Inside at end found
    → ((on : ℕ) → at + 8 ≤ on → Ends (Chain on end) (k on))
    → Ends
        (Chain at end)
        (elim found [ none ↦ done [] | some b ↦ k b.end >>= λ rest. done (b ∷ rest) ])
follow_box at end k none h rest = ends [] tt
follow_box at end k (some b) (head, fits, under, small) rest =
    Ends-bind (Chain b.end end) (Chain at end) (k b.end) _ (rest b.end (omega arith))
      λ found chain. ends _ (head, fits, under, small, chain)

module _ (bytes : Text) (all : All IsByte bytes) (end : ℕ) (inside : end ≤ length bytes) where
  declared_size-Headed : (at declared : ℕ) → Headed (declared_size bytes at end declared)
  unfolding declared_size
  declared_size-Headed at declared =
      if-both Headed (declared == 1) _ _ (large_size-Headed (get_range bytes (at + 8) 8))
        (if-both Headed (declared == 0) _ _ (inl refl) (inl refl))

  box_of-Ends :
      (at : ℕ) (sized : Option (ℕ × ℕ))
      → at + 8 ≤ end
      → Headed sized
      → Ends (Inside at end) (box_of bytes at end sized)
  unfolding box_of
  box_of-Ends at none h headed = ends none tt
  box_of-Ends at (some (size, head)) h headed =
      if-Ends (Inside at end) (not (ltb (at + size) (2 ^ 64))) _ _ (λ e. ends none tt)
        λ e.
          if-Ends (Inside at end) ((ltb size head) || (ltb end (at + size))) _ _ (λ f. ends none tt)
            λ f. next bytes all (Inside at end) (at + 4) _ (omega arith) λ k0 b0.
              next bytes all (Inside at end) (at + 5) _ (omega arith) λ k1 b1.
                next bytes all (Inside at end) (at + 6) _ (omega arith) λ k2 b2.
                  next bytes all (Inside at end) (at + 7) _ (omega arith)
                    λ k3 b3. ends _ (ground arith, ground arith, ground arith, ground arith)

  box_at-Ends : (at : ℕ) → at + 8 ≤ end → Ends (Inside at end) (box_at bytes at end)
  unfolding box_at
  box_at-Ends at h =
      next_slice bytes all (Inside at end) at 4 _ (omega arith)
        λ field b. box_of-Ends at _ h (declared_size-Headed at (unwrap_or_zero (be32 field)))

  boxes_from-Ends :
      (fuel at : ℕ) → end - at < fuel → Ends (Chain at end) (boxes_from fuel bytes at end)
  unfolding boxes_from
  boxes_from-Ends zero at h = absurd (omega arith)
  boxes_from-Ends (suc fuel) at h = elim (Bool-cases (leb (at + 8) end)) [
    | inr e ↦ rw (e, boxes_from) (ends [] tt)
    | inl e ↦
        let room = leb→le _ _ e in
        rw (e, boxes_from)
          (Ends-bind (Inside at end) (Chain at end) (box_at bytes at end) _ (box_at-Ends at room)
            λ found h2.
              follow_box at end (λ on. boxes_from fuel bytes on end) found h2
                λ on far. boxes_from-Ends fuel on (omega arith))
  ]

-- The boxes of a range of the bytes: the walk ends, whatever the sizes in the file say, and each box it
-- finds starts where the one before it ends, holds its own header, and ends within the range and the
-- bytes.
pub boxes-Chain :
    (bytes : Text) (from to : ℕ)
    → All IsByte bytes
    → Ends (Chain from (min to (length bytes))) (boxes bytes from to)
boxes-Chain bytes from to all =
    boxes_from-Ends bytes all (min to (length bytes)) (omega arith) (suc (length bytes)) from
      (omega arith)
