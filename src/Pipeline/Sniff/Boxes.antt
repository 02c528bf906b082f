-- ===== src/Pipeline/Sniff/Boxes.antt =====
-- The walk over the boxes of a HEIC, and the dimensions that a box `ispe` holds.
use whirl.Prelude.{
  ℕ, zero, suc, ◌+◌, ◌-◌, ◌*◌, ◌^◌, List, [], ◌∷◌, Bool, true, false, not, ◌||◌, Option, none, some,
  Text, ltb, leb, ◌==◌, length, take, drop, min, text_eq, if◌then◌else◌,
}
use whirl.Pipeline.Sniff.{Run, done, spent, ◌>>=◌, byte_at, byte_range, be32}

pub record BoxHeader : Type 0 where
  pub kind : Text
  pub payload : ℕ
  pub end : ℕ

-- `bytes.get(from..from + n)`.
unfoldable pub get_range : Text → ℕ → ℕ → Option Text
get_range bytes from n =
    if leb (from + n) (length bytes) then some (take n (drop from bytes)) else none

unfoldable pub be64_from : ℕ → ℕ → Text → Option ℕ
be64_from zero out bytes = some out
be64_from (suc n) out (b ∷ bytes) = be64_from n (out * 256 + b) bytes
be64_from (suc n) out [] = none

abbrev pub be64 : Text → Option ℕ
be64 bytes = be64_from 8 0 bytes

abbrev pub unwrap_or_zero : Option ℕ → ℕ
unwrap_or_zero none = 0
unwrap_or_zero (some n) = n

unfoldable pub large_size : Option Text → Option (ℕ × ℕ)
unfolding be64_from
large_size none = none
large_size (some field) = elim (be64 field) [ none ↦ none | some large ↦ some (large, 16) ]

-- The size that the box at `at` declares and the length of its header, or none where the walk breaks.
unfoldable pub declared_size : Text → ℕ → ℕ → ℕ → Option (ℕ × ℕ)
unfolding get_range large_size
declared_size bytes at end declared =
    if declared == 1
    then large_size (get_range bytes (at + 8) 8)
    else if declared == 0
    then some (end - at, 8)
    else some (declared, 8)

unfoldable pub box_of : Text → ℕ → ℕ → Option (ℕ × ℕ) → Run (Option BoxHeader)
unfolding byte_at
box_of bytes at end none = done none
box_of bytes at end (some (size, head)) =
    if not (ltb (at + size) (2 ^ 64))
    then done none
    else if (ltb size head) || (ltb end (at + size))
    then done none
    else do
      k0 ← byte_at bytes (at + 4)
      k1 ← byte_at bytes (at + 5)
      k2 ← byte_at bytes (at + 6)
      k3 ← byte_at bytes (at + 7)
      done (some (record { kind = k0 ∷ k1 ∷ k2 ∷ k3 ∷ []; payload = at + head; end = at + size }))

unfoldable pub box_at : Text → ℕ → ℕ → Run (Option BoxHeader)
unfolding byte_range be32 declared_size box_of
box_at bytes at end = do
  field ← byte_range bytes at 4
  box_of bytes at end (declared_size bytes at end (unwrap_or_zero (be32 field)))

-- `while at + 8 <= end`, on fuel.
unfoldable pub boxes_from : ℕ → Text → ℕ → ℕ → Run (List BoxHeader)
boxes_from zero bytes at end = spent
boxes_from (suc fuel) bytes at end = elim (leb (at + 8) end) [
  | false ↦ done []
  | true ↦ box_at bytes at end >>= λ found. elim found [
    | none ↦ done []
    | some b ↦ boxes_from fuel bytes b.end end >>= λ rest. done (b ∷ rest)
  ]
]

abbrev pub boxes : Text → ℕ → ℕ → Run (List BoxHeader)
boxes bytes from to = boxes_from (suc (length bytes)) bytes from (min to (length bytes))

unfoldable pub is_kind : Text → BoxHeader → Bool
is_kind kind b = text_eq b.kind kind

unfoldable pub find_box : Text → List BoxHeader → Option BoxHeader
unfolding is_kind
find_box kind [] = none
find_box kind (b ∷ found) = if is_kind kind b then some b else find_box kind found

unfoldable pub size_of : Option ℕ → Option ℕ → Option (ℕ × ℕ)
size_of (some width) (some height) = some (width, height)
size_of _ _ = none

unfoldable pub ispe_size : Text → BoxHeader → Run (Option (ℕ × ℕ))
unfolding byte_range be32 size_of
ispe_size bytes found = if ltb found.end (found.payload + 4 + 8) then done none else do
  width ← byte_range bytes (found.payload + 4) 4
  height ← byte_range bytes (found.payload + 4 + 4) 4
  done (size_of (be32 width) (be32 height))
