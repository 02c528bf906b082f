-- ===== src/Tests/Sniff.antt =====
-- A JPEG of 32 by 16, and a HEIC whose only property is an `ispe` of 3 by 2.
use whirl.Prelude.{
  ℕ, ◌≡◌, refl, [], ◌∷◌, true, Text, codes, ltb, text_eq, All, all, length, min, ◌++◌, arith,
}
use whirl.Pipeline.Sniff.{done, measured, header, turn}
use whirl.Pipeline.Sniff.Ends.{Ends, IsByte, SniffedFits}
use whirl.Pipeline.Sniff.Boxes.{boxes, boxes_from, box_at, ispe_size}
use whirl.Pipeline.Sniff.Nesting.{Chain, boxes-Chain}
use whirl.Pipeline.Sniff.Window.{sniffed, head_window}
use whirl.Pipeline.Sniff.Total.{IsWindow, sniffed-Ends}

abbrev jpeg : Text
jpeg = 0xff ∷ 0xd8 ∷ 0xff ∷ 0xc0 ∷ 0 ∷ 17 ∷ 8 ∷ 0 ∷ 16 ∷ 0 ∷ 32 ∷ 3 ∷ []

abbrev sized : ℕ → Text → Text
sized n rest = 0 ∷ 0 ∷ 0 ∷ n ∷ rest

abbrev ispe : Text
ispe = sized 20 (codes "ispe") ++ sized 0 (sized 3 (sized 2 []))

abbrev heic : Text
heic =
    sized 16 (codes "ftypheic")
    ++ sized 0 []
    ++ (sized 48 (codes "meta") ++ sized 0 [])
    ++ (sized 36 (codes "iprp") ++ (sized 28 (codes "ipco") ++ ispe))

jpeg_measured : sniffed jpeg ≡ done (measured (header (codes "jpg") 32 16))
unfolding sniffed turn
jpeg_measured = refl

heic_measured : sniffed heic ≡ done (measured (header (codes "heic") 3 2))
unfolding sniffed text_eq boxes_from box_at ispe_size
heic_measured = refl

is_bytes : (bytes : Text) → all (λ b. ltb b 256) bytes ≡ true → All IsByte bytes
is_bytes [] e = tt
is_bytes (b ∷ bytes) e = (ground arith, is_bytes bytes (ground arith))

sniffed-Ends_example : Ends SniffedFits (sniffed jpeg) × Ends IsWindow (head_window jpeg)
sniffed-Ends_example = sniffed-Ends jpeg (is_bytes jpeg refl)

boxes-Chain_example : Ends (Chain 0 (min 64 (length heic))) (boxes heic 0 64)
boxes-Chain_example = boxes-Chain heic 0 64 (is_bytes heic refl)
