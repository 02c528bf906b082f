-- ===== src/Pipeline/Sniff/Total.antt =====
-- The sniffers on any bytes.
use whirl.Prelude.{
  ℕ, ◌≤◌, ◌≡◌, ◌⊎◌, inl, inr, refl, [], ◌∷◌, not, Option, none, some, Text, codes, ltb, ◌==◌, All,
  length, text_eq, arith,
}
use whirl.Pipeline.Sniff.{
  done, ◌>>=◌, Header, Sniffed, measured, beyond_window, not_an_image, png_magic, png_header,
  sniff_png, sniff_jpeg, lossy, lossless, extended, sniff_webp, is_heic,
}
use whirl.Pipeline.Sniff.Ends.{
  Ends, ends, SniffedFits, OptionFits, Any, IsByte, Ends-bind, if-both, Word, be32-Word,
  is_heic-Ends, if-Ends, next, next_slice,
}
use whirl.Pipeline.Sniff.Window.{
  head_window_bytes, wide_window_bytes, or_not_an_image, boxed, after_png, sniffed, window_for,
  head_window,
}
use whirl.Pipeline.Sniff.Heic.{sniff_heic}
use whirl.Pipeline.Sniff.Dimensions.{sniff_heic-Ends}
use whirl.Pipeline.Sniff.Jpeg.{sniff_jpeg-Ends}

png_header-Fits :
    (width height : Option ℕ) → Word width → Word height → OptionFits (png_header width height)
unfolding png_header
png_header-Fits (some w) (some h) hw hh = (hw, hh)
png_header-Fits (some w) none hw hh = tt
png_header-Fits none height hw hh = tt

or_not_an_image-Fits : (h : Option Header) → OptionFits h → SniffedFits (or_not_an_image h)
unfolding or_not_an_image
or_not_an_image-Fits none fits = tt
or_not_an_image-Fits (some h) fits = fits

abbrev pub IsWindow : ℕ → Type 0
IsWindow w = (w ≡ head_window_bytes) ⊎ (w ≡ wide_window_bytes)

module _ (bytes : Text) (all : All IsByte bytes) where
  sniff_png-Ends : Ends OptionFits (sniff_png bytes)
  unfolding sniff_png
  sniff_png-Ends =
      if-Ends OptionFits (ltb (length bytes) 24) _ _ (λ e. ends none tt)
        λ e. next_slice bytes all OptionFits 0 8 _ (ground arith) λ magic b1.
          if-Ends OptionFits (not (text_eq magic png_magic)) _ _ (λ f. ends none tt)
            λ f. next_slice bytes all OptionFits 12 4 _ (ground arith) λ kind b2.
              if-Ends OptionFits (not (text_eq kind (codes "IHDR"))) _ _ (λ g. ends none tt)
                λ g. next_slice bytes all OptionFits 16 4 _ (ground arith) λ width b3.
                  next_slice bytes all OptionFits 20 4 _ (ground arith) λ height b4.
                    ends _ (png_header-Fits _ _ (be32-Word width b3) (be32-Word height b4))

  lossy-Ends : 30 ≤ length bytes → Ends OptionFits (lossy bytes)
  unfolding lossy
  lossy-Ends h = next_slice bytes all OptionFits 23 3 _ (omega arith) λ start b1.
      if-Ends OptionFits (not (text_eq start (0x9d ∷ 0x01 ∷ 0x2a ∷ []))) _ _ (λ f. ends none tt)
        λ f. next bytes all OptionFits 26 _ (omega arith) λ w1 b2.
          next bytes all OptionFits 27 _ (omega arith) λ w2 b3.
            next bytes all OptionFits 28 _ (omega arith) λ h1 b4.
              next bytes all OptionFits 29 _ (omega arith)
                λ h2 b5. ends _ (omega arith, omega arith)

  lossless-Ends : 30 ≤ length bytes → Ends OptionFits (lossless bytes)
  unfolding lossless
  lossless-Ends h = next bytes all OptionFits 20 _ (omega arith) λ sign b0.
      if-Ends OptionFits (not (sign == 0x2f)) _ _ (λ f. ends none tt)
        λ f. next bytes all OptionFits 21 _ (omega arith) λ b1 s1.
          next bytes all OptionFits 22 _ (omega arith) λ b2 s2.
            next bytes all OptionFits 23 _ (omega arith) λ b3 s3.
              next bytes all OptionFits 24 _ (omega arith)
                λ b4 s4. ends _ (omega arith, omega arith)

  extended-Ends : 30 ≤ length bytes → Ends OptionFits (extended bytes)
  unfolding extended
  extended-Ends h = next bytes all OptionFits 24 _ (omega arith) λ w1 b1.
      next bytes all OptionFits 25 _ (omega arith) λ w2 b2.
        next bytes all OptionFits 26 _ (omega arith) λ w3 b3.
          next bytes all OptionFits 27 _ (omega arith) λ h1 b4.
            next bytes all OptionFits 28 _ (omega arith) λ h2 b5.
              next bytes all OptionFits 29 _ (omega arith)
                λ h3 b6. ends _ (omega arith, omega arith)

  sniff_webp-Ends : Ends OptionFits (sniff_webp bytes)
  unfolding sniff_webp
  sniff_webp-Ends =
      if-Ends OptionFits (ltb (length bytes) 30) _ _ (λ e. ends none tt)
        λ e. next_slice bytes all OptionFits 0 4 _ (ground arith) λ riff b1.
          if-Ends OptionFits (not (text_eq riff (codes "RIFF"))) _ _ (λ f. ends none tt)
            λ f. next_slice bytes all OptionFits 8 4 _ (ground arith) λ form b2.
              if-Ends OptionFits (not (text_eq form (codes "WEBP"))) _ _ (λ g. ends none tt)
                λ g. next_slice bytes all OptionFits 12 4 _ (ground arith) λ kind b3.
                  if-Ends OptionFits (text_eq kind (codes "VP8 ")) _ _
                    (λ i. lossy-Ends (ground arith))
                    λ i.
                      if-Ends OptionFits (text_eq kind (codes "VP8L")) _ _
                        (λ j. lossless-Ends (ground arith))
                        λ j.
                          if-Ends OptionFits (text_eq kind (codes "VP8X")) _ _
                            (λ k. extended-Ends (ground arith)) λ k. ends none tt

  follow_webp :
      (webp : Option Header)
      → OptionFits webp
      → Ends SniffedFits (elim webp [
        | some h ↦ done (measured h)
        | none ↦ sniff_heic bytes >>= λ heic. done (or_not_an_image heic)
      ])
  follow_webp (some h) fits = ends (measured h) fits
  follow_webp none fits =
      Ends-bind OptionFits SniffedFits (sniff_heic bytes) _ (sniff_heic-Ends bytes all)
        λ heic hh. ends _ (or_not_an_image-Fits heic hh)

  boxed-Ends : Ends SniffedFits (boxed bytes)
  unfolding boxed
  boxed-Ends =
      Ends-bind OptionFits SniffedFits (sniff_webp bytes) _ sniff_webp-Ends
        λ webp hw. follow_webp webp hw

  follow_jpeg :
      (jpeg : Sniffed)
      → SniffedFits jpeg
      → Ends SniffedFits (elim jpeg [
        | measured h ↦ done (measured h)
        | beyond_window ↦ done beyond_window
        | not_an_image ↦ boxed bytes
      ])
  follow_jpeg (measured h) fits = ends (measured h) fits
  follow_jpeg beyond_window fits = ends beyond_window tt
  follow_jpeg not_an_image fits = boxed-Ends

  after_png-Ends : (png : Option Header) → OptionFits png → Ends SniffedFits (after_png bytes png)
  unfolding after_png
  after_png-Ends (some h) fits = ends (measured h) fits
  after_png-Ends none fits =
      Ends-bind SniffedFits SniffedFits (sniff_jpeg bytes) _ (sniff_jpeg-Ends bytes all)
        λ jpeg hj. follow_jpeg jpeg hj

  sniffed-Fits : Ends SniffedFits (sniffed bytes)
  unfolding sniffed
  sniffed-Fits =
      Ends-bind OptionFits SniffedFits (sniff_png bytes) _ sniff_png-Ends
        λ png hp. after_png-Ends png hp

  window_for-Ends : (answer : Sniffed) → Ends IsWindow (window_for bytes answer)
  unfolding window_for
  window_for-Ends (measured h) = ends _ (inl refl)
  window_for-Ends beyond_window = ends _ (inr refl)
  window_for-Ends not_an_image =
      Ends-bind Any IsWindow (is_heic bytes) _ (is_heic-Ends bytes all)
        λ branded u. ends _ (if-both IsWindow branded _ _ (inr refl) (inl refl))

  head_window-IsWindow : Ends IsWindow (head_window bytes)
  unfolding head_window
  head_window-IsWindow =
      if-Ends IsWindow (ltb (length bytes) head_window_bytes) _ _ (λ e. ends _ (inl refl))
        λ e.
          Ends-bind SniffedFits IsWindow (sniffed bytes) _ sniffed-Fits
            λ answer h. window_for-Ends answer

-- Whatever bytes they are given, the four sniffers together end with an answer, and so does the choice
-- of the window: no index out of range and no loop cut off. The dimensions that they read are numbers
-- of 32 bits, and the window is the small one or the wide one.
pub sniffed-Ends :
    (bytes : Text)
    → All IsByte bytes
    → Ends SniffedFits (sniffed bytes) × Ends IsWindow (head_window bytes)
sniffed-Ends bytes all = (sniffed-Fits bytes all, head_window-IsWindow bytes all)
