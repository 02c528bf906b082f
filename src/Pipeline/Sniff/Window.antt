-- ===== src/Pipeline/Sniff/Window.antt =====
-- What the four sniffers say together: `sniffed`, `sniff` and `head_window`.
use whirl.Prelude.{ℕ, ◌*◌, Option, none, some, Text, ltb, length, if◌then◌else◌}
use whirl.Pipeline.Sniff.{
  Run, done, ◌>>=◌, Header, Sniffed, measured, beyond_window, not_an_image, sniff_png, sniff_jpeg,
  sniff_webp, is_heic,
}
use whirl.Pipeline.Sniff.Heic.{sniff_heic}

abbrev pub head_window_bytes : ℕ
head_window_bytes = 1_024

abbrev pub wide_window_bytes : ℕ
wide_window_bytes = 64 * 1_024

unfoldable pub or_not_an_image : Option Header → Sniffed
or_not_an_image none = not_an_image
or_not_an_image (some h) = measured h

-- The last two sniffers, which are asked where the bytes are neither a PNG nor a JPEG.
unfoldable pub boxed : Text → Run Sniffed
unfolding sniff_webp sniff_heic or_not_an_image
boxed bytes = sniff_webp bytes >>= λ webp. elim webp [
  | some h ↦ done (measured h)
  | none ↦ sniff_heic bytes >>= λ heic. done (or_not_an_image heic)
]

unfoldable pub after_png : Text → Option Header → Run Sniffed
unfolding sniff_jpeg boxed
after_png bytes (some h) = done (measured h)
after_png bytes none = sniff_jpeg bytes >>= λ jpeg. elim jpeg [
  | measured h ↦ done (measured h)
  | beyond_window ↦ done beyond_window
  | not_an_image ↦ boxed bytes
]

unfoldable pub sniffed : Text → Run Sniffed
unfolding sniff_png after_png
sniffed bytes = sniff_png bytes >>= λ png. after_png bytes png

abbrev header_of : Sniffed → Option Header
header_of (measured h) = some h
header_of beyond_window = none
header_of not_an_image = none

unfoldable pub sniff : Text → Run (Option Header)
unfolding sniffed
sniff bytes = sniffed bytes >>= λ answer. done (header_of answer)

unfoldable pub window_for : Text → Sniffed → Run ℕ
unfolding is_heic
window_for head (measured h) = done head_window_bytes
window_for head beyond_window = done wide_window_bytes
window_for head not_an_image =
    is_heic head >>= λ branded. done (if branded then wide_window_bytes else head_window_bytes)

unfoldable pub head_window : Text → Run ℕ
unfolding sniffed window_for
head_window head =
    if ltb (length head) head_window_bytes
    then done head_window_bytes
    else (sniffed head >>= λ answer. window_for head answer)
