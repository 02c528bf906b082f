-- ===== src/Pipeline/Sniff.antt =====
-- `sniff_png`, `sniff_jpeg`, `sniff_webp` and `is_heic` on the first bytes of a file. An index out of
-- range is a panic, and a loop that has no fuel left is told from one that ends.
pub mod Ends
pub mod Jpeg
pub mod Boxes
pub mod Items
pub mod Heic
pub mod Window
pub mod Nesting
pub mod Dimensions
pub mod Total
use whirl.Prelude.{
  ℕ, zero, suc, ◌+◌, ◌-◌, ◌*◌, ◌/◌, ◌%◌, ◌^◌, List, [], ◌∷◌, Bool, true, false, not, ◌&&◌, ◌||◌,
  Option, none, some, Text, codes, ltb, leb, ◌==◌, length, take, drop, get_elem?, text_eq,
  if◌then◌else◌,
}

pub data Run {ℓ} (A : Type ℓ) : Type ℓ where
  done : A → Run A
  panic spent : Run A

infixl 5 ◌>>=◌
abbrev pub ◌>>=◌ {ℓ κ} : {A : Type ℓ} {B : Type κ} → Run A → (A → Run B) → Run B
done a >>= f = f a
panic >>= f = panic
spent >>= f = spent

-- `bytes[i]` and `bytes[from..from + n]`.
unfoldable pub byte_at : Text → ℕ → Run ℕ
byte_at bytes i = elim (get_elem? bytes i) [ none ↦ panic | some b ↦ done b ]

unfoldable pub byte_range : Text → ℕ → ℕ → Run Text
byte_range bytes from n =
    if leb (from + n) (length bytes) then done (take n (drop from bytes)) else panic

pub record Header : Type 0 where
  pub ext : Text
  pub width : ℕ
  pub height : ℕ

pub data Sniffed : Type 0 where
  measured : Header → Sniffed
  beyond_window not_an_image : Sniffed

abbrev pub header : Text → ℕ → ℕ → Header
header ext width height = record { ext = ext; width = width; height = height }

abbrev pub be16 : ℕ → ℕ → ℕ
be16 hi lo = hi * 256 + lo

unfoldable pub be32 : Text → Option ℕ
be32 (a ∷ b ∷ c ∷ d ∷ _) = some (((a * 256 + b) * 256 + c) * 256 + d)
be32 _ = none

abbrev pub png_magic : Text
png_magic = 0x89 ∷ b'P' ∷ b'N' ∷ b'G' ∷ 0x0d ∷ 0x0a ∷ 0x1a ∷ 0x0a ∷ []

unfoldable pub png_header : Option ℕ → Option ℕ → Option Header
png_header (some width) (some height) = some (header (codes "png") width height)
png_header _ _ = none

unfoldable pub sniff_png : Text → Run (Option Header)
unfolding byte_range be32 png_header
sniff_png bytes = if ltb (length bytes) 24 then done none else do
  magic ← byte_range bytes 0 8
  if not (text_eq magic png_magic) then done none else do
    kind ← byte_range bytes 12 4
    if not (text_eq kind (codes "IHDR")) then done none else do
      width ← byte_range bytes 16 4
      height ← byte_range bytes 20 4
      done (png_header (be32 width) (be32 height))

-- What one turn of the walk over the segments does: it ends, or it goes on further in.
pub data Turn : Type 0 where
  stop : Sniffed → Turn
  go : ℕ → Turn

unfoldable pub is_standalone : ℕ → Bool
is_standalone marker = (marker == 0x01) || (leb 0xd0 marker && leb marker 0xd9)

unfoldable pub is_frame : ℕ → Bool
is_frame marker =
    leb 0xc0 marker
    && leb marker 0xcf
    && not ((marker == 0xc4) || (marker == 0xc8) || (marker == 0xcc))

unfoldable pub read_frame : Text → ℕ → Run Turn
unfolding byte_at
read_frame bytes at = do
  h1 ← byte_at bytes (at + 5)
  h2 ← byte_at bytes (at + 6)
  w1 ← byte_at bytes (at + 7)
  w2 ← byte_at bytes (at + 8)
  done (stop (measured (header (codes "jpg") (be16 w1 w2) (be16 h1 h2))))

unfoldable pub segment : Text → ℕ → ℕ → Run Turn
unfolding byte_at is_frame read_frame
segment bytes at marker = do
  hi ← byte_at bytes (at + 2)
  lo ← byte_at bytes (at + 3)
  if ltb (be16 hi lo) 2
      then done (stop not_an_image)
      else if is_frame marker && ltb (at + 9) (length bytes)
      then read_frame bytes at
      else done (go (at + (2 + be16 hi lo)))

unfoldable pub turn : Text → ℕ → Run Turn
unfolding byte_at is_standalone segment
turn bytes at = do
  b ← byte_at bytes at
  if not (b == 0xff) then done (stop not_an_image) else do
    marker ← byte_at bytes (at + 1)
    if marker == 0xff
        then done (go (at + 1))
        else if is_standalone marker
        then done (go (at + 2))
        else segment bytes at marker

-- `while at + 3 < bytes.len()`, on fuel.
unfoldable pub segments : ℕ → Text → ℕ → Run Sniffed
segments zero bytes at = spent
segments (suc fuel) bytes at = elim (ltb (at + 3) (length bytes)) [
  | false ↦ done beyond_window
  | true ↦ turn bytes at >>= λ t. elim t [
    | stop answer ↦ done answer
    | go next ↦ segments fuel bytes next
  ]
]

unfoldable pub sniff_jpeg : Text → Run Sniffed
unfolding byte_at segments
sniff_jpeg bytes = if ltb (length bytes) 4 then done not_an_image else do
  a ← byte_at bytes 0
  b ← byte_at bytes 1
  if not (a == 0xff) || not (b == 0xd8) then done not_an_image else segments (length bytes) bytes 2

abbrev pub le16 : ℕ → ℕ → ℕ
le16 lo hi = hi * 256 + lo

abbrev le24 : ℕ → ℕ → ℕ → ℕ
le24 lo mid hi = (hi * 256 + mid) * 256 + lo

-- `x & 0x3fff` and `x >> 14`.
abbrev low14 : ℕ → ℕ
low14 x = x % 2 ^ 14

abbrev past14 : ℕ → ℕ
past14 x = x / 2 ^ 14

abbrev webp : ℕ → ℕ → Option Header
webp width height = some (header (codes "webp") width height)

unfoldable pub lossy : Text → Run (Option Header)
unfolding byte_at byte_range
lossy bytes = do
  start ← byte_range bytes 23 3
  if not (text_eq start (0x9d ∷ 0x01 ∷ 0x2a ∷ [])) then done none else do
    w1 ← byte_at bytes 26
    w2 ← byte_at bytes 27
    h1 ← byte_at bytes 28
    h2 ← byte_at bytes 29
    done (webp (low14 (le16 w1 w2)) (low14 (le16 h1 h2)))

unfoldable pub lossless : Text → Run (Option Header)
unfolding byte_at
lossless bytes = do
  sign ← byte_at bytes 20
  if not (sign == 0x2f) then done none else do
    b1 ← byte_at bytes 21
    b2 ← byte_at bytes 22
    b3 ← byte_at bytes 23
    b4 ← byte_at bytes 24
    let bits = b4 * 2 ^ 24 + le24 b1 b2 b3
    done (webp (low14 bits + 1) (low14 (past14 bits) + 1))

unfoldable pub extended : Text → Run (Option Header)
unfolding byte_at
extended bytes = do
  w1 ← byte_at bytes 24
  w2 ← byte_at bytes 25
  w3 ← byte_at bytes 26
  h1 ← byte_at bytes 27
  h2 ← byte_at bytes 28
  h3 ← byte_at bytes 29
  done (webp (1 + le24 w1 w2 w3) (1 + le24 h1 h2 h3))

unfoldable pub sniff_webp : Text → Run (Option Header)
unfolding byte_range lossy lossless extended
sniff_webp bytes = if ltb (length bytes) 30 then done none else do
  riff ← byte_range bytes 0 4
  if not (text_eq riff (codes "RIFF")) then done none else do
    form ← byte_range bytes 8 4
    if not (text_eq form (codes "WEBP")) then done none else do
      kind ← byte_range bytes 12 4
      if text_eq kind (codes "VP8 ")
          then lossy bytes
          else if text_eq kind (codes "VP8L")
          then lossless bytes
          else if text_eq kind (codes "VP8X")
          then extended bytes
          else done none

unfoldable pub is_heic : Text → Run Bool
unfolding byte_range
is_heic bytes = if ltb (length bytes) 16 then done false else do
  box ← byte_range bytes 4 4
  if not (text_eq box (codes "ftyp")) then done false else do
    brand ← byte_range bytes 8 4
    done (
        (text_eq brand (codes "heic"))
        || (text_eq brand (codes "heix"))
        || (text_eq brand (codes "hevc"))
        || (text_eq brand (codes "hevx"))
        || (text_eq brand (codes "mif1"))
        || (text_eq brand (codes "msf1")))
