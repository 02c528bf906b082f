-- ===== src/Pipeline/Sniff/Ends.antt =====
-- Runs that end with an answer: no panic, and no loop cut off.
use whirl.Prelude.{
  ℕ, zero, suc, ◌+◌, ◌^◌, ◌≤◌, ◌<◌, ◌≡◌, refl, [], ◌∷◌, Bool, true, false, Option, none, some, Text,
  le→leb, All, length, take, drop, get_elem?, if◌then◌else◌, arith, not, ltb, text_eq, codes, ◌∷◌,
}
use whirl.Pipeline.Sniff.{
  be32, is_heic, Run, done, ◌>>=◌, byte_at, byte_range, Header, Sniffed, measured, beyond_window,
  not_an_image,
}

module _ {A : Type 0} where
  -- The run ends with an answer that meets the condition.
  pub data Ends (P : A → Type 0) : Run A → Type 0 where
    ends : (a : A) → P a → Ends P (done a)

  abbrev pub Any : A → Type 0
  Any a = Unit

abbrev pub IsByte : ℕ → Type 0
IsByte b = b < 256

-- The dimensions are numbers of 32 bits.
abbrev pub Fits : Header → Type 0
Fits h = (h.width < 2 ^ 32) × (h.height < 2 ^ 32)

abbrev pub SniffedFits : Sniffed → Type 0
SniffedFits (measured h) = Fits h
SniffedFits beyond_window = Unit
SniffedFits not_an_image = Unit

abbrev pub OptionFits : Option Header → Type 0
OptionFits none = Unit
OptionFits (some h) = Fits h

pub Ends-bind :
    {A B : Type 0} (P : A → Type 0) (Q : B → Type 0) (m : Run A) (f : A → Run B)
    → Ends P m
    → ((a : A) → P a → Ends Q (f a))
    → Ends Q (m >>= f)
Ends-bind P Q m f (ends a h) next = next a h

pub Ends-map :
    {A : Type 0} (P Q : A → Type 0) (m : Run A) → ((a : A) → P a → Q a) → Ends P m → Ends Q m
Ends-map P Q m f (ends a h) = ends a (f a h)

pub if-Ends :
    {A : Type 0} (P : A → Type 0) (b : Bool) (x y : Run A)
    → (b ≡ true → Ends P x)
    → (b ≡ false → Ends P y)
    → Ends P (if b then x else y)
if-Ends P true x y hx hy = hx refl
if-Ends P false x y hx hy = hy refl

pub if-both :
    {A : Type 0} (P : A → Type 0) (b : Bool) (x y : A) → P x → P y → P (if b then x else y)
if-both P true x y hx hy = hx
if-both P false x y hx hy = hy

All-take : (n : ℕ) (bytes : Text) → All IsByte bytes → All IsByte (take n bytes)
All-take zero bytes h = tt
All-take (suc n) [] h = tt
All-take (suc n) (b ∷ bytes) h = (h.0, All-take n bytes h.1)

All-drop : (n : ℕ) (bytes : Text) → All IsByte bytes → All IsByte (drop n bytes)
All-drop zero bytes h = h
All-drop (suc n) [] h = tt
All-drop (suc n) (b ∷ bytes) h = All-drop n bytes h.1

get_elem?-IsByte :
    (bytes : Text) (i : ℕ)
    → All IsByte bytes
    → i < length bytes
    → (b : ℕ) × (get_elem? bytes i ≡ some b) × (b < 256)
get_elem?-IsByte [] i all h = absurd (omega arith)
get_elem?-IsByte (b ∷ bytes) zero all h = (b, refl, all.0)
get_elem?-IsByte (b ∷ bytes) (suc i) all h = get_elem?-IsByte bytes i all.1 (omega arith)

module _ (bytes : Text) (all : All IsByte bytes) where
  pub byte_at-Ends : (i : ℕ) → i < length bytes → Ends IsByte (byte_at bytes i)
  unfolding byte_at
  byte_at-Ends i h =
      let (b, e, small) = get_elem?-IsByte bytes i all h in rw (e, byte_at) (ends b small)

  pub byte_range-Ends :
      (from n : ℕ) → from + n ≤ length bytes → Ends (All IsByte) (byte_range bytes from n)
  unfolding byte_range
  byte_range-Ends from n h =
      rw (le→leb _ _ h, byte_range)
        (ends _ (All-take n (drop from bytes) (All-drop from bytes all)))

  pub next :
      {A : Type 0} (P : A → Type 0) (i : ℕ) (f : ℕ → Run A)
      → i < length bytes
      → ((b : ℕ) → b < 256 → Ends P (f b))
      → Ends P (byte_at bytes i >>= f)
  next P i f h rest = Ends-bind IsByte P (byte_at bytes i) f (byte_at-Ends i h) rest

  pub next_slice :
      {A : Type 0} (P : A → Type 0) (from n : ℕ) (f : Text → Run A)
      → from + n ≤ length bytes
      → ((part : Text) → All IsByte part → Ends P (f part))
      → Ends P (byte_range bytes from n >>= f)
  next_slice P from n f h rest =
      Ends-bind (All IsByte) P (byte_range bytes from n) f (byte_range-Ends from n h) rest

abbrev pub Word : Option ℕ → Type 0
Word none = Unit
Word (some w) = w < 2 ^ 32

pub be32-Word : (part : Text) → All IsByte part → Word (be32 part)
unfolding be32
be32-Word (a ∷ b ∷ c ∷ d ∷ rest) h =
    let (ha, more) = h in
    let (hb, rest_two) = more in omega (arith, ha, hb, rest_two.0, rest_two.1.0)
be32-Word (a ∷ b ∷ c ∷ []) h = tt
be32-Word (a ∷ b ∷ []) h = tt
be32-Word (a ∷ []) h = tt
be32-Word [] h = tt

pub is_heic-Ends : (bytes : Text) (all : All IsByte bytes) → Ends (Any {A = Bool}) (is_heic bytes)
unfolding is_heic
is_heic-Ends bytes all =
    if-Ends Any (ltb (length bytes) 16) _ _ (λ e. ends _ tt)
      λ e. next_slice bytes all Any 4 4 _ (ground arith) λ box b1.
        if-Ends Any (not (text_eq box (codes "ftyp"))) _ _ (λ f. ends _ tt)
          λ f. next_slice bytes all Any 8 4 _ (ground arith) λ brand b2. ends _ tt
