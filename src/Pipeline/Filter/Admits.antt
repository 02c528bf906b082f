-- ===== src/Pipeline/Filter/Admits.antt =====
-- What a candidate must be to pass the five stages, apart from the code of their tests.
use whirl.Prelude.{
  ℕ, ◌≤◌, ◌<◌, ◌≡◌, ◌≢◌, List, [], ◌∷◌, ◌++◌, Bool, false, Option, none, some, Text, codes, All,
}
use whirl.Pipeline.Filter.{Seeking, SourceFloors, Limits, Platform, macos, extension_of}

-- The first section of a source, where it has one.
pub data Section (id : Text) : List SourceFloors → Option SourceFloors → Type 0 where
  absent : Section id [] none
  first : (c : SourceFloors) (cs : List SourceFloors) → c.id ≡ id → Section id (c ∷ cs) (some c)
  later :
      (c : SourceFloors) (cs : List SourceFloors) (own : Option SourceFloors)
      → c.id ≢ id
      → Section id cs own
      → Section id (c ∷ cs) own

-- The section's own setting, or the one of the whole configuration.
abbrev pub or_global : Option ℕ → ℕ → ℕ
or_global none global = global
or_global (some n) global = n

abbrev pub setting : Option SourceFloors → (SourceFloors → Option ℕ) → ℕ → ℕ
setting none field global = global
setting (some c) field global = or_global (field c) global

-- The types that can be set as a wallpaper.
pub data Settable (platform : Platform) : Text → Type 0 where
  jpg : Settable platform (codes "jpg")
  jpeg : Settable platform (codes "jpeg")
  png : Settable platform (codes "png")
  webp : Settable platform (codes "webp")
  heic : platform ≡ macos → Settable platform (codes "heic")
  heif : platform ≡ macos → Settable platform (codes "heif")

-- A candidate to which nothing that is known of it is an objection.
pub record Admits (config : Limits) (platform : Platform) (target : Option (ℕ → ℕ → Bool))
    (window : List Text) (s : Seeking) : Type 0 where
  pub own : Option SourceFloors
  pub section : Section s.source config.sources own
  pub wide :
      (w : ℕ) → s.candidate.width ≡ some w → setting own (λ c. c.min_width) config.min_width ≤ w
  pub tall :
      (h : ℕ) → s.candidate.height ≡ some h → setting own (λ c. c.min_height) config.min_height ≤ h
  pub in_ratio :
      (off : ℕ → ℕ → Bool) (w h : ℕ)
      → target ≡ some off
      → s.candidate.width ≡ some w
      → s.candidate.height ≡ some h
      → 0 < h
      → off w h ≡ false
  pub light :
      (n : ℕ) → s.candidate.bytes ≡ some n → n ≤ setting own (λ c. c.max_bytes) config.max_bytes
  pub typed : (ext : Text) → extension_of s.candidate.origin ≡ some ext → Settable platform ext
  pub fresh : All (λ key. (key ≢ s.source ++ b':' ∷ s.candidate.id) × (key ≢ s.candidate.id)) window

-- The members of a list that have a property, in their order.
pub data Sifted (P : Seeking → Type 0) : List Seeking → List Seeking → Type 0 where
  done : Sifted P [] []
  taken :
      {s : Seeking} {input kept : List Seeking}
      → P s
      → Sifted P input kept
      → Sifted P (s ∷ input) (s ∷ kept)
  left_out :
      {s : Seeking} {input kept : List Seeking}
      → ¬ P s
      → Sifted P input kept
      → Sifted P (s ∷ input) kept
