-- ===== src/Strings/Split.antt =====
-- `str::split`, `split_once`, `splitn` and `split_inclusive` at one ASCII byte.
use whirl.Prelude.{
  ℕ, zero, suc, ◌≡◌, refl, List, [], ◌∷◌, ◌++◌, Option, none, some, Text, Lacks, ◌==◌,
  if◌then◌else◌, arith, All, ◌≢◌, Bool-cases, Option-cases, inl, inr,
}

-- A byte in front of the first of the pieces.
unfoldable pub push_first : ℕ → List Text → List Text
push_first c [] = (c ∷ []) ∷ []
push_first c (p ∷ ps) = (c ∷ p) ∷ ps

unfoldable pub split : ℕ → Text → List Text
unfolding push_first
split b [] = [] ∷ []
split b (c ∷ s) = let rest = split b s in if c == b then [] ∷ rest else push_first c rest

unfoldable pub split_inclusive : ℕ → Text → List Text
unfolding push_first
split_inclusive b [] = []
split_inclusive b (c ∷ s) =
    let rest = split_inclusive b s in if c == b then (c ∷ []) ∷ rest else push_first c rest

unfoldable pub push_key : ℕ → Option (Text × Text) → Option (Text × Text)
push_key c none = none
push_key c (some (k, v)) = some (c ∷ k, v)

unfoldable pub split_once : ℕ → Text → Option (Text × Text)
unfolding push_key
split_once b [] = none
split_once b (c ∷ s) = let rest = split_once b s in if c == b then some ([], s) else push_key c rest

-- At most `n` pieces: the last is whatever is left.
unfoldable pub splitn : ℕ → ℕ → Text → List Text
unfolding split_once
splitn b zero s = []
splitn b (suc zero) s = s ∷ []
splitn b (suc (suc n)) s = elim (split_once b s) [
  | none ↦ s ∷ []
  | some (piece, rest) ↦ piece ∷ splitn b (suc n) rest
]

-- A text with no separator is one piece.
pub split_of-Lacks : (b : ℕ) (s : Text) → Lacks b s → split b s ≡ s ∷ []
unfolding split
split_of-Lacks b [] h = refl
split_of-Lacks b (c ∷ s) h = ground (arith, split_of-Lacks b s)

-- The first piece ends at the first separator.
pub split-append : (b : ℕ) (s t : Text) → Lacks b s → split b (s ++ b ∷ t) ≡ s ∷ split b t
unfolding split
split-append b [] t h = ground arith
split-append b (c ∷ s) t h = ground (arith, split-append b s t)

pub split_once-append : (b : ℕ) (s t : Text) → Lacks b s → split_once b (s ++ b ∷ t) ≡ some (s, t)
unfolding split_once
split_once-append b [] t h = ground arith
split_once-append b (c ∷ s) t h = ground (arith, split_once-append b s t)

pub split_once_of-Lacks : (b : ℕ) (s : Text) → Lacks b s → split_once b s ≡ none
unfolding split_once
split_once_of-Lacks b [] h = refl
split_once_of-Lacks b (c ∷ s) h = ground (arith, split_once_of-Lacks b s)

pub split_inclusive-append :
    (b : ℕ) (s t : Text)
    → Lacks b s
    → split_inclusive b (s ++ b ∷ t) ≡ (s ++ b ∷ []) ∷ split_inclusive b t
unfolding split_inclusive
split_inclusive-append b [] t h = ground arith
split_inclusive-append b (c ∷ s) t h = ground (arith, split_inclusive-append b s t)

-- What `split_once` finds: the text again, and no separator in its first part.
pub split_once-eq-some :
    (b : ℕ) (s k v : Text) → split_once b s ≡ some (k, v) → (s ≡ k ++ b ∷ v) × Lacks b k
unfolding split_once
split_once-eq-some b [] k v h = cc
split_once-eq-some b (c ∷ s) k v h = elim (Bool-cases (c == b)) [
  | inl same ↦ ground (arith)
  | inr other ↦ elim (Option-cases (split_once b s)) [
    | inl e ↦ ground (arith)
    | inr ((k', v'), e) ↦ ground (arith, split_once-eq-some b s k' v')
  ]
]

push_first-Lacks :
    (b c : ℕ) (ps : List Text) → c ≢ b → All (Lacks b) ps → All (Lacks b) (push_first c ps)
unfolding push_first
push_first-Lacks b c [] h hs = ((h, tt), tt)
push_first-Lacks b c (p ∷ ps) h hs = ((h, hs.0), hs.1)

-- None of the pieces holds the separator.
pub split-Lacks : (b : ℕ) (s : Text) → All (Lacks b) (split b s)
unfolding split
split-Lacks b [] = (tt, tt)
split-Lacks b (c ∷ s) = ground (arith, split-Lacks b s, push_first-Lacks b c (split b s))

-- Where `split_once` finds nothing, there is no separator.
pub split_once-eq-none : (b : ℕ) (s : Text) → split_once b s ≡ none → Lacks b s
unfolding split_once
split_once-eq-none b [] h = tt
split_once-eq-none b (c ∷ s) h = elim (Bool-cases (c == b)) [
  | inl same ↦ ground arith
  | inr other ↦ elim (Option-cases (split_once b s)) [
    | inl e ↦ (ground arith, split_once-eq-none b s e)
    | inr (p, e) ↦ ground arith
  ]
]

-- A piece before a separator is the first of at least two.
pub splitn-append :
    (b n : ℕ) (s rest : Text)
    → Lacks b s
    → splitn b (suc (suc n)) (s ++ b ∷ rest) ≡ s ∷ splitn b (suc n) rest
unfolding splitn
splitn-append b n s rest h = rw (split_once-append b s rest h, splitn) refl
