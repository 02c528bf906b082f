-- ===== src/Strings/Strip.antt =====
-- `str::strip_prefix`, and `strip_suffix` and `trim_end_matches` of one ASCII byte.
use whirl.Prelude.{
  ℕ, ◌≡◌, refl, Bool, false, [], ◌∷◌, ◌++◌, Option, none, some, Text, ◌==◌, ◌||◌, if◌then◌else◌,
  arith,
}

unfoldable pub strip_prefix : Text → Text → Option Text
strip_prefix [] s = some s
strip_prefix (a ∷ p) [] = none
strip_prefix (a ∷ p) (c ∷ s) = if c == a then strip_prefix p s else none

unfoldable pub contains : ℕ → Text → Bool
contains b [] = false
contains b (c ∷ s) = (c == b) || contains b s

unfoldable pub push_rest : ℕ → Option Text → Option Text
push_rest c none = none
push_rest c (some s) = some (c ∷ s)

unfoldable pub strip_suffix : ℕ → Text → Option Text
unfolding push_rest
strip_suffix b [] = none
strip_suffix b (c ∷ []) = if c == b then some [] else none
strip_suffix b (c ∷ d ∷ s) = push_rest c (strip_suffix b (d ∷ s))

-- `line.strip_suffix('\r').unwrap_or(line)`.
unfoldable pub strip_cr : Text → Text
unfolding strip_suffix
strip_cr s = elim (strip_suffix 13 s) [ none ↦ s | some t ↦ t ]

unfoldable pub trim_step : ℕ → ℕ → Text → Text
trim_step b c [] = if c == b then [] else c ∷ []
trim_step b c (d ∷ s) = c ∷ d ∷ s

unfoldable pub trim_end : ℕ → Text → Text
unfolding trim_step
trim_end b [] = []
trim_end b (c ∷ s) = trim_step b c (trim_end b s)

pub strip_prefix-append : (p s : Text) → strip_prefix p (p ++ s) ≡ some s
unfolding strip_prefix
strip_prefix-append [] s = refl
strip_prefix-append (a ∷ p) s = ground (arith, strip_prefix-append p s)

pub strip_suffix-append : (b : ℕ) (s : Text) → strip_suffix b (s ++ b ∷ []) ≡ some s
unfolding strip_suffix
strip_suffix-append b [] = ground arith
strip_suffix-append b (c ∷ []) = ground arith
strip_suffix-append b (c ∷ d ∷ s) = ground (arith, strip_suffix-append b (d ∷ s))

-- A text that does not end in the byte is left as it is.
pub trim_end_of_none : (b : ℕ) (s : Text) → strip_suffix b s ≡ none → trim_end b s ≡ s
unfolding strip_suffix trim_end
trim_end_of_none b [] h = refl
trim_end_of_none b (c ∷ []) h = ground arith
trim_end_of_none b (c ∷ d ∷ s) h = ground (arith, trim_end_of_none b (d ∷ s))

pub strip_cr_of_none : (s : Text) → strip_suffix 13 s ≡ none → strip_cr s ≡ s
unfolding strip_cr
strip_cr_of_none s h = rw (h, strip_cr)

push_rest-eq-none : (c : ℕ) (o : Option Text) → o ≡ none → push_rest c o ≡ none
unfolding push_rest
push_rest-eq-none c none h = refl
push_rest-eq-none c (some s) h = cc

strip_suffix-trim_step :
    (b c : ℕ) (t : Text) → strip_suffix b t ≡ none → strip_suffix b (trim_step b c t) ≡ none
unfolding strip_suffix trim_step
strip_suffix-trim_step b c [] h = ground arith
strip_suffix-trim_step b c (d ∷ t) h = push_rest-eq-none c _ h

-- A trimmed text does not end in the byte.
pub strip_suffix-trim_end : (b : ℕ) (s : Text) → strip_suffix b (trim_end b s) ≡ none
unfolding trim_end strip_suffix
strip_suffix-trim_end b [] = refl
strip_suffix-trim_end b (c ∷ s) =
    strip_suffix-trim_step b c (trim_end b s) (strip_suffix-trim_end b s)

-- The end of a text is the end of its last part.
pub strip_suffix-append_none :
    (b c : ℕ) (s t : Text) → strip_suffix b (c ∷ t) ≡ none → strip_suffix b (s ++ c ∷ t) ≡ none
unfolding strip_suffix
strip_suffix-append_none b c [] t h = h
strip_suffix-append_none b c (a ∷ []) t h = push_rest-eq-none a _ h
strip_suffix-append_none b c (a ∷ d ∷ s) t h =
    push_rest-eq-none a _ (strip_suffix-append_none b c (d ∷ s) t h)

-- What `strip_prefix` leaves, with the prefix in front, is the text.
pub strip_prefix-eq-some : (p s t : Text) → strip_prefix p s ≡ some t → s ≡ p ++ t
unfolding strip_prefix
strip_prefix-eq-some [] s t h = ground arith
strip_prefix-eq-some (a ∷ p) [] t h = cc
strip_prefix-eq-some (a ∷ p) (c ∷ s) t h = ground (arith, strip_prefix-eq-some p s t)
