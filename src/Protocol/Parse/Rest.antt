-- ===== src/Protocol/Parse/Rest.antt =====
-- The arguments of a line, and the text they are taken from.
use whirl.Prelude.{
  ℕ, ◌≡◌, refl, List, [], ◌∷◌, Option, none, some, Text, inl, inr, Lacks, arith, All, Bool-cases,
  ◌≢◌, ◌∙◌, ◌++◌, ◌==◌, ap,
}
use whirl.Strings.Split.{split, push_first, split-Lacks}
use whirl.Protocol.Parse.{arguments}

-- The text that arguments are taken from.
unfoldable pub join : List Text → Text
join [] = []
join (a ∷ []) = a
join (a ∷ b ∷ more) = a ++ b' ' ∷ join (b ∷ more)

abbrev pub rest_text : List Text → Option Text
rest_text [] = none
rest_text (a ∷ more) = some (join (a ∷ more))

join-push_first : (c : ℕ) (ps : List Text) → join (push_first c ps) ≡ c ∷ join ps
unfolding join push_first
join-push_first c [] = refl
join-push_first c (p ∷ []) = refl
join-push_first c (p ∷ q ∷ ps) = refl

join-first_empty : (ps : List Text) → ps ≢ [] → join ([] ∷ ps) ≡ b' ' ∷ join ps
unfolding join
join-first_empty [] h = absurd (h refl)
join-first_empty (p ∷ ps) h = refl

push_first-filled : (c : ℕ) (ps : List Text) → push_first c ps ≢ []
unfolding push_first
push_first-filled c [] = λ e. cc
push_first-filled c (p ∷ ps) = λ e. cc

split-filled : (s : Text) → split b' ' s ≢ []
unfolding split
split-filled [] = λ e. cc
split-filled (c ∷ s) = elim (Bool-cases (c == b' ')) [
  | inl same ↦ rw same (λ e. cc)
  | inr other ↦ rw other (push_first-filled c (split b' ' s))
]

join-split : (s : Text) → join (split b' ' s) ≡ s
unfolding split join
join-split [] = refl
join-split (c ∷ s) = elim (Bool-cases (c == b' ')) [
  | inl same ↦
      let space : c ≡ b' ' = ground arith in
      rw same (cc (join-first_empty (split b' ' s) (split-filled s), join-split s, space))
  | inr other ↦ rw other (join-push_first c (split b' ' s) ∙ ap (◌∷◌ c) (join-split s))
]

-- The arguments are those of the text.
rest_text-filled : (ps : List Text) → ps ≢ [] → rest_text ps ≡ some (join ps)
rest_text-filled [] h = absurd (h refl)
rest_text-filled (p ∷ ps) h = refl

pub rest_text-arguments : (rest : Option Text) → rest_text (arguments rest) ≡ rest
unfolding arguments join
rest_text-arguments none = refl
rest_text-arguments (some []) = refl
rest_text-arguments (some (c ∷ s)) =
    rest_text-filled (split b' ' (c ∷ s)) (split-filled (c ∷ s)) ∙ ap some (join-split (c ∷ s))

pub arguments-Lacks : (rest : Option Text) → All (Lacks b' ') (arguments rest)
unfolding arguments
arguments-Lacks none = tt
arguments-Lacks (some []) = (tt, tt)
arguments-Lacks (some (c ∷ s)) = split-Lacks b' ' (c ∷ s)
