-- ===== src/Pipeline/Filter/Partition.antt =====
-- The stages together are one filter, and their counters account for every candidate.
use whirl.Prelude.{
  ℕ, ◌+◌, ◌≡◌, ◌∙◌, refl, ap, List, [], ◌∷◌, Bool, not, ◌&&◌, Option, Text, keep, length, arith,
}
use whirl.Pipeline.Filter.{
  Seeking, Limits, Platform, stage, too_small, too_large, wrong_ratio, wrong_type, is_recent,
  filter_pipeline,
}

stage-kept :
    (rejects : Seeking → Bool) (input : List Seeking)
    → (stage rejects input).kept ≡ keep (λ s. not (rejects s)) input
unfolding stage
stage-kept rejects [] = refl
stage-kept rejects (s ∷ input) = ground (arith, stage-kept rejects input)

stage-rejected :
    (rejects : Seeking → Bool) (input : List Seeking)
    → (stage rejects input).rejected + length (stage rejects input).kept ≡ length input
unfolding stage
stage-rejected rejects [] = omega arith
stage-rejected rejects (s ∷ input) = ground (arith, stage-rejected rejects input)

keep-keep {ℓ} :
    {A : Type ℓ} (p q : A → Bool) (xs : List A) → keep q (keep p xs) ≡ keep (λ x. p x && q x) xs
keep-keep p q [] = refl
keep-keep p q (x ∷ xs) = ground (arith, keep-keep p q xs)

-- A filter behind a stage.
keep-stage :
    (q rejects : Seeking → Bool) (input : List Seeking)
    → keep q (stage rejects input).kept ≡ keep (λ s. not (rejects s) && q s) input
keep-stage q rejects input =
    ap (keep q) (stage-kept rejects input) ∙ keep-keep (λ s. not (rejects s)) q input

module _ (config : Limits) (platform : Platform) (target : Option (ℕ → ℕ → Bool))
    (window : List Text) where
  -- A candidate that no stage has anything against.
  abbrev pub admissible : Seeking → Bool
  admissible s =
      not (too_small config s)
      && (not (wrong_ratio target s)
          && (not (too_large config s)
              && (not (wrong_type platform s) && not (is_recent window s))))

  -- What the five stages leave, one after the other, is the candidates that no stage has anything
  -- against, in their order.
  pub filter_pipeline-kept :
      (input : List Seeking)
      → (filter_pipeline config platform target window input).kept ≡ keep admissible input
  unfolding filter_pipeline
  filter_pipeline-kept input =
      let small = too_small config in
      let ratio = wrong_ratio target in
      let large = too_large config in
      let kind = wrong_type platform in
      let recent = is_recent window in
      let first = stage small input in
      let second = stage ratio first.kept in
      let third = stage large second.kept in
      let fourth = stage kind third.kept in
      stage-kept recent fourth.kept
      ∙ keep-stage (λ s. not (recent s)) kind third.kept
      ∙ keep-stage (λ s. not (kind s) && not (recent s)) large second.kept
      ∙ keep-stage (λ s. not (large s) && (not (kind s) && not (recent s))) ratio first.kept
      ∙ keep-stage (λ s. not (ratio s) && (not (large s) && (not (kind s) && not (recent s)))) small
          input

  -- Every candidate is admitted or counted as rejected by one stage.
  pub filter_pipeline-counters :
      (input : List Seeking)
      → let c = (filter_pipeline config platform target window input).counters in
        (c.candidates ≡ length input)
        × (c.admitted ≡ length (keep admissible input))
        × (c.rejected_resolution + c.rejected_ratio + c.rejected_size + c.rejected_type
              + c.rejected_dedupe + c.admitted
            ≡ c.candidates)
  unfolding filter_pipeline
  filter_pipeline-counters input =
      let first = stage (too_small config) input in
      let second = stage (wrong_ratio target) first.kept in
      let third = stage (too_large config) second.kept in
      let fourth = stage (wrong_type platform) third.kept in
      (
        refl,
        ap length (filter_pipeline-kept input),
        omega (
          arith,
          stage-rejected (too_small config) input,
          stage-rejected (wrong_ratio target) first.kept,
          stage-rejected (too_large config) second.kept,
          stage-rejected (wrong_type platform) third.kept,
          stage-rejected (is_recent window) fourth.kept,
        ),
      )
