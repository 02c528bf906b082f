-- ===== src/Pipeline/Filter/Exact.antt =====
-- The five stages leave exactly the candidates that are admitted.
use whirl.Prelude.{
  ℕ, ◌≤◌, ◌≡◌, refl, sym, subst, List, [], ◌∷◌, ◌++◌, Bool, true, false, Option, some, Text, keep,
  find, text_eq, Bool-cases, inl, inr, arith,
}
use whirl.Pipeline.Filter.{
  Seeking, Limits, Platform, too_small, too_large, wrong_ratio, wrong_type, is_recent,
  filter_pipeline, small, above, floors, floors_of, cap_of, source_of, extension_of, origin_key,
}
use whirl.Pipeline.Filter.Partition.{admissible, filter_pipeline-kept}
use whirl.Pipeline.Filter.Admits.{Admits, Sifted, done, taken, left_out}
use whirl.Pipeline.Filter.Verdicts.{
  Section-find, find-Section, floors_of-setting, cap_of-setting, small-not, above-not,
  off_ratio-not, unsettable_name-not, window-fresh,
}

module _ (config : Limits) (platform : Platform) (target : Option (ℕ → ℕ → Bool))
    (window : List Text) where
  admissible-Admits :
      (s : Seeking)
      → admissible config platform target window s ≡ true
      → Admits config platform target window s
  unfolding too_small wrong_ratio too_large wrong_type is_recent floors source_of origin_key
  admissible-Admits s h =
      let c = s.candidate in
      let own = find (λ section. text_eq section.id s.source) config.sources in
      let least = floors_of-setting config own in
      record {
        own = own;
        section = find-Section s.source config.sources;
        wide =
            subst (λ f. (w : ℕ) → c.width ≡ some w → f.0 ≤ w) least
              ((small-not c.width (floors_of config own).0).0 (ground arith));
        tall =
            subst (λ f. (w : ℕ) → c.height ≡ some w → f.1 ≤ w) least
              ((small-not c.height (floors_of config own).1).0 (ground arith));
        in_ratio = (off_ratio-not target c.width c.height).0 (ground arith);
        light =
            subst (λ f. (n : ℕ) → c.bytes ≡ some n → n ≤ f) (cap_of-setting config own)
              ((above-not c.bytes (cap_of config own)).0 (ground arith));
        typed = (unsettable_name-not platform (extension_of c.origin)).0 (ground arith);
        fresh = (window-fresh window (s.source ++ b':' ∷ c.id) c.id).0 (ground arith);
      }

  Admits-admissible :
      (s : Seeking)
      → Admits config platform target window s
      → admissible config platform target window s ≡ true
  unfolding too_small wrong_ratio too_large wrong_type is_recent floors source_of origin_key
  Admits-admissible s a =
      let c = s.candidate in
      let found = sym (Section-find s.source config.sources a.own a.section) in
      let least = sym (floors_of-setting config a.own) in
      let most = sym (cap_of-setting config a.own) in
      let wide = subst (λ f. (w : ℕ) → c.width ≡ some w → f.0 ≤ w) least a.wide in
      let tall = subst (λ f. (w : ℕ) → c.height ≡ some w → f.1 ≤ w) least a.tall in
      let light = subst (λ f. (n : ℕ) → c.bytes ≡ some n → n ≤ f) most a.light in
      let own = find (λ section. text_eq section.id s.source) config.sources in
      let wide_enough : small c.width (floors_of config own).0 ≡ false =
        subst (λ o. small c.width (floors_of config o).0 ≡ false) found
          ((small-not c.width _).1 wide) in
      let tall_enough : small c.height (floors_of config own).1 ≡ false =
        subst (λ o. small c.height (floors_of config o).1 ≡ false) found
          ((small-not c.height _).1 tall) in
      let light_enough : above c.bytes (cap_of config own) ≡ false =
        subst (λ o. above c.bytes (cap_of config o) ≡ false) found
          ((above-not c.bytes _).1 light) in
      let in_ratio = (off_ratio-not target c.width c.height).1 a.in_ratio in
      let typed = (unsettable_name-not platform (extension_of c.origin)).1 a.typed in
      let fresh = (window-fresh window (s.source ++ b':' ∷ c.id) c.id).1 a.fresh in
      rw (wide_enough, tall_enough, light_enough, in_ratio, typed, fresh) refl

  -- The candidates left over, in their order: those of the property.
  keep-Sifted :
      (input : List Seeking)
      → Sifted
          (Admits config platform target window)
          input
          (keep (admissible config platform target window) input)
  keep-Sifted [] = done
  keep-Sifted (s ∷ input) = elim (Bool-cases (admissible config platform target window s)) [
    | inl fine ↦ rw fine (taken (admissible-Admits s fine) (keep-Sifted input))
    | inr objection ↦
        rw objection (left_out (λ a. cc (objection, Admits-admissible s a)) (keep-Sifted input))
  ]

  -- What the five stages leave is, in their order, exactly the candidates of which nothing known is
  -- an objection: at least as wide and as tall as the source's section asks, or else the
  -- configuration; not off the target's ratio, by the test given; at most as many bytes as allowed;
  -- of a type that the platform can set, by the extension of the origin; and neither the key nor the
  -- id in the recent window.
  pub filter_pipeline-Sifted :
      (input : List Seeking)
      → Sifted
          (Admits config platform target window)
          input
          (filter_pipeline config platform target window input).kept
  filter_pipeline-Sifted input =
      subst (Sifted (Admits config platform target window) input)
        (sym (filter_pipeline-kept config platform target window input)) (keep-Sifted input)
