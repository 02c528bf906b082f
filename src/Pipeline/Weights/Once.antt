-- ===== src/Pipeline/Weights/Once.antt =====
-- Each source that has a weight is tried once, and no other, the heavier ones first behind the one
-- that is drawn.
use whirl.Prelude.{
  ℕ, ◌+◌, ◌-◌, ◌%◌, ◌≤◌, ◌<◌, ◌≡◌, ◌∙◌, refl, ap, subst, sym, List, [], ◌∷◌, false, not, ◌&&◌, ltb,
  leb, ◌==◌, keep, if◌then◌else◌, arith, Bool-cases, inl, inr, ◌⊎◌,
}
use whirl.Pipeline.Weights.{
  weight_at, enabled_from, total_of, pick, comes_before, sort_in, sort_by_weight, order_from,
  order_of, weighted_order,
}

abbrev pub occurrences : ℕ → List ℕ → ℕ
occurrences j [] = 0
occurrences j (x ∷ xs) = (if x == j then 1 else 0) + occurrences j xs

occurrences-enabled_from :
    (j i : ℕ) (weights : List ℕ)
    → occurrences j (enabled_from i weights)
      ≡ (if leb i j && ltb 0 (weight_at weights (j - i)) then 1 else 0)
unfolding enabled_from weight_at
occurrences-enabled_from j i [] = ground arith
occurrences-enabled_from j i (w ∷ weights) =
    let e : j - i - 1 ≡ j - (i + 1) = omega arith in
    ground (arith, occurrences-enabled_from j (i + 1) weights, ap (weight_at weights) e)

occurrences-sort_in :
    (weights : List ℕ) (j a : ℕ) (xs : List ℕ)
    → occurrences j (sort_in weights a xs) ≡ occurrences j (a ∷ xs)
unfolding sort_in
occurrences-sort_in weights j a [] = refl
occurrences-sort_in weights j a (b ∷ xs) = elim (Bool-cases (comes_before weights a b)) [
  | inl e ↦ rw (e, sort_in) refl
  | inr e ↦ rw (e, sort_in) (omega (arith, occurrences-sort_in weights j a xs))
]

occurrences-sort_by_weight :
    (weights : List ℕ) (j : ℕ) (xs : List ℕ)
    → occurrences j (sort_by_weight weights xs) ≡ occurrences j xs
unfolding sort_by_weight
occurrences-sort_by_weight weights j [] = refl
occurrences-sort_by_weight weights j (a ∷ xs) = omega (
  arith,
  occurrences-sort_in weights j a (sort_by_weight weights xs),
  occurrences-sort_by_weight weights j xs,
)

occurrences-keep :
    (first j : ℕ) (xs : List ℕ)
    → occurrences j (keep (λ i. not (i == first)) xs) ≡ (if j == first then 0 else occurrences j xs)
occurrences-keep first j [] = ground arith
occurrences-keep first j (x ∷ xs) = ground (arith, occurrences-keep first j xs)

pub pick-skip :
    (weights : List ℕ) (point cumulative first i : ℕ) (xs : List ℕ)
    → ltb point (cumulative + weight_at weights i) ≡ false
    → pick weights point cumulative first (i ∷ xs)
      ≡ pick weights point (cumulative + weight_at weights i) first xs
unfolding pick
pick-skip weights point cumulative first i xs e = ground arith

occurs-cons : (p i : ℕ) (xs : List ℕ) → 0 < occurrences p xs → 0 < occurrences p (i ∷ xs)
occurs-cons p i xs h = omega arith

-- What is picked is the default or one of the indices.
pick-occurs :
    (weights : List ℕ) (point cumulative first : ℕ) (xs : List ℕ)
    → (pick weights point cumulative first xs ≡ first)
      ⊎ (0 < occurrences (pick weights point cumulative first xs) xs)
unfolding pick
pick-occurs weights point cumulative first [] = inl refl
pick-occurs weights point cumulative first (i ∷ xs) =
    elim (Bool-cases (ltb point (cumulative + weight_at weights i))) [
      | inl e ↦ inr (rw (e, pick) (ground arith))
      | inr e ↦ elim (pick-occurs weights point (cumulative + weight_at weights i) first xs) [
        | inl d ↦ inl (pick-skip weights point cumulative first i xs e ∙ d)
        | inr o ↦ inr (
            subst (λ p. 0 < occurrences p (i ∷ xs))
              (sym (pick-skip weights point cumulative first i xs e)) (occurs-cons _ i xs o))
      ]
    ]

order_from-occurrences :
    (weights : List ℕ) (first j : ℕ) (xs : List ℕ)
    → occurrences first xs ≡ 1
    → occurrences j (order_from weights first xs) ≡ occurrences j xs
unfolding order_from
order_from-occurrences weights first j xs h = ground (
  arith,
  occurrences-sort_by_weight weights j (keep (λ i. not (i == first)) xs),
  occurrences-keep first j xs,
)

pick-occurs_once :
    (weights : List ℕ) (point e : ℕ) (xs : List ℕ)
    → ((j : ℕ) → occurrences j (e ∷ xs) ≤ 1)
    → occurrences (pick weights point 0 e (e ∷ xs)) (e ∷ xs) ≡ 1
pick-occurs_once weights point e xs once =
    let first = pick weights point 0 e (e ∷ xs) in
    elim (pick-occurs weights point 0 e (e ∷ xs)) [
      | inl same ↦ rw same (ground (arith, once e))
      | inr some_time ↦ omega (arith, once first, some_time)
    ]

order_of-occurrences :
    (weights : List ℕ) (draw j : ℕ) (xs : List ℕ)
    → ((k : ℕ) → occurrences k xs ≤ 1)
    → occurrences j (order_of weights draw xs) ≡ occurrences j xs
unfolding order_of
order_of-occurrences weights draw j [] once = refl
order_of-occurrences weights draw j (e ∷ xs) once =
    order_from-occurrences weights _ j (e ∷ xs)
      (pick-occurs_once weights (draw % total_of weights (e ∷ xs)) e xs once)

-- Whatever is drawn, every index whose weight is not 0 stands in the order once, and no other does.
weighted_order-once :
    (weights : List ℕ) (draw j : ℕ)
    → occurrences j (weighted_order weights draw) ≡ (if ltb 0 (weight_at weights j) then 1 else 0)
unfolding weighted_order
weighted_order-once weights draw j =
    order_of-occurrences weights draw j (enabled_from 0 weights)
      (λ k. ground (arith, occurrences-enabled_from k 0 weights))
    ∙ ground (arith, occurrences-enabled_from j 0 weights)
