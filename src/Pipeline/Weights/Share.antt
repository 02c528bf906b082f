-- ===== src/Pipeline/Weights/Share.antt =====
-- The share of the draws that each source gets: as many as its weight, out of the sum of the weights.
use whirl.Prelude.{
  ℕ, ◌+◌, ◌%◌, ◌≤◌, ◌<◌, ◌≡◌, refl, subst, sym, List, [], ◌∷◌, true, ltb, if◌then◌else◌, arith,
  Bool-cases, inl, inr, Option, none, some, All,
}
use whirl.Pipeline.Weights.{
  weight_at, enabled_from, total_of, pick, order_from, order_of, weighted_order,
}
use whirl.Pipeline.Weights.Once.{pick-skip}

-- The sum of the weights of the indices in the list that are smaller than `i`.
abbrev pub weight_below : List ℕ → ℕ → List ℕ → ℕ
weight_below weights i [] = 0
weight_below weights i (x ∷ xs) =
    (if ltb x i then weight_at weights x else 0) + weight_below weights i xs

abbrev Ascending : List ℕ → Type 0
Ascending [] = Unit
Ascending (x ∷ xs) = All (λ y. x < y) xs × Ascending xs

enabled_from-above :
    (k i : ℕ) (weights : List ℕ) → k < i → All (λ y. k < y) (enabled_from i weights)
unfolding enabled_from
enabled_from-above k i [] h = tt
enabled_from-above k i (w ∷ weights) h = ground (arith, enabled_from-above k (i + 1) weights)

enabled_from-Ascending : (i : ℕ) (weights : List ℕ) → Ascending (enabled_from i weights)
unfolding enabled_from
enabled_from-Ascending i [] = tt
enabled_from-Ascending i (w ∷ weights) =
    ground (arith, enabled_from-Ascending (i + 1) weights, enabled_from-above i (i + 1) weights)

weight_below-zero :
    (weights : List ℕ) (i : ℕ) (xs : List ℕ) → All (λ y. i < y) xs → weight_below weights i xs ≡ 0
weight_below-zero weights i [] h = refl
weight_below-zero weights i (x ∷ xs) h = ground (arith, weight_below-zero weights i xs)

pick-here :
    (weights : List ℕ) (point cumulative first i : ℕ) (xs : List ℕ)
    → ltb point (cumulative + weight_at weights i) ≡ true
    → pick weights point cumulative first (i ∷ xs) ≡ i
unfolding pick
pick-here weights point cumulative first i xs e = ground arith

-- What is picked is one of the indices, where the point lies on the line of their weights.
pick-All {κ} :
    (P : ℕ → Type κ) (weights : List ℕ) (point cumulative first : ℕ) (xs : List ℕ)
    → cumulative ≤ point
    → point < cumulative + total_of weights xs
    → All P xs
    → P (pick weights point cumulative first xs)
unfolding total_of
pick-All P weights point cumulative first [] low high h = absurd (omega arith)
pick-All P weights point cumulative first (x ∷ xs) low high h =
    elim (Bool-cases (ltb point (cumulative + weight_at weights x))) [
      | inl e ↦ subst P (sym (pick-here weights point cumulative first x xs e)) h.0
      | inr e ↦ subst P (sym (pick-skip weights point cumulative first x xs e)) (
          pick-All P weights point (cumulative + weight_at weights x) first xs (ground arith)
            (omega arith) h.1)
    ]

-- The point lies on the part of the line that belongs to the index `i`.
abbrev Owns : List ℕ → List ℕ → ℕ → ℕ → ℕ → Type 0
Owns weights xs cumulative point i =
    (cumulative + weight_below weights i xs ≤ point)
    × (point < cumulative + weight_below weights i xs + weight_at weights i)

Owns-here :
    (weights : List ℕ) (point cumulative x : ℕ) (xs : List ℕ)
    → All (λ y. x < y) xs
    → cumulative ≤ point
    → point < cumulative + weight_at weights x
    → Owns weights (x ∷ xs) cumulative point x
Owns-here weights point cumulative x xs above low high =
    ground (arith, weight_below-zero weights x xs above)

Owns-later :
    (weights : List ℕ) (point cumulative x p : ℕ) (xs : List ℕ)
    → x < p
    → Owns weights xs (cumulative + weight_at weights x) point p
    → Owns weights (x ∷ xs) cumulative point p
Owns-later weights point cumulative x p xs above h = ground arith

pick-share :
    (weights : List ℕ) (point cumulative first : ℕ) (xs : List ℕ)
    → Ascending xs
    → cumulative ≤ point
    → point < cumulative + total_of weights xs
    → Owns weights xs cumulative point (pick weights point cumulative first xs)
unfolding total_of
pick-share weights point cumulative first [] up low high = absurd (omega arith)
pick-share weights point cumulative first (x ∷ xs) up low high =
    let next = cumulative + weight_at weights x in
    elim (Bool-cases (ltb point next)) [
      | inl e ↦
          subst (Owns weights (x ∷ xs) cumulative point)
            (sym (pick-here weights point cumulative first x xs e))
            (Owns-here weights point cumulative x xs up.0 low (ground arith))
      | inr e ↦
          let p = pick weights point next first xs in
          let above : x < p =
            pick-All (λ y. x < y) weights point next first xs (ground arith) (omega arith) up.0 in
          subst (Owns weights (x ∷ xs) cumulative point)
            (sym (pick-skip weights point cumulative first x xs e))
            (Owns-later weights point cumulative x p xs above
              (pick-share weights point next first xs up.1 (ground arith) (omega arith)))
    ]

-- The sum of the weights, and the first index of an order.
abbrev pub total : List ℕ → ℕ
total weights = total_of weights (enabled_from 0 weights)

abbrev pub head : List ℕ → Option ℕ
head [] = none
head (x ∷ xs) = some x

order_of-share :
    (weights : List ℕ) (draw : ℕ) (xs : List ℕ)
    → Ascending xs
    → 0 < total_of weights xs
    → (i : ℕ) × (head (order_of weights draw xs) ≡ some i)
      × (weight_below weights i xs ≤ draw % total_of weights xs)
      × (draw % total_of weights xs < weight_below weights i xs + weight_at weights i)
unfolding order_of order_from
order_of-share weights draw [] up h = absurd (unfold total_of in omega arith)
order_of-share weights draw (e ∷ xs) up h =
    let point = draw % total_of weights (e ∷ xs) in
    let (a, b) = pick-share weights point 0 e (e ∷ xs) up (omega arith) (grind arith) in
    (pick weights point 0 e (e ∷ xs), refl, omega arith, omega arith)

-- Where some weight is not 0, the draw, taken modulo the sum of the weights, falls into the part of the
-- line of weights that belongs to the source tried first: each source is drawn by as many residues
-- as its weight.
pub weighted_order-share :
    (weights : List ℕ) (draw : ℕ)
    → 0 < total weights
    → (i : ℕ) × (head (weighted_order weights draw) ≡ some i)
      × (weight_below weights i (enabled_from 0 weights) ≤ draw % total weights)
      × (draw % total weights
          < weight_below weights i (enabled_from 0 weights) + weight_at weights i)
unfolding weighted_order
weighted_order-share weights draw h =
    order_of-share weights draw (enabled_from 0 weights) (enabled_from-Ascending 0 weights) h
