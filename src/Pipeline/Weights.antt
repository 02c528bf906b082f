-- ===== src/Pipeline/Weights.antt =====
-- `weighted_order`: the source that a rotation draws by weight, and then the others by weight.
pub mod Share
pub mod Once
use whirl.Prelude.{
  ℕ, suc, ◌+◌, ◌-◌, ◌%◌, List, [], ◌∷◌, Bool, true, false, not, ◌&&◌, ◌||◌, ltb, leb, ◌==◌, keep,
  if◌then◌else◌,
}

-- `weights[index]`; every index that is used is in range.
unfoldable pub weight_at : List ℕ → ℕ → ℕ
weight_at [] index = 0
weight_at (w ∷ weights) index =
    let rest = weight_at weights (index - 1) in if index == 0 then w else rest

-- The indices from `i` on whose weight is not 0.
unfoldable pub enabled_from : ℕ → List ℕ → List ℕ
enabled_from i [] = []
enabled_from i (w ∷ weights) =
    let rest = enabled_from (i + 1) weights in if ltb 0 w then i ∷ rest else rest

unfoldable pub total_of : List ℕ → List ℕ → ℕ
unfolding weight_at
total_of weights [] = 0
total_of weights (i ∷ indices) = weight_at weights i + total_of weights indices

-- The first index at which the cumulative weight passes the point.
unfoldable pub pick : List ℕ → ℕ → ℕ → ℕ → List ℕ → ℕ
unfolding weight_at
pick weights point cumulative first [] = first
pick weights point cumulative first (i ∷ indices) =
    let later = pick weights point (cumulative + weight_at weights i) first indices in
    if ltb point (cumulative + weight_at weights i) then i else later

-- The order of the sort: the larger weight first, and the smaller index of two with equal weights.
unfoldable pub comes_before : List ℕ → ℕ → ℕ → Bool
unfolding weight_at
comes_before weights a b =
    ltb (weight_at weights b) (weight_at weights a)
    || ((weight_at weights a == weight_at weights b) && leb a b)

unfoldable pub sort_in : List ℕ → ℕ → List ℕ → List ℕ
unfolding comes_before
sort_in weights a [] = a ∷ []
sort_in weights a (b ∷ sorted) =
    let rest = sort_in weights a sorted in
    if comes_before weights a b then a ∷ b ∷ sorted else b ∷ rest

unfoldable pub sort_by_weight : List ℕ → List ℕ → List ℕ
unfolding sort_in
sort_by_weight weights [] = []
sort_by_weight weights (a ∷ indices) = sort_in weights a (sort_by_weight weights indices)

unfoldable pub order_from : List ℕ → ℕ → List ℕ → List ℕ
unfolding sort_by_weight
order_from weights first enabled =
    first ∷ sort_by_weight weights (keep (λ i. not (i == first)) enabled)

unfoldable pub order_of : List ℕ → ℕ → List ℕ → List ℕ
unfolding order_from pick total_of
order_of weights draw [] = []
order_of weights draw (e ∷ enabled) =
    let point = draw % total_of weights (e ∷ enabled) in
    order_from weights (pick weights point 0 e (e ∷ enabled)) (e ∷ enabled)

unfoldable pub weighted_order : List ℕ → ℕ → List ℕ
unfolding order_of enabled_from
weighted_order weights draw = order_of weights draw (enabled_from 0 weights)
