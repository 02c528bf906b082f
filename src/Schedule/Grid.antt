-- ===== src/Schedule/Grid.antt =====
-- `on_grid_after`: the whole-interval advance of a missed deadline.
use whirl.Prelude.{
  ℕ, zero, suc, ◌+◌, ◌*◌, ◌^◌, ◌<◌, max, ◌≡◌, refl, ◌⊎◌, inl, inr, Bool-cases, leb→le, ◌∙◌, arith,
}
use whirl.Prelude.Int.{ℤ, pos, pos_part, neg_part, ◌+ℤ◌, ◌≤ℤ◌, ◌<ℤ◌, leb_ℤ, int_laws}
use whirl.Schedule.{as_i64, advance, rounds, on_grid_after}

-- Where a deadline goes from `start` when the wall clock reads `now`: strictly ahead of the clock, a
-- whole number of intervals from `start`, and no interval further than it has to.
pub record OnGrid (start now : ℤ) (interval : ℕ) (next : ℤ) : Type 0 where
  pub steps : ℕ
  pub ahead : now <ℤ next
  pub aligned : next ≡ start +ℤ pos (steps * interval)
  pub first : (steps ≡ 0) ⊎ (next ≤ℤ now +ℤ pos interval)

pub as_i64_pos : (n : ℕ) → n < 2 ^ 63 → as_i64 n ≡ pos n
unfolding as_i64
as_i64_pos n h = ground arith

module _ (now : ℤ) (i : ℕ) where
  -- Where the deadline of the next slot goes, the deadline of this one goes too.
  skip :
      (start next : ℤ) → start ≤ℤ now → OnGrid (start +ℤ pos i) now i next → OnGrid start now i next
  skip start next late g = record {
    steps = suc g.steps;
    ahead = g.ahead;
    aligned = g.aligned ∙ omega int_laws;
    first = elim g.first [
      | inl once ↦ inr (rw (g.aligned, once) (omega int_laws))
      | inr near ↦ inr near
    ];
  }

  pub advance-OnGrid :
      (fuel : ℕ) (value : ℤ)
      → 0 < i
      → pos_part now + neg_part value < fuel + (pos_part value + neg_part now)
      → OnGrid value now i (advance fuel (pos i) now value)
  unfolding advance
  advance-OnGrid zero value positive enough = record {
    steps = 0;
    ahead = omega arith;
    aligned = omega int_laws;
    first = inl refl;
  }
  advance-OnGrid (suc fuel) value positive enough = elim (Bool-cases (leb_ℤ value now)) [
    | inl late ↦
        rw (late, advance)
          (skip value _ (leb→le _ _ late)
            (advance-OnGrid fuel (value +ℤ pos i) positive (omega int_laws)))
    | inr ahead ↦
        rw (ahead, advance)
          (record { steps = 0; ahead = ground arith; aligned = omega int_laws; first = inl refl })
  ]

-- The advance of a missed deadline ends, whatever the distance: `interval_seconds` below 2^63 is all
-- it takes, zero included, which counts as one second.
pub on_grid_after-OnGrid :
    (next_at now : ℤ) (interval_seconds : ℕ)
    → interval_seconds < 2 ^ 63
    → OnGrid next_at now (max interval_seconds 1) (on_grid_after next_at now interval_seconds)
unfolding on_grid_after
on_grid_after-OnGrid next_at now interval_seconds h =
    rw (as_i64_pos (max interval_seconds 1) (omega arith)) (
      advance-OnGrid now (max interval_seconds 1) (rounds next_at now) next_at (omega arith)
        (omega arith))
