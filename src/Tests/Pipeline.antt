-- ===== src/Tests/Pipeline.antt =====
-- Three candidates, and three sources of which one has no weight.
use whirl.Prelude.{
  ℕ, ◌+◌, ◌%◌, ◌≡◌, ◌≤◌, ◌<◌, refl, List, [], ◌∷◌, none, some, Text, codes, keep, length, arith,
}
use whirl.Pipeline.Filter.{Seeking, Limits, linux, filter_pipeline, extension_of}
use whirl.Pipeline.Filter.Partition.{admissible, filter_pipeline-counters}
use whirl.Pipeline.Filter.Admits.{Admits, Sifted}
use whirl.Pipeline.Filter.Exact.{filter_pipeline-Sifted}
use whirl.Pipeline.Weights.{weight_at, enabled_from, total_of, weighted_order}
use whirl.Pipeline.Weights.Share.{head, total, weight_below, weighted_order-share}

abbrev limits : Limits
limits = record {
  sources =
      record { id = codes "shots"; min_width = some 1_900; min_height = none; max_bytes = none }
      ∷ [];
  min_width = 1_920;
  min_height = 1_080;
  max_bytes = 1_000_000;
}

abbrev seen : Text → ℕ → Seeking
seen origin width = record {
  source = codes "shots";
  candidate = record {
    id = origin;
    origin = origin;
    width = some width;
    height = some 1_200;
    bytes = none;
  };
}

abbrev found : List Seeking
found = seen (codes "/a.jpg") 2_000 ∷ seen (codes "/b.png") 100 ∷ seen (codes "/c.heic") 2_000 ∷ []

filter_pipeline-Sifted_example :
    Sifted (Admits limits linux none []) found (filter_pipeline limits linux none [] found).kept
filter_pipeline-Sifted_example = filter_pipeline-Sifted limits linux none [] found

filter_pipeline-counters_example :
    let c = (filter_pipeline limits linux none [] found).counters in
    (c.candidates ≡ length found)
    × (c.admitted ≡ length (keep (admissible limits linux none []) found))
    × (c.rejected_resolution + c.rejected_ratio + c.rejected_size + c.rejected_type
          + c.rejected_dedupe + c.admitted
        ≡ c.candidates)
filter_pipeline-counters_example = filter_pipeline-counters limits linux none [] found

extension_of_url : extension_of (codes "https://host/a.JPG?cb=1.png") ≡ some (codes "jpg")
unfolding extension_of
extension_of_url = refl

order_of_seven : weighted_order (3 ∷ 0 ∷ 5 ∷ []) 7 ≡ 2 ∷ 0 ∷ []
unfolding weighted_order
order_of_seven = refl

some_weight : 0 < total (3 ∷ 0 ∷ 5 ∷ [])
unfolding total_of enabled_from
some_weight = omega arith

weighted_order-share_example :
    (i : ℕ) × (head (weighted_order (3 ∷ 0 ∷ 5 ∷ []) 7) ≡ some i)
    × (weight_below (3 ∷ 0 ∷ 5 ∷ []) i (enabled_from 0 (3 ∷ 0 ∷ 5 ∷ []))
        ≤ 7 % total (3 ∷ 0 ∷ 5 ∷ []))
    × (7 % total (3 ∷ 0 ∷ 5 ∷ [])
        < weight_below (3 ∷ 0 ∷ 5 ∷ []) i (enabled_from 0 (3 ∷ 0 ∷ 5 ∷ []))
          + weight_at (3 ∷ 0 ∷ 5 ∷ []) i)
weighted_order-share_example = weighted_order-share (3 ∷ 0 ∷ 5 ∷ []) 7 some_weight
