-- ===== src/Tests/Ring.antt =====
-- A ring of two entries that three sets were pushed on, and the walk of `prev` on it.
use whirl.Prelude.{◌≡◌, List, [], ◌∷◌, none, some, Text, codes, take, leb, if◌then◌else◌}
use whirl.Vocabulary.Kind.{local}
use whirl.Vocabulary.Via.{manual}
use whirl.State.{HistoryEntry, prev_from}
use whirl.State.Ring.{pushed, ring_keeps_newest, Previous, prev_from-Previous}

abbrev set : Text → HistoryEntry
set digest = record {
  set_at = codes "2026-09-25T07:41:12Z";
  via = manual;
  kind = local;
  origin_key = codes "shots:1.jpg";
  digest = some digest;
  path = none;
}

abbrev three_sets : List HistoryEntry
three_sets = set (codes "c") ∷ set (codes "b") ∷ set (codes "a") ∷ []

ring_keeps_newest_example :
    (pushed 2 three_sets).entries ≡ take (if leb 2 1 then 1 else 2) three_sets
ring_keeps_newest_example = ring_keeps_newest 2 three_sets

prev_from_example :
    Previous
      (some (codes "c"))
      (pushed 2 three_sets).entries
      (prev_from (some (codes "c")) (pushed 2 three_sets))
prev_from_example = prev_from-Previous (codes "c") (pushed 2 three_sets)
