-- ===== src/Protocol/Record/Plan.antt =====
-- `plan_record` and `parse_plan_record`: the adopted configuration as `key=value` pairs.
use whirl.Prelude.{
  ◌≡◌, refl, List, [], ◌∷◌, ◌++◌, Option, none, some, Text, codes, Lacks, All, arith,
}
use whirl.Strings.Split.{split, split_once, split_once-append, split-append, split_of-Lacks}
use whirl.Strings.Strip.{strip_prefix}

unfoldable pub pair_text : Text × Text → Text
pair_text (key, value) = key ++ b'=' ∷ value

-- The pairs with a space between two of them.
unfoldable pub join_pairs : List (Text × Text) → Text
unfolding pair_text
join_pairs [] = []
join_pairs (p ∷ []) = pair_text p
join_pairs (p ∷ q ∷ ps) = pair_text p ++ b' ' ∷ join_pairs (q ∷ ps)

unfoldable pub plan_record : List (Text × Text) → Text
unfolding join_pairs
plan_record pairs = codes "plan: " ++ join_pairs pairs

unfoldable pub push_pair :
    Option (Text × Text) → Option (List (Text × Text)) → Option (List (Text × Text))
push_pair none rest = none
push_pair (some p) none = none
push_pair (some p) (some ps) = some (p ∷ ps)

unfoldable pub parse_pairs : List Text → Option (List (Text × Text))
unfolding push_pair split_once
parse_pairs [] = some []
parse_pairs (field ∷ fields) = push_pair (split_once b'=' field) (parse_pairs fields)

unfoldable pub parse_plan_record : Text → Option (List (Text × Text))
unfolding parse_pairs split
parse_plan_record line = elim (strip_prefix (codes "plan: ") line) [
  | none ↦ none
  | some rest ↦ parse_pairs (split b' ' rest)
]

-- A pair that the line can carry.
abbrev pub IsPair : Text × Text → Type 0
IsPair p = Lacks b'=' p.0 × Lacks b' ' p.0 × Lacks b' ' p.1

Lacks-append_sep : (s t : Text) → Lacks b' ' s → Lacks b' ' t → Lacks b' ' (s ++ b'=' ∷ t)
Lacks-append_sep [] t hs ht = (omega arith, ht)
Lacks-append_sep (c ∷ s) t hs ht = (hs.0, Lacks-append_sep s t hs.1 ht)

pair_text-Lacks_space : (p : Text × Text) → IsPair p → Lacks b' ' (pair_text p)
unfolding pair_text
pair_text-Lacks_space p h = Lacks-append_sep p.0 p.1 h.1 h.2

split_once-pair_text : (p : Text × Text) → IsPair p → split_once b'=' (pair_text p) ≡ some p
unfolding pair_text
split_once-pair_text p h = split_once-append b'=' p.0 p.1 h.0

parse_pairs-join_pairs :
    (p : Text × Text) (ps : List (Text × Text))
    → IsPair p
    → All IsPair ps
    → parse_pairs (split b' ' (join_pairs (p ∷ ps))) ≡ some (p ∷ ps)
unfolding parse_pairs join_pairs
parse_pairs-join_pairs p [] h hs =
    rw (split_of-Lacks b' ' (pair_text p) (pair_text-Lacks_space p h), split_once-pair_text p h)
      refl
parse_pairs-join_pairs p (q ∷ ps) h hs =
    rw
      (
        split-append b' ' (pair_text p) (join_pairs (q ∷ ps)) (pair_text-Lacks_space p h),
        split_once-pair_text p h,
        parse_pairs-join_pairs q ps hs.0 hs.1,
      )
      refl

-- The pairs of a plan line that is not empty come back in their order, where no key holds `=` and
-- neither a key nor a value holds a space.
pub parse_plan_record-plan_record :
    (p : Text × Text) (ps : List (Text × Text))
    → All IsPair (p ∷ ps)
    → parse_plan_record (plan_record (p ∷ ps)) ≡ some (p ∷ ps)
unfolding parse_plan_record plan_record strip_prefix
parse_plan_record-plan_record p ps h = parse_pairs-join_pairs p ps h.0 h.1
