-- ===== src/Protocol/Record/Set.antt =====
-- `set_record` and `parse_set_record`: a set, as `set:` reports it.
use whirl.Prelude.{
  ◌≡◌, ◌≢◌, refl, List, [], ◌∷◌, ◌++◌, Option, none, some, Text, codes, text_eq, text_eq_iff,
  if◌then◌else◌, Lacks, Bool-cases, inl, inr, arith,
}
use whirl.Strings.Split.{splitn, splitn-append}
use whirl.Strings.Strip.{strip_prefix, strip_suffix, trim_end, trim_end_of_none}
use whirl.Vocabulary.Via
use whirl.Vocabulary.Via.{Via}

pub record SetRecord : Type 0 where
  pub digest : Text
  pub origin_key : Text
  pub via : Via
  pub path : Option Text

unfoldable pub path_or_dash : Option Text → Text
path_or_dash none = codes "-"
path_or_dash (some path) = path

unfoldable pub set_record : SetRecord → Text
unfolding path_or_dash
set_record r =
    codes "set: "
    ++ (r.digest
        ++ b' ' ∷ (r.origin_key ++ b' ' ∷ (Via.as_str r.via ++ b' ' ∷ path_or_dash r.path)))

unfoldable pub path_unless_dash : Text → Option Text
path_unless_dash path = if text_eq path (codes "-") then none else some path

-- The path is the fourth piece, if there is one, without the spaces at its end.
unfoldable pub path_field : List Text → Option Text
unfolding path_unless_dash trim_end
path_field [] = none
path_field (path ∷ more) = path_unless_dash (trim_end b' ' path)

unfoldable pub set_fields : List Text → Option SetRecord
unfolding path_field
set_fields (digest ∷ origin_key ∷ via ∷ rest) = elim (Via.parse via) [
  | none ↦ none
  | some v ↦
      some (record { digest = digest; origin_key = origin_key; via = v; path = path_field rest })
]
set_fields _ = none

unfoldable pub parse_set_record : Text → Option SetRecord
unfolding set_fields splitn
parse_set_record line = elim (strip_prefix (codes "set: ") line) [
  | none ↦ none
  | some rest ↦ set_fields (splitn b' ' 4 rest)
]

-- A path that a `set:` line can carry: it is not the dash that stands for none, and no space ends it.
abbrev pub IsSetPath : Option Text → Type 0
IsSetPath none = Unit
IsSetPath (some path) = (path ≢ codes "-") × (strip_suffix b' ' path ≡ none)

as_str-Lacks_space : (v : Via) → Lacks b' ' (Via.as_str v)
unfolding Via.as_str
as_str-Lacks_space v = ground arith

path_field-path_or_dash :
    (path : Option Text) → IsSetPath path → path_field (path_or_dash path ∷ []) ≡ path
unfolding path_field path_or_dash text_eq
path_field-path_or_dash none h = refl
path_field-path_or_dash (some path) h = elim (Bool-cases (text_eq path (codes "-"))) [
  | inl same ↦ absurd (h.0 ((text_eq_iff path (codes "-")).0 same))
  | inr other ↦ rw (trim_end_of_none b' ' path h.1, other) refl
]

set_fields-eq_some :
    (digest origin_key name : Text) (v : Via) (rest : List Text)
    → Via.parse name ≡ some v
    → set_fields (digest ∷ origin_key ∷ name ∷ rest)
      ≡ some (record { digest = digest; origin_key = origin_key; via = v; path = path_field rest })
unfolding set_fields
set_fields-eq_some digest origin_key name v rest h = rw (h, set_fields) refl

-- A set comes back from its line, where its digest and its origin key hold no space and its path is
-- one that the line can carry; the path may hold spaces.
parse_set_record-set_record :
    (r : SetRecord)
    → Lacks b' ' r.digest
    → Lacks b' ' r.origin_key
    → IsSetPath r.path
    → parse_set_record (set_record r) ≡ some r
unfolding parse_set_record set_record strip_prefix splitn
parse_set_record-set_record r d o p =
    let path = path_or_dash r.path in
    let via_path = Via.as_str r.via ++ b' ' ∷ path in
    rw
      (
        splitn-append b' ' 2 r.digest (r.origin_key ++ b' ' ∷ via_path) d,
        splitn-append b' ' 1 r.origin_key via_path o,
        splitn-append b' ' 0 (Via.as_str r.via) path (as_str-Lacks_space r.via),
        set_fields-eq_some r.digest r.origin_key (Via.as_str r.via) r.via (path ∷ [])
            (Via.parse-as_str r.via),
        path_field-path_or_dash r.path p,
      )
      refl
