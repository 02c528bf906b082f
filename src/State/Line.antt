-- ===== src/State/Line.antt =====
-- The `entry:` lines of the history and of the favorites.
use whirl.Prelude.{
  ◌≡◌, ◌≢◌, refl, ap, List, [], ◌∷◌, ◌++◌, Option, none, some, Text, codes, text_eq, text_eq_iff,
  if◌then◌else◌, Bool-cases, inl, inr, arith,
}
use whirl.Vocabulary
use whirl.State.{HistoryEntry, FavoriteState, present, missing, unrecoverable, Favorite}

dash : Text
dash = codes "-"

unfoldable pub or_dash : Option Text → Text
unfolding dash
or_dash none = dash
or_dash (some text) = text

unfoldable pub none_if_dash : Text → Option Text
unfolding dash
none_if_dash value = if text_eq value dash then none else some value

-- The six fields of a history line, and the line itself.
unfoldable pub history_fields : HistoryEntry → List Text
unfolding or_dash
history_fields e =
    e.set_at
    ∷ Vocabulary.Via.as_str e.via
    ∷ Vocabulary.Kind.as_str e.kind
    ∷ e.origin_key
    ∷ or_dash e.digest
    ∷ or_dash e.path
    ∷ []

-- Fields with a space before each.
spaced : List Text → Text
spaced [] = []
spaced (field ∷ fields) = b' ' ∷ field ++ spaced fields

unfoldable pub history_line : HistoryEntry → Text
unfolding spaced history_fields
history_line e = codes "entry:" ++ spaced (history_fields e)

unfoldable pub favorite_as_str : FavoriteState → Text
favorite_as_str present = codes "present"
favorite_as_str missing = codes "missing"
favorite_as_str unrecoverable = codes "unrecoverable"

unfoldable pub favorite_line : Favorite → Text
unfolding spaced or_dash favorite_as_str
favorite_line f =
    codes "entry:"
    ++ spaced (
        f.added_at
        ∷ Vocabulary.Kind.as_str f.kind
        ∷ f.origin_key
        ∷ or_dash f.digest
        ∷ favorite_as_str f.state
        ∷ or_dash f.path
        ∷ [])

unfoldable pub from_record_fields : List Text → Option HistoryEntry
unfolding none_if_dash
from_record_fields (set_at ∷ via ∷ kind ∷ origin_key ∷ digest ∷ path ∷ []) =
    elim (Vocabulary.Via.parse via) [
      | none ↦ none
      | some set_via ↦ elim (Vocabulary.Kind.parse kind) [
        | none ↦ none
        | some set_kind ↦ some (record {
          set_at = set_at;
          via = set_via;
          kind = set_kind;
          origin_key = origin_key;
          digest = none_if_dash digest;
          path = none_if_dash path;
        })
      ]
    ]
from_record_fields _ = none

none_if_dash-or_dash : (o : Option Text) → o ≢ some (codes "-") → none_if_dash (or_dash o) ≡ o
unfolding none_if_dash or_dash dash text_eq
none_if_dash-or_dash none h = refl
none_if_dash-or_dash (some t) h = elim (Bool-cases (text_eq t (codes "-"))) [
  | inl same ↦ absurd (h (ap some ((text_eq_iff t (codes "-")).0 same)))
  | inr other ↦ rw other refl
]

-- A history entry is read back from the fields of its line, where neither its digest nor its path is
-- the dash that stands for none.
from_record_fields-history_fields :
    (e : HistoryEntry)
    → e.digest ≢ some (codes "-")
    → e.path ≢ some (codes "-")
    → from_record_fields (history_fields e) ≡ some e
unfolding from_record_fields history_fields
from_record_fields-history_fields e d p = ground (
  arith,
  none_if_dash-or_dash e.digest,
  none_if_dash-or_dash e.path,
  Vocabulary.Via.parse-as_str e.via,
  Vocabulary.Kind.parse-as_str e.kind,
)
