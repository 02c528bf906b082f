-- ===== src/Daemon/Resolve.antt =====
-- What the daemon reads off its state: `State::resolve`, `State::current_resolved`,
-- `State::next_in_s`, `protected_set` and `rebuild_current`.
use whirl.Prelude.{
  ℕ, List, [], ◌∷◌, Bool, true, false, ◌&&◌, ◌||◌, Option, none, some, Text, text_eq, option_eq,
  find, if◌then◌else◌,
}
use whirl.Prelude.Int.{ℤ, pos, ◌-ℤ◌, ltb_ℤ}
use whirl.Map.{Map, get}
use whirl.Schedule.{as_i64}
use whirl.Sha256.Digest.{is_digest}
use whirl.Vocabulary.Kind.{external}
use whirl.State.{HistoryEntry, Favorite}
use whirl.Cache.{Protected}
use whirl.Daemon.{Current, State, Resolved}

abbrev pub resolved_from_history : HistoryEntry → Resolved
resolved_from_history entry = record {
  origin_key = entry.origin_key;
  digest = entry.digest;
  kind = entry.kind;
  path = entry.path;
}

abbrev pub resolved_from_favorite : Favorite → Resolved
resolved_from_favorite favorite = record {
  origin_key = favorite.origin_key;
  digest = favorite.digest;
  kind = favorite.kind;
  path = favorite.path;
}

-- `BTreeMap::values`.
abbrev pub values {ℓ} : {V : Type ℓ} → Map V → List V
values [] = []
values ((k, v) ∷ m) = v ∷ values m

abbrev pub first_resolved : Option HistoryEntry → Option Favorite → Option Resolved
first_resolved (some entry) favorite = some (resolved_from_history entry)
first_resolved none (some favorite) = some (resolved_from_favorite favorite)
first_resolved none none = none

unfoldable pub by_origin_key : Text → State → Option Resolved
by_origin_key id s =
    first_resolved (find (λ e. text_eq e.origin_key id) s.history.entries) (get id s.favorites)

unfoldable pub by_digest : Text → State → Option Resolved
by_digest id s =
    first_resolved (find (λ e. option_eq e.digest (some id)) s.history.entries)
      (find (λ f. option_eq f.digest (some id)) (values s.favorites))

unfoldable pub resolve : Text → State → Option Resolved
resolve id s = elim (by_origin_key id s) [
  | some resolved ↦ some resolved
  | none ↦ if is_digest id then by_digest id s else none
]

resolved_of_current : Option Current → Option Resolved
resolved_of_current none = none
resolved_of_current (some current) = elim current.origin_key [
  | none ↦ none
  | some origin_key ↦ some (record {
    origin_key = origin_key;
    digest = some current.digest;
    kind = current.kind;
    path = current.path;
  })
]

unfoldable pub current_resolved : State → Option Resolved
unfolding resolved_of_current
current_resolved s = resolved_of_current s.current

-- `Ord::clamp`, for a lower bound that is not above the upper one.
unfoldable pub clamp : ℤ → ℤ → ℤ → ℤ
clamp low high n = if ltb_ℤ n low then low else if ltb_ℤ high n then high else n

unfoldable pub next_in_s : State → ℤ → ℕ → Option ℤ
unfolding clamp as_i64 ◌-ℤ◌
next_in_s s now interval_seconds = if s.paused then none else elim s.next_at [
  | none ↦ none
  | some next_at ↦ some (clamp (pos 0) (as_i64 interval_seconds) (next_at -ℤ now))
]

-- An element of a set of texts, where there is one.
abbrev pub insert_some : Option Text → List Text → List Text
insert_some none texts = texts
insert_some (some text) texts = text ∷ texts

-- The digests and the paths that the favorites name.
unfoldable pub favorite_digests : Map Favorite → List Text
favorite_digests [] = []
favorite_digests ((key, favorite) ∷ rest) = insert_some favorite.digest (favorite_digests rest)

unfoldable pub favorite_paths : Map Favorite → List Text
favorite_paths [] = []
favorite_paths ((key, favorite) ∷ rest) = insert_some favorite.path (favorite_paths rest)

abbrev pub anchor_digest_of : Option Current → Option Text
anchor_digest_of none = none
anchor_digest_of (some current) = some current.digest

abbrev pub anchor_paths_of : Option Current → List Text
anchor_paths_of none = []
anchor_paths_of (some current) = insert_some current.path []

unfoldable pub protected_set : State → Protected
unfolding favorite_digests favorite_paths
protected_set s = record {
  anchor_digest = anchor_digest_of s.current;
  anchor_paths = anchor_paths_of s.current;
  pinned_digests = favorite_digests s.favorites;
  pinned_paths = favorite_paths s.favorites;
  degraded = s.favorites_degraded;
}

is_some : Option Text → Bool
is_some none = false
is_some (some text) = true

-- Whether the newest entry names the image that the anchor is.
unfoldable pub names_anchor : Current → HistoryEntry → Bool
unfolding is_some
names_anchor anchor entry =
    option_eq entry.digest (some anchor.digest)
    || (is_some entry.path && option_eq entry.path anchor.path)

text_or_default : Option Text → Text
text_or_default none = []
text_or_default (some text) = text

unfoldable pub rebuilt : Option Current → List HistoryEntry → Option Current
unfolding text_or_default names_anchor
rebuilt (some anchor) (entry ∷ older) =
    let named = names_anchor anchor entry in
    some (record {
      origin_key = if named then some entry.origin_key else none;
      via = if named then some entry.via else none;
      kind = if named then entry.kind else external;
      at = if text_eq anchor.at [] then entry.set_at else anchor.at;
      digest = anchor.digest;
      path = anchor.path;
    })
rebuilt (some anchor) [] = some (record anchor { origin_key = none; via = none; kind = external })
rebuilt none (entry ∷ older) = some (record {
  digest = text_or_default entry.digest;
  origin_key = some entry.origin_key;
  via = some entry.via;
  kind = entry.kind;
  path = entry.path;
  at = entry.set_at;
})
rebuilt none [] = none

-- Nothing has been read back where the anchor comes from the history.
verified_after : Option Current → List HistoryEntry → Bool → Bool
verified_after none (entry ∷ older) verified = false
verified_after none [] verified = verified
verified_after (some anchor) entries verified = verified

unfoldable pub rebuild_current : State → State
unfolding rebuilt verified_after
rebuild_current s = record s {
  current = rebuilt s.current s.history.entries;
  anchor_verified = verified_after s.current s.history.entries s.anchor_verified;
}
