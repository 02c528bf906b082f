-- ===== src/State.antt =====
-- The records and the history ring of crates/whirl-core/src/state.rs.
pub mod Ring
pub mod Line
use whirl.Prelude.{
  ℕ, zero, suc, List, [], ◌∷◌, Bool, true, false, not, Option, none, some, Text, codes, text_eq,
  option_eq, ◌==◌, leb, length, drop, find, if◌then◌else◌,
}
use whirl.Vocabulary.Kind.{Kind}
use whirl.Vocabulary.Via.{Via}

pub record HistoryEntry : Type 0 where
  pub set_at : Text
  pub via : Via
  pub kind : Kind
  pub origin_key : Text
  pub digest : Option Text
  pub path : Option Text

pub data FavoriteState : Type 0 where
  present missing unrecoverable : FavoriteState

pub record Favorite : Type 0 where
  pub added_at : Text
  pub kind : Kind
  pub origin_key : Text
  pub digest : Option Text
  pub state : FavoriteState
  pub path : Option Text

-- The entries are the deque from its front, the newest first.
pub record HistoryRing : Type 0 where
  pub entries : List HistoryEntry
  pub bound : ℕ

unfoldable pub new_ring : ℕ → HistoryRing
new_ring bound = record { entries = []; bound = if leb bound 1 then 1 else bound }

-- `VecDeque::pop_back`.
unfoldable pub pop_back : List HistoryEntry → List HistoryEntry
pop_back [] = []
pop_back (e ∷ []) = []
pop_back (e ∷ f ∷ rest) = e ∷ pop_back (f ∷ rest)

-- `while entries.len() >= bound`: each round takes one entry, so as many rounds as there are entries are
-- enough for a bound that is not 0.
unfoldable pub pop_to : ℕ → ℕ → List HistoryEntry → List HistoryEntry
unfolding pop_back
pop_to zero bound entries = entries
pop_to (suc fuel) bound entries =
    let rest = pop_to fuel bound (pop_back entries) in
    if leb bound (length entries) then rest else entries

unfoldable pub push : HistoryEntry → HistoryRing → HistoryRing
unfolding pop_to
push entry ring =
    if ring.bound == 0
    then ring
    else record ring { entries = entry ∷ pop_to (length ring.entries) ring.bound ring.entries }

unfoldable pub position : (HistoryEntry → Bool) → List HistoryEntry → Option ℕ
position p [] = none
position p (e ∷ rest) =
    if p e then some 0 else elim (position p rest) [ none ↦ none | some i ↦ some (suc i) ]

-- The entry that the walk begins at.
unfoldable pub walk_start : Option Text → List HistoryEntry → ℕ
unfolding position
walk_start none entries = 0
walk_start (some digest) entries = elim (position (λ e. option_eq e.digest (some digest)) entries) [
  | none ↦ 0
  | some i ↦ i
]

unfoldable pub prev_from : Option Text → HistoryRing → Option HistoryEntry
unfolding walk_start
prev_from anchor_digest ring =
    find (λ e. not (option_eq e.digest anchor_digest))
      (drop (walk_start anchor_digest ring.entries) ring.entries)
