-- ===== src/Daemon/Lookup.antt =====
-- What an id resolves to, and what a pin changes of it.
use whirl.Prelude.{◌≡◌, ◌≢◌, true, Option, none, some, Text, All}
use whirl.Map.{Map, get}
use whirl.Sha256.Digest.{is_digest}
use whirl.State.{HistoryEntry, Favorite}
use whirl.Daemon.{State, Resolved}
use whirl.Daemon.Resolve.{values}

-- Each favorite is kept under its origin key.
abbrev pub Keyed : Map Favorite → Type 0
Keyed favorites =
    (key : Text) (favorite : Favorite)
    → get key favorites ≡ some favorite
    → favorite.origin_key ≡ key

-- Nothing of the state has that origin.
pub record Unseen (id : Text) (s : State) : Type 0 where
  pub history_has_none : All (λ (e : HistoryEntry). e.origin_key ≢ id) s.history.entries
  pub no_favorite : get id s.favorites ≡ none

-- What the lookup of an id answers.
pub data Answer (id : Text) (s : State) : Option Resolved → Type 0 where
  origin : (resolved : Resolved) → resolved.origin_key ≡ id → Answer id s (some resolved)
  content :
      (resolved : Resolved)
      → Unseen id s
      → is_digest id ≡ true
      → resolved.digest ≡ some id
      → Answer id s (some resolved)
  nothing :
      Unseen id s
      → (is_digest id ≡ true → All (λ (e : HistoryEntry). e.digest ≢ some id) s.history.entries)
      → (is_digest id ≡ true → All (λ (f : Favorite). f.digest ≢ some id) (values s.favorites))
      → Answer id s none
