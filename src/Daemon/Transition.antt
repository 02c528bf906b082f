-- ===== src/Daemon/Transition.antt =====
-- The methods of `Daemon` that change its state, each with its event and the files it writes.
pub mod Run
pub mod Step
pub mod Numbered
pub mod Flight
pub mod Guard
use whirl.Prelude.{
  ℕ, ◌+◌, List, [], ◌∷◌, ◌++◌, Bool, true, false, not, ◌&&◌, Option, none, some, Text, codes,
  text_eq, option_eq, ◌==◌, find, if◌then◌else◌,
}
use whirl.Prelude.Int.{ℤ}
use whirl.Map.{Map, get, contains_key, insert, remove}
use whirl.Timestamp.{rfc3339_utc}
use whirl.Schedule.{rearmed_from}
use whirl.Vocabulary.Kind.{Kind}
use whirl.Vocabulary.Via.{Via}
use whirl.Vocabulary.ErrorCode.{ErrorCode}
use whirl.Vocabulary
use whirl.State.{HistoryEntry, Favorite, FavoriteState, present, missing, unrecoverable, push}
use whirl.Events.{
  Event, rotate_start, rotate_ok, rotate_failed, paused, resumed, favorite_added, favorite_removed,
  clock_jump, heartbeat,
}
use whirl.Cache.{images_dir}
use whirl.Cache.Disk.{is_under}
use whirl.Daemon.{
  Current, State, Resolved, SourceKind, LocalMode, reference, copy, SourceConfig, Env, Daemon,
  announce,
}
use whirl.Daemon.Resolve.{resolve}
use whirl.Daemon.Save.{save_current, save_history, save_favorites}

-- The text before the first colon, where there is one.
split_once : Text → Option Text
split_once [] = none
split_once (b ∷ rest) =
    if b == b':'
    then some []
    else elim (split_once rest) [ none ↦ none | some before ↦ some (b ∷ before) ]

unfoldable pub source_of : Env → Text → Option SourceConfig
unfolding split_once
source_of env origin_key =
    find (λ source. option_eq (some source.id) (split_once origin_key)) env.config.sources

kind_of_source : Option SourceConfig → Kind
kind_of_source none = Vocabulary.Kind.external
kind_of_source (some source) = elim source.kind [
  | SourceKind.local ↦ Vocabulary.Kind.local
  | SourceKind.wallhaven ↦ Vocabulary.Kind.wallhaven
]

unfoldable pub kind_of : Env → Text → Kind
unfolding source_of kind_of_source
kind_of env origin_key = kind_of_source (source_of env origin_key)

is_reference : Option LocalMode → Bool
is_reference none = false
is_reference (some reference) = true
is_reference (some copy) = false

referenced : Option SourceConfig → Bool
unfolding is_reference
referenced none = false
referenced (some source) = is_reference source.local

unfoldable pub recorded_path : Env → Text → Option Text → Option Text
unfolding source_of referenced
recorded_path env origin_key none = none
recorded_path env origin_key (some path) =
    if referenced (source_of env origin_key) && not (is_under (images_dir env.cache_dir) path)
    then none
    else some path

-- `Err(run)` is the run in flight.
pub data Started : Type 0 where
  started refused : ℕ → Started

unfoldable pub start_rotation : Env → Daemon → Started × Daemon
unfolding announce
start_rotation env d = elim d.state.running [
  | some run ↦ (refused run, d)
  | none ↦
      let run = d.state.slot in
      (
        started run,
        announce (rotate_start run) (record d {
          state = record d.state {
            slot = run + 1;
            last_run = run;
            running = some run;
            cache_writable = env.probe_cache_writable;
          };
        }),
      )
]

unfoldable pub start_slot : Daemon → ℕ × Daemon
start_slot d =
    let run = d.state.slot in
    (run, record d { state = record d.state { slot = run + 1; last_run = run } })

unfoldable pub succeeded : Env → Text → Text → Via → Option Text → State → State
unfolding push
succeeded env digest origin_key via path s =
    let at = rfc3339_utc env.now in
    record s {
      running = none;
      rotation_count = s.rotation_count + 1;
      last_error = none;
      anchor_verified = true;
      current = some (record {
        digest = digest;
        origin_key = some origin_key;
        via = some via;
        kind = kind_of env origin_key;
        path = recorded_path env origin_key path;
        at = at;
      });
      history =
          push
            (record {
              set_at = at;
              via = via;
              kind = kind_of env origin_key;
              origin_key = origin_key;
              digest = some digest;
              path = recorded_path env origin_key path;
            })
            s.history;
    }

unfoldable pub record_success : Env → Text → Text → Via → Option Text → Daemon → Daemon
unfolding announce succeeded save_current save_history
record_success env digest origin_key via path d = save_history env (
    save_current env (
      announce (rotate_ok digest origin_key (Vocabulary.Via.as_str via) path)
        (record d { state = succeeded env digest origin_key via path d.state })))

unfoldable pub record_failure : Env → ErrorCode → Text → Daemon → Daemon
unfolding announce save_current
record_failure env code message d = save_current env (
    announce (rotate_failed code message)
      (record d { state = record d.state { running = none; last_error = some code } }))

unfoldable pub spend_slot : Env → ℤ → Daemon → Daemon
unfolding save_current
spend_slot env next_at d =
    save_current env (record d { state = record d.state { next_at = some next_at } })

unfoldable pub record_clock_jump : Env → ℤ → ℤ → Daemon → Daemon
unfolding announce save_current
record_clock_jump env seconds next_at d = save_current env (
    announce (clock_jump seconds) (record d {
      state = record d.state { clock_jump = d.state.clock_jump + 1; next_at = some next_at };
    }))

unfoldable pub announce_heartbeat : Env → Daemon → Daemon
unfolding announce
announce_heartbeat env d = announce (heartbeat env.now) d

unfoldable pub set_paused : Env → Bool → Daemon → Daemon
unfolding announce save_current
set_paused env pause d = save_current env (
    announce (if pause then paused else resumed) (record d {
      state = record d.state {
        paused = pause;
        next_at =
            if pause
            then d.state.next_at
            else some (rearmed_from env.now env.config.interval_seconds);
      };
    }))

-- `favorite_state_of`: whether the file that a pin names exists.
unfoldable pub favorite_state : Env → Option Text → FavoriteState
favorite_state env none = unrecoverable
favorite_state env (some path) = if env.exists path then present else missing

abbrev pub or_dash : Option Text → Text
or_dash none = codes "-"
or_dash (some digest) = digest

unfoldable pub favorite_of : Env → Resolved → Favorite
unfolding favorite_state
favorite_of env resolved = record {
  added_at = rfc3339_utc env.now;
  kind = resolved.kind;
  origin_key = resolved.origin_key;
  digest = resolved.digest;
  state = favorite_state env resolved.path;
  path = resolved.path;
}

unfoldable pub add_favorite : Env → Resolved → Daemon → Bool × Daemon
unfolding announce save_favorites favorite_of contains_key
add_favorite env resolved d =
    if contains_key resolved.origin_key d.state.favorites then (false, d) else (
      true,
      save_favorites env (
          announce (favorite_added (or_dash resolved.digest) resolved.origin_key) (record d {
            state = record d.state {
              favorites = insert resolved.origin_key (favorite_of env resolved) d.state.favorites;
            };
          })),
    )

-- The favorite that an id resolves to, with its key.
unfoldable pub favorite_named : Text → State → Option (Text × Favorite)
unfolding resolve
favorite_named id s = elim (resolve id s) [
  | none ↦ none
  | some resolved ↦ elim (get resolved.origin_key s.favorites) [
    | none ↦ none
    | some favorite ↦ some (resolved.origin_key, favorite)
  ]
]

unfoldable pub remove_favorite : Env → Text → Daemon → Option Text × Daemon
unfolding announce save_favorites favorite_named
remove_favorite env id d = elim (favorite_named id d.state) [
  | none ↦ (none, d)
  | some (key, favorite) ↦ (
    some (or_dash favorite.digest),
    save_favorites env (
        announce (favorite_removed (or_dash favorite.digest))
          (record d { state = record d.state { favorites = remove key d.state.favorites } })),
  )
]
