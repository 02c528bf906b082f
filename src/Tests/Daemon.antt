-- ===== src/Tests/Daemon.antt =====
-- A daemon that rotates, pins what it shows, and is paused.
use whirl.Prelude.{◌≡◌, refl, List, [], ◌∷◌, true, none, some, codes, text_eq}
use whirl.Prelude.Int.{pos}
use whirl.Map.{get}
use whirl.Vocabulary.Via.{source}
use whirl.Vocabulary.Kind.{local}
use whirl.Cache.Evict.{Rules}
use whirl.Cache.Sweep.{sweep}
use whirl.State.{Favorite, missing}
use whirl.Daemon.{State, Env, Daemon, Resolved, new_state}
use whirl.Daemon.Resolve.{protected_set}
use whirl.Daemon.Protects.{Holds, pinned_at, sweep_keeps_state}
use whirl.Daemon.Transition.Run.{Command, begin, succeed, pin, pause, perform_all}
use whirl.Daemon.Transition.Numbered.{Numbered, perform_all-Numbered}
use whirl.Daemon.Transition.Guard.{LeavesMarked, perform_all-LeavesMarked}
use whirl.Daemon.Transition.Flight.{InOrder, perform_all-InOrder}
use whirl.Tests.Cache.{root, pinned_image, disk, config, pin_is_image}

abbrev pub env : Env
env = record {
  now = pos 1_000;
  pid = 7;
  version = codes "0.1.0";
  cache_dir = root;
  config = record {
    interval_seconds = 1_800;
    sources = [];
    cache = config;
    display_mode = codes "fill";
  };
  disk = disk;
  probe_cache_writable = true;
  current_writable = true;
  history_writable = true;
  favorites_writable = true;
  exists = λ path. true;
}

abbrev pub first_state : State
first_state = new_state 50

abbrev pub first_daemon : Daemon
first_daemon = record {
  state = first_state;
  events = [];
  current_file = none;
  history_file = none;
  favorites_file = none;
}

abbrev resolved : Resolved
resolved = record {
  origin_key = codes "shots:1.jpg";
  digest = none;
  kind = local;
  path = some pinned_image;
}

abbrev commands : List Command
commands =
    begin env
    ∷ succeed env (codes "abc") (codes "shots:1.jpg") source (some pinned_image)
    ∷ pin env resolved
    ∷ pause env true
    ∷ []

Numbered-from_start : Numbered 0 first_state.seq []
unfolding new_state
Numbered-from_start = refl

perform_all-Numbered_example :
    Numbered 0
      (perform_all commands first_daemon).state.seq
      (perform_all commands first_daemon).events
perform_all-Numbered_example = perform_all-Numbered 0 commands first_daemon Numbered-from_start

InOrder-from_start : InOrder first_daemon
unfolding new_state
InOrder-from_start = (refl, tt)

perform_all-InOrder_example : InOrder (perform_all commands first_daemon)
perform_all-InOrder_example = perform_all-InOrder commands first_daemon InOrder-from_start

abbrev favorite : Favorite
favorite = record {
  added_at = codes "2026-01-01T00:00:00Z";
  kind = local;
  origin_key = codes "shots:1.jpg";
  digest = none;
  state = missing;
  path = some pinned_image;
}

abbrev pinned_state : State
pinned_state = record first_state {
  favorites = (codes "shots:1.jpg", favorite) ∷ [];
  next_at = some (pos 1_500);
}

Holds-pin : Holds pinned_state pinned_image
unfolding get text_eq
Holds-pin = pinned_at (codes "shots:1.jpg") favorite refl refl

abbrev rules_of_state : Rules
rules_of_state = record {
  root = root;
  config = config;
  protected = protected_set pinned_state;
  now = pos 1_000;
}

sweep_keeps_state_example :
    get pinned_image (sweep rules_of_state (codes "id") disk).1.files ≡ get pinned_image disk.files
sweep_keeps_state_example =
    sweep_keeps_state rules_of_state pinned_state pinned_image (codes "id") disk refl pin_is_image
      Holds-pin

-- A daemon that found a `current.json` of a newer schema.
abbrev marked_daemon : Daemon
marked_daemon = record first_daemon { state = record first_state { read_only_current = true } }

perform_all-LeavesMarked_example : LeavesMarked marked_daemon (perform_all commands marked_daemon)
perform_all-LeavesMarked_example = perform_all-LeavesMarked commands marked_daemon
