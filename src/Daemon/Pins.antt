-- ===== src/Daemon/Pins.antt =====
-- The favorites over any sequence of the daemon's methods, and the deadline that `status` reports.
use whirl.Prelude.{
  ℕ, ◌^◌, ◌<◌, ◌≡◌, refl, sym, subst, List, [], ◌∷◌, false, some, Text, text_eq_iff, Option-cases,
  Bool-cases, inl, inr, if◌then◌else◌, arith,
}
use whirl.Prelude.Int.{ℤ, pos, ◌≤ℤ◌}
use whirl.Map.{Map, get-insert, get-remove, insert, remove, contains_key}
use whirl.Schedule.{as_i64}
use whirl.Vocabulary
use whirl.Events.{rotate_ok}
use whirl.State.{Favorite}
use whirl.Daemon.{State, Resolved, Env, Daemon, announce}
use whirl.Daemon.Lookup.{Keyed}
use whirl.Daemon.Resolve.{clamp, next_in_s}
use whirl.Daemon.Save.{save_current, save_history, save_favorites}
use whirl.Daemon.Transition.{
  start_rotation, start_slot, succeeded, record_success, record_failure, spend_slot,
  record_clock_jump, announce_heartbeat, set_paused, add_favorite, favorite_of, favorite_named,
  remove_favorite,
}
use whirl.Daemon.Rotation.{loaded, rejected, SweepEnd, reconfigure, record_sweep}
use whirl.Daemon.Transition.Run.{
  Command, begin, claim_slot, succeed, fail, spend, jump, beat, pause, pin, unpin, reread, report,
  perform, perform_all,
}

save_current-favorites :
    (env : Env) (d : Daemon) → (save_current env d).state.favorites ≡ d.state.favorites
unfolding save_current
save_current-favorites env d = ground arith

save_history-favorites :
    (env : Env) (d : Daemon) → (save_history env d).state.favorites ≡ d.state.favorites
unfolding save_history
save_history-favorites env d = ground arith

save_favorites-favorites :
    (env : Env) (d : Daemon) → (save_favorites env d).state.favorites ≡ d.state.favorites
unfolding save_favorites
save_favorites-favorites env d = ground arith

current-Keyed :
    (env : Env) (d : Daemon) → Keyed d.state.favorites → Keyed (save_current env d).state.favorites
current-Keyed env d h = subst Keyed (sym (save_current-favorites env d)) h

history-Keyed :
    (env : Env) (d : Daemon) → Keyed d.state.favorites → Keyed (save_history env d).state.favorites
history-Keyed env d h = subst Keyed (sym (save_history-favorites env d)) h

start_rotation-favorites :
    (env : Env) (d : Daemon) → (start_rotation env d).1.state.favorites ≡ d.state.favorites
unfolding start_rotation announce
start_rotation-favorites env d = ground arith

add_favorite-favorites :
    (env : Env) (resolved : Resolved) (d : Daemon)
    → (add_favorite env resolved d).1.state.favorites ≡ (
        if contains_key resolved.origin_key d.state.favorites
        then d.state.favorites
        else insert resolved.origin_key (favorite_of env resolved) d.state.favorites)
unfolding add_favorite announce
add_favorite-favorites env resolved d =
    elim (Bool-cases (contains_key resolved.origin_key d.state.favorites)) [
      | inl there ↦ rw (there, add_favorite) refl
      | inr new ↦ rw (new, add_favorite) (save_favorites-favorites env _)
    ]

add-Keyed :
    (env : Env) (resolved : Resolved) (d : Daemon)
    → Keyed d.state.favorites
    → Keyed (add_favorite env resolved d).1.state.favorites
unfolding favorite_of
add-Keyed env resolved d keyed key favorite h = ground (
  arith,
  add_favorite-favorites env resolved d,
  get-insert resolved.origin_key key (favorite_of env resolved) d.state.favorites,
  text_eq_iff resolved.origin_key key,
  keyed key favorite,
)

remove_favorite-favorites :
    (env : Env) (id key : Text) (favorite : Favorite) (d : Daemon)
    → favorite_named id d.state ≡ some (key, favorite)
    → (remove_favorite env id d).1.state.favorites ≡ remove key d.state.favorites
unfolding remove_favorite announce
remove_favorite-favorites env id key favorite d found =
    rw (found, remove_favorite) (save_favorites-favorites env _)

without-Keyed :
    (key : Text) (favorites : Map Favorite) → Keyed favorites → Keyed (remove key favorites)
without-Keyed key favorites keyed q f h = keyed q f (ground (arith, h, get-remove key q favorites))

remove-Keyed :
    (env : Env) (id : Text) (d : Daemon)
    → Keyed d.state.favorites
    → Keyed (remove_favorite env id d).1.state.favorites
unfolding remove_favorite
remove-Keyed env id d keyed = elim (Option-cases (favorite_named id d.state)) [
  | inl unknown ↦ rw (unknown, remove_favorite) keyed
  | inr ((key, favorite), found) ↦
      subst Keyed (sym (remove_favorite-favorites env id key favorite d found))
        (without-Keyed key d.state.favorites keyed)
]

record_sweep-favorites :
    (end : SweepEnd) (d : Daemon) → (record_sweep end d).state.favorites ≡ d.state.favorites
unfolding record_sweep
record_sweep-favorites end d = ground arith

perform-Keyed :
    (command : Command) (d : Daemon)
    → Keyed d.state.favorites
    → Keyed (perform command d).state.favorites
unfolding start_slot record_success record_failure spend_slot record_clock_jump announce_heartbeat
    set_paused succeeded announce reconfigure
perform-Keyed (begin env) d h = subst Keyed (sym (start_rotation-favorites env d)) h
perform-Keyed claim_slot d h = h
perform-Keyed (succeed env digest origin_key via path) d h =
    let told =
      announce (rotate_ok digest origin_key (Vocabulary.Via.as_str via) path)
        (record d { state = succeeded env digest origin_key via path d.state }) in
    history-Keyed env (save_current env told) (current-Keyed env told h)
perform-Keyed (fail env code message) d h = current-Keyed env _ h
perform-Keyed (spend env next_at) d h = current-Keyed env _ h
perform-Keyed (jump env seconds next_at) d h = current-Keyed env _ h
perform-Keyed (beat env) d h = h
perform-Keyed (pause env b) d h = current-Keyed env _ h
perform-Keyed (pin env resolved) d h = add-Keyed env resolved d h
perform-Keyed (unpin env id) d h = remove-Keyed env id d h
perform-Keyed (reread loaded) d h = h
perform-Keyed (reread rejected) d h = h
perform-Keyed (report end) d h = subst Keyed (sym (record_sweep-favorites end d)) h

-- Whatever is asked of the daemon, each favorite stays under its origin key.
perform_all-Keyed :
    (commands : List Command) (d : Daemon)
    → Keyed d.state.favorites
    → Keyed (perform_all commands d).state.favorites
perform_all-Keyed [] d h = h
perform_all-Keyed (command ∷ rest) d h =
    perform_all-Keyed rest (perform command d) (perform-Keyed command d h)

-- The countdown that `status` reports is never negative and never above one interval, and there is none
-- while the schedule is suspended. The interval is one that an i64 can hold.
pub next_in_s_bounds :
    (s : State) (now n : ℤ) (interval_seconds : ℕ)
    → interval_seconds < 2 ^ 63
    → next_in_s s now interval_seconds ≡ some n
    → (s.paused ≡ false) × (pos 0 ≤ℤ n) × (n ≤ℤ pos interval_seconds)
unfolding next_in_s clamp as_i64
next_in_s_bounds s now n interval_seconds small h = ground arith
