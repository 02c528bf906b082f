-- ===== src/Daemon/Transition/Step.antt =====
-- What one method does to the sequence number, the events and the rotation in flight.
use whirl.Prelude.{
  ℕ, ◌+◌, ◌≡◌, ◌≢◌, refl, ap, ◌∙◌, ◌∷◌, true, false, Option, none, some, Text, Option-cases,
  Bool-cases, inl, inr, arith,
}
use whirl.Events.{
  Event, rotate_start, rotate_ok, rotate_failed, paused, resumed, favorite_added, favorite_removed,
  clock_jump, heartbeat, config_reloaded, cache_swept,
}
use whirl.Map.{contains_key}
use whirl.Daemon.{Resolved, State, Env, Daemon, announce}
use whirl.Daemon.Save.{save_current, save_history, save_favorites}
use whirl.Daemon.Transition.{
  start_rotation, start_slot, succeeded, record_success, record_failure, spend_slot,
  record_clock_jump, announce_heartbeat, set_paused, add_favorite, or_dash, favorite_named,
  remove_favorite,
}
use whirl.Daemon.Rotation.{Reread, loaded, rejected, SweepEnd, reconfigure, record_sweep}
use whirl.Daemon.Transition.Run.{
  Command, begin, claim_slot, succeed, fail, spend, jump, beat, pause, pin, unpin, reread, report,
  perform,
}

-- The rotation that an event leaves in flight, given the one before it.
abbrev pub flight_after : Event → Option ℕ → Option ℕ
flight_after (rotate_start run) old = some run
flight_after (rotate_ok digest origin_key via path) old = none
flight_after (rotate_failed code message) old = none
flight_after e old = old

-- No event and no change of the flight; or one event with the next number, which says the change.
pub data Step (d d' : Daemon) : Type 0 where
  quiet :
      d'.state.seq ≡ d.state.seq
      → d'.events ≡ d.events
      → d'.state.running ≡ d.state.running
      → (k : ℕ) → d'.state.slot ≡ d.state.slot + k
      → Step d d'
  began :
      d.state.running ≡ none
      → d'.state.seq ≡ d.state.seq + 1
      → d'.events ≡ (d.state.seq + 1, rotate_start d.state.slot) ∷ d.events
      → d'.state.running ≡ some d.state.slot
      → d'.state.slot ≡ d.state.slot + 1
      → Step d d'
  told :
      (e : Event)
      → ((run : ℕ) → e ≢ rotate_start run)
      → d'.state.seq ≡ d.state.seq + 1
      → d'.events ≡ (d.state.seq + 1, e) ∷ d.events
      → d'.state.running ≡ flight_after e d.state.running
      → d'.state.slot ≡ d.state.slot
      → Step d d'

abbrev Same : Daemon → Daemon → Type 0
Same d d' =
    (d'.state.seq ≡ d.state.seq)
    × (d'.events ≡ d.events)
    × (d'.state.running ≡ d.state.running)
    × (d'.state.slot ≡ d.state.slot)

save_current-Same : (env : Env) (d : Daemon) → Same d (save_current env d)
unfolding save_current
save_current-Same env d = ground arith

save_history-Same : (env : Env) (d : Daemon) → Same d (save_history env d)
unfolding save_history
save_history-Same env d = ground arith

save_favorites-Same : (env : Env) (d : Daemon) → Same d (save_favorites env d)
unfolding save_favorites
save_favorites-Same env d = ground arith

-- A step, and then a write of files.
then-Same : (d d' d'' : Daemon) → Step d d' → Same d' d'' → Step d d''
then-Same d d' d'' (quiet s e r k l) (s', e', r', l') = quiet (s' ∙ s) (e' ∙ e) (r' ∙ r) k (l' ∙ l)
then-Same d d' d'' (began o s e r l) (s', e', r', l') = began o (s' ∙ s) (e' ∙ e) (r' ∙ r) (l' ∙ l)
then-Same d d' d'' (told e other s es r l) (s', e', r', l') =
    told e other (s' ∙ s) (e' ∙ es) (r' ∙ r) (l' ∙ l)

start-idle :
    (env : Env) (d : Daemon)
    → d.state.running ≡ none
    → (start_rotation env d).1
      ≡ announce (rotate_start d.state.slot) (record d {
        state = record d.state {
          slot = d.state.slot + 1;
          last_run = d.state.slot;
          running = some d.state.slot;
          cache_writable = env.probe_cache_writable;
        };
      })
unfolding start_rotation
start-idle env d h = ground arith

start-busy :
    (env : Env) (d : Daemon) (run : ℕ) → d.state.running ≡ some run → (start_rotation env d).1 ≡ d
unfolding start_rotation
start-busy env d run h = ground arith

abbrev pub with_state : State → Daemon → Daemon
with_state s d = record d { state = s }

-- A change of the state that is announced, before its files are written.
announced :
    (e : Event) (d : Daemon) (s : State)
    → ((run : ℕ) → e ≢ rotate_start run)
    → s.seq ≡ d.state.seq
    → s.running ≡ flight_after e d.state.running
    → s.slot ≡ d.state.slot
    → Step d (announce e (with_state s d))
unfolding announce
announced e d s other q r l =
    told e other (ap (λ n. n + 1) q) (ap (λ n. (n + 1, e) ∷ d.events) q) r l

saved_current :
    (env : Env) (e : Event) (d : Daemon) (s : State)
    → ((run : ℕ) → e ≢ rotate_start run)
    → s.seq ≡ d.state.seq
    → s.running ≡ flight_after e d.state.running
    → s.slot ≡ d.state.slot
    → Step d (save_current env (announce e (with_state s d)))
saved_current env e d s other q r l =
    then-Same d (announce e (with_state s d)) _ (announced e d s other q r l)
      (save_current-Same env _)

saved_favorites :
    (env : Env) (e : Event) (d : Daemon) (s : State)
    → ((run : ℕ) → e ≢ rotate_start run)
    → s.seq ≡ d.state.seq
    → s.running ≡ flight_after e d.state.running
    → s.slot ≡ d.state.slot
    → Step d (save_favorites env (announce e (with_state s d)))
saved_favorites env e d s other q r l =
    then-Same d (announce e (with_state s d)) _ (announced e d s other q r l)
      (save_favorites-Same env _)

pin-Step : (env : Env) (resolved : Resolved) (d : Daemon) → Step d (add_favorite env resolved d).1
unfolding add_favorite
pin-Step env resolved d = elim (Bool-cases (contains_key resolved.origin_key d.state.favorites)) [
  | inl there ↦ rw (there, add_favorite) (quiet refl refl refl 0 (omega arith))
  | inr new ↦
      rw (new, add_favorite)
        (saved_favorites env (favorite_added (or_dash resolved.digest) resolved.origin_key) d _
          (λ run. cc) refl refl refl)
]

unpin-Step : (env : Env) (id : Text) (d : Daemon) → Step d (remove_favorite env id d).1
unfolding remove_favorite
unpin-Step env id d = elim (Option-cases (favorite_named id d.state)) [
  | inl unknown ↦ rw (unknown, remove_favorite) (quiet refl refl refl 0 (omega arith))
  | inr ((key, favorite), found) ↦
      rw (found, remove_favorite)
        (saved_favorites env (favorite_removed (or_dash favorite.digest)) d _ (λ run. cc) refl refl
          refl)
]

spend-Step :
    (env : Env) (d : Daemon) (s : State)
    → s.seq ≡ d.state.seq
    → s.running ≡ d.state.running
    → s.slot ≡ d.state.slot
    → Step d (save_current env (with_state s d))
spend-Step env d s q r l =
    then-Same d (with_state s d) _ (quiet q refl r 0 (omega arith)) (save_current-Same env _)

begin-Step : (env : Env) (d : Daemon) → Step d (start_rotation env d).1
unfolding announce
begin-Step env d = elim (Option-cases d.state.running) [
  | inl idle ↦ rw (start-idle env d idle) (began idle refl refl refl refl)
  | inr (run, busy) ↦ rw (start-busy env d run busy) (quiet refl refl refl 0 (omega arith))
]

reread-Step : (outcome : Reread) (d : Daemon) → Step d (reconfigure outcome d)
unfolding reconfigure
reread-Step loaded d = announced config_reloaded d d.state (λ run. cc) refl refl refl
reread-Step rejected d = quiet refl refl refl 0 (omega arith)

report-Step : (end : SweepEnd) (d : Daemon) → Step d (record_sweep end d)
unfolding record_sweep
report-Step end d = elim (Option-cases end.swept) [
  | inl e ↦ rw (e, record_sweep) (quiet refl refl refl 0 (omega arith))
  | inr (s, e) ↦ rw (e, record_sweep) (announced (cache_swept _ _ _) d _ (λ run. cc) refl refl refl)
]

-- Every method of the daemon broadcasts at most one event, under the number after the last, and leaves
-- in flight what the event says; a start is under the number `slot`, where nothing is in flight.
pub perform-Step : (command : Command) (d : Daemon) → Step d (perform command d)
unfolding start_slot record_success record_failure spend_slot record_clock_jump announce_heartbeat
    set_paused succeeded
perform-Step (begin env) d = begin-Step env d
perform-Step claim_slot d = quiet refl refl refl 1 refl
perform-Step (succeed env digest origin_key via path) d =
    then-Same d _ _
      (saved_current env (rotate_ok digest origin_key _ path) d
        (succeeded env digest origin_key via path d.state) (λ run. cc) refl refl refl)
      (save_history-Same env _)
perform-Step (fail env code message) d =
    saved_current env (rotate_failed code message) d _ (λ run. cc) refl refl refl
perform-Step (spend env next_at) d = spend-Step env d _ refl refl refl
perform-Step (jump env seconds next_at) d =
    saved_current env (clock_jump seconds) d _ (λ run. cc) refl refl refl
perform-Step (beat env) d = announced (heartbeat env.now) d d.state (λ run. cc) refl refl refl
perform-Step (pause env true) d = saved_current env paused d _ (λ run. cc) refl refl refl
perform-Step (pause env false) d = saved_current env resumed d _ (λ run. cc) refl refl refl
perform-Step (pin env resolved) d = pin-Step env resolved d
perform-Step (unpin env id) d = unpin-Step env id d
perform-Step (reread outcome) d = reread-Step outcome d
perform-Step (report end) d = report-Step end d
