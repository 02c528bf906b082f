-- ===== src/Daemon/Transition/Guard.antt =====
-- A state file that is read-only is not written: the file of a newer schema is left as it is.
use whirl.Prelude.{
  ◌≡◌, refl, ◌∙◌, List, [], ◌∷◌, true, false, Text, Option-cases, Bool-cases, inl, inr, arith,
}
use whirl.Map.{contains_key}
use whirl.Vocabulary
use whirl.Events.{
  Event, rotate_ok, rotate_failed, favorite_added, favorite_removed, clock_jump, paused, resumed,
}
use whirl.Daemon.{State, Resolved, Env, Daemon, announce}
use whirl.Daemon.Save.{save_current, save_history, save_favorites}
use whirl.Daemon.Transition.{
  start_rotation, start_slot, succeeded, record_success, record_failure, spend_slot,
  record_clock_jump, announce_heartbeat, set_paused, add_favorite, favorite_named, remove_favorite,
  or_dash,
}
use whirl.Daemon.Rotation.{Reread, loaded, rejected, SweepEnd, reconfigure, record_sweep}
use whirl.Daemon.Transition.Run.{
  Command, begin, claim_slot, succeed, fail, spend, jump, beat, pause, pin, unpin, reread, report,
  perform, perform_all,
}
use whirl.Daemon.Transition.Step.{with_state}

-- The marks of the three files stay, and what is marked stays.
pub record LeavesMarked (d d' : Daemon) : Type 0 where
  pub current_mark : d'.state.read_only_current ≡ d.state.read_only_current
  pub history_mark : d'.state.read_only_history ≡ d.state.read_only_history
  pub favorites_mark : d'.state.read_only_favorites ≡ d.state.read_only_favorites
  pub current_kept : d.state.read_only_current ≡ true → d'.current_file ≡ d.current_file
  pub history_kept : d.state.read_only_history ≡ true → d'.history_file ≡ d.history_file
  pub favorites_kept : d.state.read_only_favorites ≡ true → d'.favorites_file ≡ d.favorites_file

LeavesMarked-refl : (d : Daemon) → LeavesMarked d d
LeavesMarked-refl d = record {
  current_mark = refl;
  history_mark = refl;
  favorites_mark = refl;
  current_kept = λ h. refl;
  history_kept = λ h. refl;
  favorites_kept = λ h. refl;
}

LeavesMarked-trans :
    (d d' d'' : Daemon) → LeavesMarked d d' → LeavesMarked d' d'' → LeavesMarked d d''
LeavesMarked-trans d d' d'' a b = record {
  current_mark = b.current_mark ∙ a.current_mark;
  history_mark = b.history_mark ∙ a.history_mark;
  favorites_mark = b.favorites_mark ∙ a.favorites_mark;
  current_kept = λ h. b.current_kept (a.current_mark ∙ h) ∙ a.current_kept h;
  history_kept = λ h. b.history_kept (a.history_mark ∙ h) ∙ a.history_kept h;
  favorites_kept = λ h. b.favorites_kept (a.favorites_mark ∙ h) ∙ a.favorites_kept h;
}

save_current-LeavesMarked : (env : Env) (d : Daemon) → LeavesMarked d (save_current env d)
unfolding save_current
save_current-LeavesMarked env d = record {
  current_mark = ground arith;
  history_mark = ground arith;
  favorites_mark = ground arith;
  current_kept = λ h. ground arith;
  history_kept = λ h. ground arith;
  favorites_kept = λ h. ground arith;
}

save_history-LeavesMarked : (env : Env) (d : Daemon) → LeavesMarked d (save_history env d)
unfolding save_history
save_history-LeavesMarked env d = record {
  current_mark = ground arith;
  history_mark = ground arith;
  favorites_mark = ground arith;
  current_kept = λ h. ground arith;
  history_kept = λ h. ground arith;
  favorites_kept = λ h. ground arith;
}

save_favorites-LeavesMarked : (env : Env) (d : Daemon) → LeavesMarked d (save_favorites env d)
unfolding save_favorites
save_favorites-LeavesMarked env d = record {
  current_mark = ground arith;
  history_mark = ground arith;
  favorites_mark = ground arith;
  current_kept = λ h. ground arith;
  history_kept = λ h. ground arith;
  favorites_kept = λ h. ground arith;
}

abbrev SameMarks : State → State → Type 0
SameMarks s s' =
    (s'.read_only_current ≡ s.read_only_current)
    × (s'.read_only_history ≡ s.read_only_history)
    × (s'.read_only_favorites ≡ s.read_only_favorites)

with_state-LeavesMarked :
    (d : Daemon) (s : State) → SameMarks d.state s → LeavesMarked d (with_state s d)
with_state-LeavesMarked d s (c, h, f) = record {
  current_mark = c;
  history_mark = h;
  favorites_mark = f;
  current_kept = λ m. refl;
  history_kept = λ m. refl;
  favorites_kept = λ m. refl;
}

announce-LeavesMarked :
    (e : Event) (d : Daemon) (s : State)
    → SameMarks d.state s
    → LeavesMarked d (announce e (with_state s d))
unfolding announce
announce-LeavesMarked e d s (c, h, f) = record {
  current_mark = c;
  history_mark = h;
  favorites_mark = f;
  current_kept = λ m. refl;
  history_kept = λ m. refl;
  favorites_kept = λ m. refl;
}

current_saved :
    (env : Env) (e : Event) (d : Daemon) (s : State)
    → SameMarks d.state s
    → LeavesMarked d (save_current env (announce e (with_state s d)))
current_saved env e d s same =
    LeavesMarked-trans d (announce e (with_state s d))
      (save_current env (announce e (with_state s d))) (announce-LeavesMarked e d s same)
      (save_current-LeavesMarked env (announce e (with_state s d)))

favorites_saved :
    (env : Env) (e : Event) (d : Daemon) (s : State)
    → SameMarks d.state s
    → LeavesMarked d (save_favorites env (announce e (with_state s d)))
favorites_saved env e d s same =
    LeavesMarked-trans d (announce e (with_state s d))
      (save_favorites env (announce e (with_state s d))) (announce-LeavesMarked e d s same)
      (save_favorites-LeavesMarked env (announce e (with_state s d)))

begin-LeavesMarked : (env : Env) (d : Daemon) → LeavesMarked d (start_rotation env d).1
unfolding start_rotation announce
begin-LeavesMarked env d = record {
  current_mark = ground arith;
  history_mark = ground arith;
  favorites_mark = ground arith;
  current_kept = λ h. ground arith;
  history_kept = λ h. ground arith;
  favorites_kept = λ h. ground arith;
}

pin-LeavesMarked :
    (env : Env) (resolved : Resolved) (d : Daemon) → LeavesMarked d (add_favorite env resolved d).1
unfolding add_favorite
pin-LeavesMarked env resolved d =
    elim (Bool-cases (contains_key resolved.origin_key d.state.favorites)) [
      | inl there ↦ rw (there, add_favorite) (LeavesMarked-refl d)
      | inr new ↦
          rw (new, add_favorite)
            (favorites_saved env (favorite_added (or_dash resolved.digest) resolved.origin_key) d _
              (refl, refl, refl))
    ]

unpin-LeavesMarked :
    (env : Env) (id : Text) (d : Daemon) → LeavesMarked d (remove_favorite env id d).1
unfolding remove_favorite
unpin-LeavesMarked env id d = elim (Option-cases (favorite_named id d.state)) [
  | inl unknown ↦ rw (unknown, remove_favorite) (LeavesMarked-refl d)
  | inr ((key, favorite), found) ↦
      rw (found, remove_favorite)
        (favorites_saved env (favorite_removed (or_dash favorite.digest)) d _ (refl, refl, refl))
]

spend-LeavesMarked :
    (env : Env) (d : Daemon) (s : State)
    → SameMarks d.state s
    → LeavesMarked d (save_current env (with_state s d))
spend-LeavesMarked env d s same =
    LeavesMarked-trans d (with_state s d) (save_current env (with_state s d))
      (with_state-LeavesMarked d s same) (save_current-LeavesMarked env (with_state s d))

success-LeavesMarked :
    (env : Env) (e : Event) (d : Daemon) (s : State)
    → SameMarks d.state s
    → LeavesMarked d (save_history env (save_current env (announce e (with_state s d))))
success-LeavesMarked env e d s same =
    LeavesMarked-trans d (save_current env (announce e (with_state s d)))
      (save_history env (save_current env (announce e (with_state s d))))
      (current_saved env e d s same)
      (save_history-LeavesMarked env (save_current env (announce e (with_state s d))))

reread-LeavesMarked : (outcome : Reread) (d : Daemon) → LeavesMarked d (reconfigure outcome d)
unfolding reconfigure
reread-LeavesMarked loaded d = announce-LeavesMarked _ d d.state (refl, refl, refl)
reread-LeavesMarked rejected d = with_state-LeavesMarked d _ (refl, refl, refl)

report-LeavesMarked : (end : SweepEnd) (d : Daemon) → LeavesMarked d (record_sweep end d)
unfolding record_sweep
report-LeavesMarked end d = elim (Option-cases end.swept) [
  | inl e ↦ rw (e, record_sweep) (with_state-LeavesMarked d _ (refl, refl, refl))
  | inr (s, e) ↦ rw (e, record_sweep) (announce-LeavesMarked _ d _ (refl, refl, refl))
]

perform-LeavesMarked : (command : Command) (d : Daemon) → LeavesMarked d (perform command d)
unfolding start_slot record_success record_failure spend_slot record_clock_jump announce_heartbeat
    set_paused succeeded
perform-LeavesMarked (begin env) d = begin-LeavesMarked env d
perform-LeavesMarked claim_slot d = with_state-LeavesMarked d _ (refl, refl, refl)
perform-LeavesMarked (succeed env digest origin_key via path) d =
    success-LeavesMarked env (rotate_ok digest origin_key (Vocabulary.Via.as_str via) path) d
      (succeeded env digest origin_key via path d.state) (refl, refl, refl)
perform-LeavesMarked (fail env code message) d =
    current_saved env (rotate_failed code message) d _ (refl, refl, refl)
perform-LeavesMarked (spend env next_at) d = spend-LeavesMarked env d _ (refl, refl, refl)
perform-LeavesMarked (jump env seconds next_at) d =
    current_saved env (clock_jump seconds) d _ (refl, refl, refl)
perform-LeavesMarked (beat env) d = announce-LeavesMarked _ d d.state (refl, refl, refl)
perform-LeavesMarked (pause env true) d = current_saved env paused d _ (refl, refl, refl)
perform-LeavesMarked (pause env false) d = current_saved env resumed d _ (refl, refl, refl)
perform-LeavesMarked (pin env resolved) d = pin-LeavesMarked env resolved d
perform-LeavesMarked (unpin env id) d = unpin-LeavesMarked env id d
perform-LeavesMarked (reread outcome) d = reread-LeavesMarked outcome d
perform-LeavesMarked (report end) d = report-LeavesMarked end d

-- Whatever is asked of the daemon, a state file that is marked read-only is never written, and the marks
-- stay as they are.
pub perform_all-LeavesMarked :
    (commands : List Command) (d : Daemon) → LeavesMarked d (perform_all commands d)
perform_all-LeavesMarked [] d = LeavesMarked-refl d
perform_all-LeavesMarked (command ∷ rest) d =
    LeavesMarked-trans d (perform command d) (perform_all rest (perform command d))
      (perform-LeavesMarked command d) (perform_all-LeavesMarked rest (perform command d))
