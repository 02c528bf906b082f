-- ===== src/Daemon/Scheduler/Rotated.antt =====
-- A rotation of the scheduler from its start to its end, whatever the worker answers: one start in
-- the events, and nothing in flight after it.
use whirl.Prelude.{ℕ, suc, ◌+◌, ◌≡◌, ◌∙◌, refl, ap, List, [], ◌∷◌, none, some, arith}
use whirl.Prelude.Int.{ℤ}
use whirl.Vocabulary.Via.{Via, source}
use whirl.Schedule.{due}
use whirl.Events.{Event, rotate_start}
use whirl.Daemon.{Env, Daemon, announce}
use whirl.Daemon.Save.{save_current, save_history}
use whirl.Daemon.Transition.{started, refused, start_rotation, spend_slot, record_clock_jump}
use whirl.Daemon.Rotation.{
  Reread, loaded, rejected, Answer, set, lines, timeout, failed, SweepEnd, reconfigure, settle,
  record_sweep, rotation,
}
use whirl.Daemon.Scheduler.{Pass, rotate_started, rotate, act}

-- How many rotations the events say were started.
abbrev pub starts : List (ℕ × Event) → ℕ
starts [] = 0
starts ((seq, rotate_start r) ∷ events) = suc (starts events)
starts ((seq, e) ∷ events) = starts events

-- No rotation is started, and the deadline stays.
record Calm (d d' : Daemon) : Type 0 where
  same_starts : starts d'.events ≡ starts d.events
  same_slot : d'.state.slot ≡ d.state.slot
  same_last : d'.state.last_run ≡ d.state.last_run
  same_deadline : d'.state.next_at ≡ d.state.next_at

Calm-trans : (d d' d'' : Daemon) → Calm d d' → Calm d' d'' → Calm d d''
Calm-trans d d' d'' a b = record {
  same_starts = b.same_starts ∙ a.same_starts;
  same_slot = b.same_slot ∙ a.same_slot;
  same_last = b.same_last ∙ a.same_last;
  same_deadline = b.same_deadline ∙ a.same_deadline;
}

save_current-Calm : (env : Env) (d : Daemon) → Calm d (save_current env d)
unfolding save_current
save_current-Calm env d = ground arith

save_history-Calm : (env : Env) (d : Daemon) → Calm d (save_history env d)
unfolding save_history
save_history-Calm env d = ground arith

reconfigure-Calm :
    (outcome : Reread) (d : Daemon)
    → Calm d (reconfigure outcome d) × ((reconfigure outcome d).state.running ≡ d.state.running)
unfolding reconfigure
reconfigure-Calm loaded d = ground arith
reconfigure-Calm rejected d = ground arith

record_sweep-Calm :
    (end : SweepEnd) (d : Daemon)
    → Calm d (record_sweep end d) × ((record_sweep end d).state.running ≡ d.state.running)
unfolding record_sweep
record_sweep-Calm end d = ground arith

settle-Calm :
    (env : Env) (via : Via) (answer : Answer) (d : Daemon)
    → Calm d (settle env via answer d) × ((settle env via answer d).state.running ≡ none)
unfolding settle save_current save_history
settle-Calm env via (set digest origin_key path) d = ground arith
settle-Calm env via (lines ls) d = ground arith
settle-Calm env via timeout d = ground arith
settle-Calm env via (failed code message) d = ground arith

rotation-Calm :
    (env : Env) (via : Via) (reread : Reread) (answer : Answer) (end : SweepEnd) (d : Daemon)
    → Calm d (rotation env via reread answer end d)
      × ((rotation env via reread answer end d).state.running ≡ none)
unfolding rotation
rotation-Calm env via reread answer end d =
    let d1 = reconfigure reread d in
    let d2 = settle env via answer d1 in
    let c1 = reconfigure-Calm reread d in
    let c2 = settle-Calm env via answer d1 in
    let c3 = record_sweep-Calm end d2 in
    (Calm-trans d d1 _ c1.0 (Calm-trans d1 d2 (record_sweep end d2) c2.0 c3.0), c3.1 ∙ c2.1)

-- One rotation was started under the run number `slot`, and it is over.
pub record Rotated (d d' : Daemon) : Type 0 where
  pub one_start : starts d'.events ≡ suc (starts d.events)
  pub next_slot : d'.state.slot ≡ d.state.slot + 1
  pub under_slot : d'.state.last_run ≡ d.state.slot
  pub over : d'.state.running ≡ none

-- The daemon as its slot is claimed.
abbrev pub begun : Env → Daemon → Daemon
begun env d = announce (rotate_start d.state.slot) (record d {
  state = record d.state {
    slot = d.state.slot + 1;
    last_run = d.state.slot;
    running = some d.state.slot;
    cache_writable = env.probe_cache_writable;
  };
})

pub start_rotation-idle :
    (env : Env) (d : Daemon)
    → d.state.running ≡ none
    → start_rotation env d ≡ (started d.state.slot, begun env d)
unfolding start_rotation
start_rotation-idle env d h = ground arith

pub rotate-begun :
    (p : Pass) (d : Daemon)
    → d.state.running ≡ none
    → rotate p d ≡ rotation p.ending source p.reread p.answer p.swept (begun p.starting d)
unfolding rotate_started rotate
rotate-begun p d idle = rw (start_rotation-idle p.starting d idle) refl

pub rotate-idle :
    (p : Pass) (d : Daemon)
    → d.state.running ≡ none
    → Rotated d (rotate p d) × ((rotate p d).state.next_at ≡ d.state.next_at)
unfolding announce
rotate-idle p d idle =
    let (calm, over) =
      rotation-Calm p.ending source p.reread p.answer p.swept (begun p.starting d) in
    rw (rotate-begun p d idle) (
      record {
        one_start = calm.same_starts;
        next_slot = calm.same_slot;
        under_slot = calm.same_last;
        over = over;
      },
      calm.same_deadline,
    )

pub start_rotation-busy :
    (env : Env) (d : Daemon) (r : ℕ)
    → d.state.running ≡ some r
    → start_rotation env d ≡ (refused r, d)
unfolding start_rotation
start_rotation-busy env d r h = ground arith

pub rotate-busy : (p : Pass) (d : Daemon) (r : ℕ) → d.state.running ≡ some r → rotate p d ≡ d
unfolding rotate_started rotate
rotate-busy p d r busy = rw (start_rotation-busy p.starting d r busy) refl

pub spend_slot-facts :
    (env : Env) (next : ℤ) (d : Daemon)
    → (starts (spend_slot env next d).events ≡ starts d.events)
      × ((spend_slot env next d).state.slot ≡ d.state.slot)
      × ((spend_slot env next d).state.running ≡ d.state.running)
      × ((spend_slot env next d).state.next_at ≡ some next)
unfolding spend_slot
spend_slot-facts env next d = ground arith

pub record_clock_jump-starts :
    (env : Env) (seconds next : ℤ) (d : Daemon)
    → starts (record_clock_jump env seconds next d).events ≡ starts d.events
unfolding record_clock_jump
record_clock_jump-starts env seconds next d = ground arith

pub act-idle :
    (p : Pass) (next : ℤ) (d : Daemon)
    → d.state.running ≡ none
    → Rotated d (act p (due next) d) × ((act p (due next) d).state.next_at ≡ some next)
unfolding act
act-idle p next d idle =
    let (s, l, r, n) = spend_slot-facts p.spending next d in
    let (rot, m) = rotate-idle p (spend_slot p.spending next d) (r ∙ idle) in
    (
      record {
        one_start = rot.one_start ∙ ap suc s;
        next_slot = rot.next_slot ∙ ap (λ k. k + 1) l;
        under_slot = rot.under_slot ∙ l;
        over = rot.over;
      },
      m ∙ n,
    )

pub act-busy :
    (p : Pass) (next : ℤ) (d : Daemon) (r : ℕ)
    → d.state.running ≡ some r
    → starts (act p (due next) d).events ≡ starts d.events
unfolding act
act-busy p next d r busy =
    let (s, l, same, n) = spend_slot-facts p.spending next d in
    rw (rotate-busy p (spend_slot p.spending next d) r (same ∙ busy)) s
