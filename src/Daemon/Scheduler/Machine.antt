-- ===== src/Daemon/Scheduler/Machine.antt =====
-- The scheduler asks nothing of the daemon but its methods: what holds of every sequence of methods
-- holds of the loop.
use whirl.Prelude.{
  ℕ, ◌≡◌, ◌∙◌, refl, ap, sym, subst, List, [], ◌∷◌, ◌++◌, Bool, true, false, Option, none, some,
  Option-cases, inl, inr,
}
use whirl.Vocabulary.Via.{Via, source}
use whirl.Vocabulary.ErrorCode
use whirl.Schedule.{Observation, Tick, wait, due, clock_jump}
use whirl.Daemon.{Env, Daemon}
use whirl.Daemon.Rotation.{
  Answer, set, lines, timeout, failed, settle, rotation, Reread, SweepEnd, reconfigure,
  record_sweep,
}
use whirl.Daemon.Transition.Run.{
  Command, begin, succeed, fail, spend, jump, reread, report, perform, perform_all,
}
use whirl.Daemon.Scheduler.{Pass, rotate, act, step_at, step, run}
use whirl.Daemon.Scheduler.Rotated.{begun, rotate-begun, rotate-busy, start_rotation-idle}

-- What a sequence of methods makes of the daemon.
abbrev pub IsPerformed : Daemon → Daemon → Type 0
IsPerformed d d' = (commands : List Command) × (d' ≡ perform_all commands d)

perform_all-append :
    (first second : List Command) (d : Daemon)
    → perform_all (first ++ second) d ≡ perform_all second (perform_all first d)
perform_all-append [] second d = refl
perform_all-append (command ∷ first) second d = perform_all-append first second (perform command d)

IsPerformed-trans : (d d' d'' : Daemon) → IsPerformed d d' → IsPerformed d' d'' → IsPerformed d d''
IsPerformed-trans d d' d'' (first, e) (second, f) =
    (first ++ second, f ∙ ap (perform_all second) e ∙ sym (perform_all-append first second d))

settle-IsPerformed :
    (env : Env) (via : Via) (answer : Answer) (d : Daemon) → IsPerformed d (settle env via answer d)
unfolding settle
settle-IsPerformed env via (set digest origin_key path) d =
    (succeed env digest origin_key via path ∷ [], refl)
settle-IsPerformed env via (lines ls) d = (fail env ErrorCode.worker_failed _ ∷ [], refl)
settle-IsPerformed env via timeout d = (fail env ErrorCode.timeout _ ∷ [], refl)
settle-IsPerformed env via (failed code message) d = (fail env code message ∷ [], refl)

rotation-IsPerformed :
    (env : Env) (via : Via) (outcome : Reread) (answer : Answer) (end : SweepEnd) (d : Daemon)
    → IsPerformed d (rotation env via outcome answer end d)
unfolding rotation
rotation-IsPerformed env via outcome answer end d =
    let d1 = reconfigure outcome d in
    let d2 = settle env via answer d1 in
    IsPerformed-trans d d1 (record_sweep end d2) (reread outcome ∷ [], refl)
      (IsPerformed-trans d1 d2 (record_sweep end d2) (settle-IsPerformed env via answer d1)
        (report end ∷ [], refl))

rotate-IsPerformed : (p : Pass) (d : Daemon) → IsPerformed d (rotate p d)
rotate-IsPerformed p d = elim (Option-cases d.state.running) [
  | inr (r, busy) ↦ ([], rotate-busy p d r busy)
  | inl idle ↦
      let d1 = begun p.starting d in
      subst (IsPerformed d) (sym (rotate-begun p d idle)) (
        IsPerformed-trans d d1 _
          (begin p.starting ∷ [], sym (ap (λ r. r.1) (start_rotation-idle p.starting d idle)))
          (rotation-IsPerformed p.ending source p.reread p.answer p.swept d1))
]

act-IsPerformed : (p : Pass) (decision : Tick) (d : Daemon) → IsPerformed d (act p decision d)
unfolding act
act-IsPerformed p (wait length) d = ([], refl)
act-IsPerformed p (clock_jump seconds next_at) d = (jump p.spending seconds next_at ∷ [], refl)
act-IsPerformed p (due next_at) d =
    IsPerformed-trans d _ _ (spend p.spending next_at ∷ [], refl) (rotate-IsPerformed p _)

step_at-IsPerformed :
    (p : Pass) (previous current : Observation) (interval : ℕ) (paused : Bool) (next_at : Option _)
    (d : Daemon)
    → IsPerformed d (step_at p previous current interval paused next_at d)
unfolding step_at
step_at-IsPerformed p previous current interval true next_at d = ([], refl)
step_at-IsPerformed p previous current interval false none d = ([], refl)
step_at-IsPerformed p previous current interval false (some next_at) d = act-IsPerformed p _ d

-- However many passes the scheduler makes and whatever each meets, the daemon after them is one that
-- its own methods made.
run-IsPerformed :
    (passes : List (Observation × ℕ × Pass)) (previous : Observation) (d : Daemon)
    → IsPerformed d (run passes previous d)
unfolding run step
run-IsPerformed [] previous d = ([], refl)
run-IsPerformed ((current, interval, p) ∷ passes) previous d =
    IsPerformed-trans d _ _
      (step_at-IsPerformed p previous current interval d.state.paused d.state.next_at d)
      (run-IsPerformed passes current _)
