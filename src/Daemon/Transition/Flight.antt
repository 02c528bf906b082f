-- ===== src/Daemon/Transition/Flight.antt =====
-- One rotation at a time: what is in flight is what the events say, and a run number is used once.
use whirl.Prelude.{
  ℕ, suc, ◌+◌, ◌≡◌, ◌≢◌, ◌≤◌, ap, refl, subst, sym, ◌∙◌, List, [], ◌∷◌, Option, none, arith,
}
use whirl.Events.{Event, rotate_start}
use whirl.Daemon.{Daemon}
use whirl.Daemon.Transition.Run.{Command, perform, perform_all}
use whirl.Daemon.Transition.Step.{Step, quiet, began, told, perform-Step, flight_after}

-- The rotation in flight by the events alone.
abbrev pub flight : List (ℕ × Event) → Option ℕ
flight [] = none
flight ((seq, e) ∷ events) = flight_after e (flight events)

-- A rotation starts only where none is in flight, and under a run number below `slot` that is above
-- that of every start before.
abbrev pub Exclusive : ℕ → List (ℕ × Event) → Type 0
Exclusive slot [] = Unit
Exclusive slot ((seq, rotate_start run) ∷ events) =
    (suc run ≤ slot) × (flight events ≡ none) × Exclusive run events
Exclusive slot ((seq, e) ∷ events) = Exclusive slot events

Exclusive-le :
    (slot slot' : ℕ) (events : List (ℕ × Event))
    → slot ≤ slot'
    → Exclusive slot events
    → Exclusive slot' events
Exclusive-le slot slot' [] le h = tt
Exclusive-le slot slot' ((seq, rotate_start run) ∷ events) le h = (omega arith, h.1, h.2)
Exclusive-le slot slot' ((seq, e) ∷ events) le h = Exclusive-le slot slot' events le h

told-Exclusive :
    (slot seq : ℕ) (e : Event) (events : List (ℕ × Event))
    → ((run : ℕ) → e ≢ rotate_start run)
    → Exclusive slot events
    → Exclusive slot ((seq, e) ∷ events)
told-Exclusive slot seq (rotate_start run) events other h = absurd (other run refl)
told-Exclusive slot seq e events other h = h

abbrev pub InOrder : Daemon → Type 0
InOrder d = (d.state.running ≡ flight d.events) × Exclusive d.state.slot d.events

Step-InOrder : (d d' : Daemon) → Step d d' → InOrder d → InOrder d'
Step-InOrder d d' (quiet s e r k l) h =
    rw e (r ∙ h.0, Exclusive-le d.state.slot d'.state.slot d.events (omega (arith, l)) h.1)
Step-InOrder d d' (began o s e r l) h = rw e (r, (omega (arith, l), sym h.0 ∙ o, h.1))
Step-InOrder d d' (told event other s e r l) h = rw e (
  r ∙ ap (flight_after event) h.0,
  subst (λ slot. Exclusive slot ((d.state.seq + 1, event) ∷ d.events)) (sym l)
      (told-Exclusive d.state.slot (d.state.seq + 1) event d.events other h.1),
)

-- Whatever is asked of the daemon and in whatever order, the run that it holds to be in flight is the
-- one whose start is the last start or end among its events, no rotation starts while another is in
-- flight, and each starts under a higher run number than all before.
pub perform_all-InOrder :
    (commands : List Command) (d : Daemon) → InOrder d → InOrder (perform_all commands d)
perform_all-InOrder [] d h = h
perform_all-InOrder (command ∷ rest) d h =
    perform_all-InOrder rest (perform command d)
      (Step-InOrder d (perform command d) (perform-Step command d) h)
