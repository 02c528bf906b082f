-- ===== src/Daemon/Transition/Numbered.antt =====
-- The numbers of the events: one after the other, with no gap and no repetition.
use whirl.Prelude.{ℕ, ◌+◌, ◌≡◌, refl, List, [], ◌∷◌}
use whirl.Events.{Event}
use whirl.Daemon.{Daemon}
use whirl.Daemon.Transition.Run.{Command, perform, perform_all}
use whirl.Daemon.Transition.Step.{Step, quiet, began, told, perform-Step}

-- Events, the newest first, with the numbers from `newest` down to the one after `base`.
abbrev pub Numbered : ℕ → ℕ → List (ℕ × Event) → Type 0
Numbered base newest [] = newest ≡ base
Numbered base newest ((seq, e) ∷ events) =
    (seq ≡ newest) × (before : ℕ) × (newest ≡ before + 1) × Numbered base before events

module _ (base : ℕ) where
  Step-Numbered :
      (d d' : Daemon)
      → Step d d'
      → Numbered base d.state.seq d.events
      → Numbered base d'.state.seq d'.events
  Step-Numbered d d' (quiet s e r k l) h = rw (s, e) h
  Step-Numbered d d' (began o s e r l) h = rw (s, e) (refl, d.state.seq, refl, h)
  Step-Numbered d d' (told event other s e r l) h = rw (s, e) (refl, d.state.seq, refl, h)

  -- Whatever is asked of the daemon and in whatever order, the events it broadcasts are numbered one by
  -- one from its sequence number on, and its sequence number is that of the newest.
  pub perform_all-Numbered :
      (commands : List Command) (d : Daemon)
      → Numbered base d.state.seq d.events
      → Numbered base (perform_all commands d).state.seq (perform_all commands d).events
  perform_all-Numbered [] d h = h
  perform_all-Numbered (command ∷ rest) d h =
      perform_all-Numbered rest (perform command d)
        (Step-Numbered d (perform command d) (perform-Step command d) h)
