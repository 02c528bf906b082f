-- ===== src/Events/Bus.antt =====
-- `Bus` of crates/whirld/src/events.rs: one bounded queue for each subscriber, and the quiet period
-- that a heartbeat ends. An `Instant` is a number of nanoseconds.
pub mod Delivery
use whirl.Prelude.{
  ℕ, zero, suc, ◌-◌, List, [], ◌∷◌, ◌++◌, Bool, true, false, Option, none, some, Text, ltb, length,
  if◌then◌else◌,
}

-- `QUEUE` and `HEARTBEAT_QUIET`.
abbrev pub queue_bound : ℕ
queue_bound = 256

abbrev pub heartbeat_quiet : ℕ
heartbeat_quiet = 30_000_000_000

-- The two ends of a `sync_channel`: what is queued, whether the receiver is still there, and what it
-- has taken out.
pub record Channel : Type 0 where
  pub queue : List Text
  pub connected : Bool
  pub taken : List Text

-- `sent` is every line that was broadcast, which the source does not keep.
pub record Bus : Type 0 where
  pub subscribers : List Channel
  pub quiet_since : ℕ
  pub sent : List Text

unfoldable pub new : ℕ → Bus
new now = record { subscribers = []; quiet_since = now; sent = [] }

unfoldable pub subscribe : Bus → Bus
subscribe bus = record bus {
  subscribers = bus.subscribers ++ record { queue = []; connected = true; taken = [] } ∷ [];
}

-- `SyncSender::try_send`: refused where the queue is full or the receiver is gone.
unfoldable pub try_send : Text → Channel → Option Channel
try_send line c =
    if c.connected
    then (if ltb (length c.queue) queue_bound
        then some (record c { queue = c.queue ++ line ∷ [] })
        else none)
    else none

unfoldable pub retain : Text → List Channel → List Channel
unfolding try_send
retain line [] = []
retain line (c ∷ cs) = elim (try_send line c) [
  | none ↦ retain line cs
  | some c' ↦ c' ∷ retain line cs
]

unfoldable pub touch : ℕ → Bus → Bus
touch now bus = record bus { quiet_since = now }

unfoldable pub broadcast : ℕ → Text → Bus → Bus
unfolding retain touch
broadcast now line bus =
    touch now
      (record bus { subscribers = retain line bus.subscribers; sent = bus.sent ++ line ∷ [] })

unfoldable pub claim_heartbeat : ℕ → Bus → Bool × Bus
claim_heartbeat now bus =
    if ltb (now - bus.quiet_since) heartbeat_quiet
    then (false, bus)
    else (true, record bus { quiet_since = now })

-- What a subscriber's own thread does: it takes a line out of its queue, or it goes.
unfoldable pub take_line : Channel → Channel
take_line c = elim c.queue [
  | [] ↦ c
  | line ∷ queue ↦ record c { queue = queue; taken = c.taken ++ line ∷ [] }
]

unfoldable pub hang_up : Channel → Channel
hang_up c = record c { connected = false }

unfoldable pub at : ℕ → (Channel → Channel) → List Channel → List Channel
at i f [] = []
at zero f (c ∷ cs) = f c ∷ cs
at (suc i) f (c ∷ cs) = c ∷ at i f cs

-- Whatever happens to the bus, in any order.
pub data Action : Type 0 where
  joins : Action
  tells : (now : ℕ) (line : Text) → Action
  claims : (now : ℕ) → Action
  takes leaves : (i : ℕ) → Action

unfoldable pub act : Action → Bus → Bus
unfolding subscribe broadcast claim_heartbeat take_line hang_up at
act joins bus = subscribe bus
act (tells now line) bus = broadcast now line bus
act (claims now) bus = (claim_heartbeat now bus).1
act (takes i) bus = record bus { subscribers = at i take_line bus.subscribers }
act (leaves i) bus = record bus { subscribers = at i hang_up bus.subscribers }

unfoldable pub act_all : List Action → Bus → Bus
unfolding act
act_all [] bus = bus
act_all (action ∷ actions) bus = act_all actions (act action bus)
