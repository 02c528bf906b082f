-- ===== src/Events/Bus/Delivery.antt =====
-- What a subscriber that is still on the bus has been sent, and how often a heartbeat is claimed.
use whirl.Prelude.{
  ℕ, zero, suc, ◌+◌, ◌-◌, ◌≤◌, ◌<◌, ◌≡◌, ◌∙◌, ap, sym, subst, List, [], ◌∷◌, ◌++◌, Bool, true,
  false, some, Text, ltb, length, length-append, All, All-append, append_assoc, append-nil,
  Option-cases, Bool-cases, inl, inr, arith,
}
use whirl.Events.Bus.{
  Channel, Bus, queue_bound, heartbeat_quiet, try_send, retain, claim_heartbeat, take_line, hang_up,
  at, Action, joins, tells, claims, takes, leaves, act, act_all,
}

-- What a channel has taken and holds is all that was sent after some point, in its order, and no
-- more is queued than the bound.
pub record IsServed (sent : List Text) (c : Channel) : Type 0 where
  pub before : List Text
  pub complete : sent ≡ before ++ (c.taken ++ c.queue)
  pub bounded : length c.queue ≤ queue_bound

abbrev pub AllServed : Bus → Type 0
AllServed bus = All (IsServed bus.sent) bus.subscribers

try_send-eq-some :
    (line : Text) (c c' : Channel)
    → try_send line c ≡ some c'
    → (c' ≡ record c { queue = c.queue ++ line ∷ [] }) × (length c.queue < queue_bound)
unfolding try_send
try_send-eq-some line c c' h = ground arith

try_send-IsServed :
    (sent : List Text) (line : Text) (c c' : Channel)
    → IsServed sent c
    → try_send line c ≡ some c'
    → IsServed (sent ++ line ∷ []) c'
try_send-IsServed sent line c c' s h =
    let (e, room) = try_send-eq-some line c c' h in
    subst (IsServed (sent ++ line ∷ [])) (sym e) (record {
      before = s.before;
      complete = ap (λ (l : List Text). l ++ line ∷ []) s.complete ∙ simp (append_assoc);
      bounded = omega (arith, length-append c.queue (line ∷ []));
    })

retain-IsServed :
    (sent : List Text) (line : Text) (cs : List Channel)
    → All (IsServed sent) cs
    → All (IsServed (sent ++ line ∷ [])) (retain line cs)
unfolding retain
retain-IsServed sent line [] h = tt
retain-IsServed sent line (c ∷ cs) h = elim (Option-cases (try_send line c)) [
  | inl refused ↦ rw (refused, retain) (retain-IsServed sent line cs h.1)
  | inr (c', accepted) ↦
      rw (accepted, retain)
        (try_send-IsServed sent line c c' h.0 accepted, retain-IsServed sent line cs h.1)
]

take_line-IsServed_of :
    (sent : List Text) (queue : List Text) (connected : Bool) (taken : List Text)
    → IsServed sent (record { queue = queue; connected = connected; taken = taken })
    → IsServed sent (take_line (record { queue = queue; connected = connected; taken = taken }))
unfolding take_line
take_line-IsServed_of sent [] connected taken s = s
take_line-IsServed_of sent (line ∷ queue) connected taken s = record {
  before = s.before;
  complete = s.complete ∙ ap (◌++◌ s.before) (sym (append_assoc taken (line ∷ []) queue));
  bounded = omega arith;
}

take_line-IsServed :
    (sent : List Text) (c : Channel) → IsServed sent c → IsServed sent (take_line c)
take_line-IsServed sent c s = take_line-IsServed_of sent c.queue c.connected c.taken s

at-All :
    (sent : List Text) (f : Channel → Channel)
    → ((c : Channel) → IsServed sent c → IsServed sent (f c))
    → (i : ℕ) (cs : List Channel) → All (IsServed sent) cs
    → All (IsServed sent) (at i f cs)
unfolding at
at-All sent f keep i [] h = tt
at-All sent f keep zero (c ∷ cs) h = (keep c h.0, h.1)
at-All sent f keep (suc i) (c ∷ cs) h = (h.0, at-All sent f keep i cs h.1)

hang_up-IsServed : (sent : List Text) (c : Channel) → IsServed sent c → IsServed sent (hang_up c)
unfolding hang_up
hang_up-IsServed sent c s = record { before = s.before; complete = s.complete; bounded = s.bounded }

act-AllServed : (action : Action) (bus : Bus) → AllServed bus → AllServed (act action bus)
unfolding act
act-AllServed joins bus h =
    All-append (IsServed bus.sent) bus.subscribers _ h (
      record { before = bus.sent; complete = sym (append-nil bus.sent); bounded = omega arith },
      tt,
    )
act-AllServed (tells now line) bus h = retain-IsServed bus.sent line bus.subscribers h
act-AllServed (claims now) bus h = elim (Bool-cases (ltb (now - bus.quiet_since) heartbeat_quiet)) [
  | inl early ↦ rw (early, act) h
  | inr quiet ↦ rw (quiet, act) h
]
act-AllServed (takes i) bus h =
    at-All bus.sent take_line (take_line-IsServed bus.sent) i bus.subscribers h
act-AllServed (leaves i) bus h =
    at-All bus.sent hang_up (hang_up-IsServed bus.sent) i bus.subscribers h

-- Whatever subscribers join, read and go, and whatever is broadcast between: a subscriber that is
-- still on the bus has been given every line since some point in the order they were sent, with none
-- left out, and no queue is longer than its bound.
pub act_all-AllServed :
    (actions : List Action) (bus : Bus) → AllServed bus → AllServed (act_all actions bus)
unfolding act_all
act_all-AllServed [] bus h = h
act_all-AllServed (action ∷ actions) bus h =
    act_all-AllServed actions (act action bus) (act-AllServed action bus h)

-- What happens at a time is at `now` or after it.
abbrev pub IsAfter : ℕ → Action → Type 0
IsAfter now (tells t line) = now ≤ t
IsAfter now (claims t) = now ≤ t
IsAfter now _ = Unit

act-quiet_since :
    (now : ℕ) (action : Action) (bus : Bus)
    → IsAfter now action
    → now ≤ bus.quiet_since
    → now ≤ (act action bus).quiet_since
unfolding act
act-quiet_since now joins bus a h = h
act-quiet_since now (tells t line) bus a h = a
act-quiet_since now (claims t) bus a h = ground arith
act-quiet_since now (takes i) bus a h = h
act-quiet_since now (leaves i) bus a h = h

act_all-quiet_since :
    (now : ℕ) (actions : List Action) (bus : Bus)
    → All (IsAfter now) actions
    → now ≤ bus.quiet_since
    → now ≤ (act_all actions bus).quiet_since
unfolding act_all
act_all-quiet_since now [] bus a h = h
act_all-quiet_since now (action ∷ actions) bus a h =
    act_all-quiet_since now actions (act action bus) a.1 (act-quiet_since now action bus a.0 h)

claim_heartbeat-eq_true :
    (now : ℕ) (bus : Bus)
    → (claim_heartbeat now bus).0 ≡ true
    → (claim_heartbeat now bus).1.quiet_since ≡ now
unfolding claim_heartbeat
claim_heartbeat-eq_true now bus h = ground arith

-- One quiet period has one heartbeat: where a claim was granted, every claim less than 30 seconds
-- later is refused, whatever happens on the bus between the two and however many ask.
pub claim_heartbeat_once :
    (now later : ℕ) (actions : List Action) (bus : Bus)
    → (claim_heartbeat now bus).0 ≡ true
    → All (IsAfter now) actions
    → later < now + heartbeat_quiet
    → (claim_heartbeat later (act_all actions (claim_heartbeat now bus).1)).0 ≡ false
unfolding claim_heartbeat
claim_heartbeat_once now later actions bus granted after soon = ground (
  arith,
  act_all-quiet_since now actions (claim_heartbeat now bus).1 after,
  claim_heartbeat-eq_true now bus,
)
