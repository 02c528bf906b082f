-- ===== src/Tests/Bus.antt =====
-- Two subscribers, one of which goes.
use whirl.Prelude.{◌≡◌, refl, List, [], ◌∷◌, true, false, codes, arith}
use whirl.Events.Bus.{new, Action, joins, tells, claims, takes, leaves, act_all, claim_heartbeat}
use whirl.Events.Bus.Delivery.{AllServed, act_all-AllServed, claim_heartbeat_once}

abbrev morning : List Action
morning =
    joins
    ∷ joins
    ∷ tells 1_000 (codes "event: 1 paused")
    ∷ takes 0
    ∷ leaves 1
    ∷ tells 2_000 (codes "event: 2 resumed")
    ∷ []

new-AllServed : AllServed (new 0)
unfolding new
new-AllServed = tt

act_all-AllServed_example : AllServed (act_all morning (new 0))
act_all-AllServed_example = act_all-AllServed morning (new 0) new-AllServed

granted : (claim_heartbeat 30_000_000_000 (new 0)).0 ≡ true
unfolding claim_heartbeat new
granted = refl

claim_heartbeat_once_example :
    (claim_heartbeat 31_000_000_000
      (act_all (joins ∷ claims 30_500_000_000 ∷ []) (claim_heartbeat 30_000_000_000 (new 0)).1)).0
    ≡ false
claim_heartbeat_once_example =
    claim_heartbeat_once 30_000_000_000 31_000_000_000 (joins ∷ claims 30_500_000_000 ∷ []) (new 0)
      granted (omega arith) (omega arith)
