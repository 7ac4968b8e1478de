-- ===== src/Fsm.antt =====
-- src/node/fsm.rs: the states of the node and the next-state function.
pub mod Relation
pub mod Unique
pub mod Laws
pub mod Display
use bdk_floresta.Prelude.{ℕ, ◌+◌, ◌%◌, ◌^◌, Bool, not, ◌&&◌, ltb, ◌==◌, if◌then◌else◌}

-- How far validation may lag behind the chain tip.
abbrev pub operational_tolerance : ℕ
operational_tolerance = 6

pub data State : Type 0 where
  inactive : State
  active : State
  dns_bootstrapping : State
  header_sync : (height : ℕ) → State
  initial_block_download : (chain_height node_height : ℕ) → State
  compact_block_filter_download : (filter_height : ℕ) → State
  backfill : State
  operational : State
  shutting_down : State

-- `u32` addition as a release build does it: it wraps.
abbrev pub add_u32 : ℕ → ℕ → ℕ
add_u32 a b = (a + b) % 2 ^ 32

-- The filter height with the fallback to the node height.
abbrev pub clamp_filter : (node_height filter_height : ℕ) → ℕ
clamp_filter node_height filter_height =
    if ltb node_height filter_height then node_height else filter_height

-- The catch-all arm of the match: the ladder of tests for a node that is up.
live_state : (wire_ready : Bool) (node_height chain_height filter_height : ℕ) → State
live_state wire_ready node_height chain_height filter_height =
    if not wire_ready
    then active
    else if node_height == 0 && ltb 0 chain_height
    then header_sync chain_height
    else if ltb (add_u32 node_height operational_tolerance) chain_height
    then initial_block_download chain_height node_height
    else if ltb filter_height chain_height
    then compact_block_filter_download filter_height
    else if ltb 0 node_height
    then operational
    else active

-- `compute_next_state`: the states that other code moves stay, the rest follow the ladder.
unfoldable pub compute_next_state :
    (wire_ready : Bool) (current_state : State) (node_height chain_height filter_height : ℕ) → State
unfolding live_state
compute_next_state _ shutting_down _ _ _ = shutting_down
compute_next_state _ inactive _ _ _ = inactive
compute_next_state _ dns_bootstrapping _ _ _ = dns_bootstrapping
compute_next_state _ backfill _ _ _ = backfill
compute_next_state wire_ready _ node_height chain_height filter_height =
    live_state wire_ready node_height chain_height (clamp_filter node_height filter_height)
