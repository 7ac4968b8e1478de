-- ===== src/Fsm/Laws.antt =====
-- src/node/fsm.rs: what the next-state function keeps, and when it reports a synchronised node.
use bdk_floresta.Prelude.{ℕ, ◌+◌, ◌^◌, ◌≤◌, ◌<◌, min, ◌≡◌, ◌≢◌, Bool, true, arith}
use bdk_floresta.Fsm.{
  State, compact_block_filter_download, operational, operational_tolerance, compute_next_state,
}
use bdk_floresta.Fsm.Relation.{IsParked}

module _ (wire_ready : Bool) (node chain filter : ℕ) where
  -- A parked state stays, and any other state is left for one that is not parked and that does not
  -- depend on the state before it.
  pub compute_keep_or_renew :
      (s t : State)
      → (IsParked s → compute_next_state wire_ready s node chain filter ≡ s)
        × (¬ IsParked s → ¬ IsParked (compute_next_state wire_ready s node chain filter))
        × (¬ IsParked s
            → ¬ IsParked t
            → compute_next_state wire_ready s node chain filter
              ≡ compute_next_state wire_ready t node chain filter)
  unfolding compute_next_state
  compute_keep_or_renew s t = (ground arith, ground arith, ground arith)

  -- A second poll of the same heights changes nothing.
  pub compute_idem :
      (s : State)
      → compute_next_state wire_ready
          (compute_next_state wire_ready s node chain filter)
          node
          chain
          filter
        ≡ compute_next_state wire_ready s node chain filter
  unfolding compute_next_state
  compute_idem s = ground arith

  -- A node that is not parked and whose validated chain lags behind the headers is not reported as
  -- operational, however small the lag.
  pub lagging_not_operational :
      (s : State)
      → ¬ IsParked s
      → node < chain
      → compute_next_state wire_ready s node chain filter ≢ operational
  unfolding compute_next_state
  lagging_not_operational s p lag = ground arith

-- An operational node above height zero and at least six below the largest `u32` that falls behind
-- by a number of blocks within the tolerance is reported as downloading filters, even if it has
-- every filter up to its own height.
pub lag_within_tolerance :
    (node lag filter : ℕ)
    → 0 < node
    → node + operational_tolerance < 2 ^ 32
    → 0 < lag
    → lag ≤ operational_tolerance
    → compute_next_state true operational node (node + lag) filter
      ≡ compact_block_filter_download (min filter node)
unfolding compute_next_state
lag_within_tolerance node lag filter n r l t = ground arith
