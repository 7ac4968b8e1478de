-- ===== src/Fsm/Relation.antt =====
-- src/node/fsm.rs: the transitions as a relation with disjoint guards, over plain numbers.
use bdk_floresta.Prelude.{ℕ, ◌+◌, ◌^◌, ◌≤◌, ◌<◌, min, ◌≡◌, refl, ◌↔◌, Bool, true, false, arith}
use bdk_floresta.Fsm.{
  State, inactive, active, dns_bootstrapping, header_sync, initial_block_download,
  compact_block_filter_download, backfill, operational, shutting_down, operational_tolerance,
  compute_next_state,
}

-- The states that only other code enters and leaves.
abbrev pub IsParked : State → Type 0
IsParked inactive = Unit {0}
IsParked dns_bootstrapping = Unit {0}
IsParked backfill = Unit {0}
IsParked shutting_down = Unit {0}
IsParked _ = ⊥

-- One constructor for each kind of transition, from the heights of the validated chain, of the
-- best known headers and of the filters.
pub data Next (wire_ready : Bool) (node chain filter : ℕ) (s t : State) : Type 0 where
  stay : IsParked s → t ≡ s → Next wire_ready node chain filter s t
  wait : ¬ IsParked s → wire_ready ≡ false → t ≡ active → Next wire_ready node chain filter s t
  headers :
      ¬ IsParked s
      → wire_ready ≡ true
      → node ≡ 0
      → 0 < chain
      → t ≡ header_sync chain
      → Next wire_ready node chain filter s t
  blocks :
      ¬ IsParked s
      → wire_ready ≡ true
      → 0 < node
      → node + operational_tolerance < chain
      → t ≡ initial_block_download chain node
      → Next wire_ready node chain filter s t
  filters :
      ¬ IsParked s
      → wire_ready ≡ true
      → 0 < node
      → chain ≤ node + operational_tolerance
      → min filter node < chain
      → t ≡ compact_block_filter_download (min filter node)
      → Next wire_ready node chain filter s t
  synced :
      ¬ IsParked s
      → wire_ready ≡ true
      → 0 < node
      → chain ≤ node
      → chain ≤ filter
      → t ≡ operational
      → Next wire_ready node chain filter s t
  genesis :
      ¬ IsParked s
      → wire_ready ≡ true
      → node ≡ 0
      → chain ≡ 0
      → t ≡ active
      → Next wire_ready node chain filter s t

module _ (wire_ready : Bool) (node chain filter : ℕ)
    (range : node + operational_tolerance < 2 ^ 32) where
  -- A transition of the relation is what the function computes.
  Next→compute :
      (s t : State)
      → Next wire_ready node chain filter s t
      → compute_next_state wire_ready s node chain filter ≡ t
  unfolding compute_next_state
  Next→compute s t (stay p e) = ground arith
  Next→compute s t (wait p w e) = ground arith
  Next→compute s t (headers p w n c e) = ground arith
  Next→compute s t (blocks p w n c e) = ground arith
  Next→compute s t (filters p w n c l e) = ground arith
  Next→compute s t (synced p w n c l e) = ground arith
  Next→compute s t (genesis p w n c e) = ground arith

  -- What the function computes is a transition of the relation.
  Next-compute :
      (s : State)
      → Next wire_ready node chain filter s (compute_next_state wire_ready s node chain filter)
  unfolding compute_next_state
  Next-compute inactive = stay tt refl
  Next-compute dns_bootstrapping = stay tt refl
  Next-compute backfill = stay tt refl
  Next-compute shutting_down = stay tt refl
  Next-compute _ = ground arith

  -- While the node height is at least six below the largest `u32`, the next state is exactly the
  -- one that a transition of the relation leads to.
  pub compute_next_state_iff :
      (s t : State)
      → Next wire_ready node chain filter s t
        ↔ (compute_next_state wire_ready s node chain filter ≡ t)
  compute_next_state_iff s t = (Next→compute s t, λ e. rw e at (Next-compute s))
