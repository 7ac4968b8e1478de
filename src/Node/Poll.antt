-- ===== src/Node/Poll.antt =====
-- src/node/mod.rs: one round of the task that `Node::run` spawns to update the node's state.
use bdk_floresta.Prelude.{
  ℕ, Bool, true, false, List, [], ◌∷◌, Result, ok, err, ◌≡◌, ◌≢◌, ◌↔◌, ite, arith, ℕ_discrete,
}
use bdk_floresta.Fsm.{State, shutting_down, compute_next_state}
use bdk_floresta.Node.Backend.{Backend}
use bdk_floresta.Node.Types.{Node}
use bdk_floresta.Node.Local.{call}

-- The derived `PartialEq` of `State`.
pub State-discrete : Discrete State
State-discrete = hlevel ℕ_discrete

-- `is_ok_and(|peers| !peers.is_empty())`.
abbrev pub wire_ready : {E A : Type 0} → Result E (List A) → Bool
wire_ready (ok []) = false
wire_ready (ok (_ ∷ _)) = true
wire_ready (err _) = false

-- The closure of `send_if_modified`: the state that is left, and whether receivers are woken.
unfoldable pub send_if_modified : Bool → ℕ → ℕ → ℕ → State → State × Bool
unfolding compute_next_state
send_if_modified wire node_tip chain_tip filter_tip shutting_down = (shutting_down, false)
send_if_modified wire node_tip chain_tip filter_tip current_state =
    let next_state = compute_next_state wire current_state node_tip chain_tip filter_tip in
    ite (State-discrete current_state next_state) (current_state, false) (next_state, true)

module _ {B : Backend} where
  abbrev update_state : Bool → ℕ → ℕ → ℕ → Node B → Node B × Bool
  update_state wire node_tip chain_tip filter_tip n =
      let (s, modified) = send_if_modified wire node_tip chain_tip filter_tip n.state in
      (record n { state = s }, modified)

  abbrev with_filter_tip : Bool → ℕ → ℕ → Result B.FilterError ℕ × Node B → Node B × Bool
  with_filter_tip wire chain_tip node_tip (err e, n) = (n, false)
  with_filter_tip wire chain_tip node_tip (ok filter_tip, n) =
      update_state wire node_tip chain_tip filter_tip n

  abbrev with_node_tip : Bool → ℕ → Result B.ChainError ℕ × Node B → Node B × Bool
  with_node_tip wire chain_tip (err e, n) = (n, false)
  with_node_tip wire chain_tip (ok node_tip, n) =
      with_filter_tip wire chain_tip node_tip (call B.filters_height n)

  abbrev with_chain_tip : Bool → Result B.ChainError (ℕ × B.Hash) × Node B → Node B × Bool
  with_chain_tip wire (err e, n) = (n, false)
  with_chain_tip wire (ok (chain_tip, _), n) =
      with_node_tip wire chain_tip (call B.get_validation_index n)

  -- A round of the loop; a store that fails ends it with nothing changed but the world.
  unfoldable pub poll : Node B → Node B × Bool
  unfolding send_if_modified
  poll n =
      let (peers, n') = call B.get_peer_info n in
      with_chain_tip (wire_ready peers) (call B.get_best_block n')

-- A round wakes the receivers exactly if it changes the state.
pub send_if_modified_iff :
    (wire : Bool) (node_tip chain_tip filter_tip : ℕ) (s : State)
    → let (t, modified) = send_if_modified wire node_tip chain_tip filter_tip s in
      (modified ≡ true) ↔ (t ≢ s)
unfolding send_if_modified
send_if_modified_iff wire node_tip chain_tip filter_tip s = ground arith
