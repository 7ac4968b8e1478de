-- ===== src/Node/Local.antt =====
-- src/node/mod.rs: the action set, the watched state, and the methods that ask the node's own
-- stores.
use bdk_floresta.Prelude.{
  ℕ, Bool, true, false, none, some, List, Result, ok, err, ok_or, map_err, and_then, ltb, ◌-◌,
  if◌then◌else◌,
}
use bdk_floresta.Prelude.Sets.{insert, remove}
use bdk_floresta.Fsm.{State, operational}
use bdk_floresta.Node.Backend.{Backend}
use bdk_floresta.Node.Types.{
  Action, matching_filters, action_dec, Node, NodeError, not_running, blockchain, missing_block,
  illegal_action, compact_block_filter, stop_height_exceeds_filter_tip, unresponsive_node,
  NodeConfig,
}

abbrev pub is_operational : State → Bool
is_operational operational = true
is_operational _ = false

module _ {B : Backend} where
  -- A call of another crate, which leaves the node another world.
  abbrev pub call : {R : Type 0} → (B.World → R × B.World) → Node B → R × Node B
  call f n = let (r, w) = f n.world in (r, record n { world = w })

  unfoldable pub track_action : Action B → Node B → Node B
  track_action action n = record n { actions = insert (action_dec B) action n.actions }

  unfoldable pub untrack_action : Action B → Node B → Node B
  untrack_action action n = record n { actions = remove (action_dec B) action n.actions }

  -- `self.state.borrow().clone()`: the other tasks may have sent states since the last read.
  unfoldable pub get_state : Node B → State × Node B
  get_state n = let s = B.watched_state n.world n.state in (s, record n { state = s })

  unfoldable pub flush : Node B → Result (NodeError B) (Unit {0}) × Node B
  flush n = let (r, n') = call B.flush_chain n in (map_err blockchain r, n')

  -- `Instant::elapsed` is the time since the instant, and zero if the clock went backwards.
  unfoldable pub uptime : Node B → Result (NodeError B) ℕ
  uptime n = elim n.started_at [ none ↦ err not_running | some t ↦ ok (B.now n.world - t) ]

  unfoldable pub get_actions : Node B → List (Action B)
  get_actions n = n.actions

  unfoldable pub get_config : Node B → NodeConfig B
  get_config n = n.config

  unfoldable pub in_ibd : Node B → Bool × Node B
  in_ibd = call B.is_in_ibd

  unfoldable pub get_chain_height : Node B → Result (NodeError B) ℕ × Node B
  get_chain_height n = let (r, n') = call B.get_height n in (map_err blockchain r, n')

  unfoldable pub get_node_height : Node B → Result (NodeError B) ℕ × Node B
  get_node_height n = let (r, n') = call B.get_validation_index n in (map_err blockchain r, n')

  unfoldable pub get_filter_height : Node B → Result (NodeError B) ℕ × Node B
  get_filter_height n =
      let (r, n') = call B.filters_height n in (map_err compact_block_filter r, n')

  unfoldable pub get_accumulator : Node B → B.Stump × Node B
  get_accumulator = call B.get_acc

  unfoldable pub get_block_height : B.Hash → Node B → Result (NodeError B) ℕ × Node B
  get_block_height hash n =
      let (r, n') = call (B.get_block_height hash) n in
      (and_then (map_err blockchain r) (λ o. ok_or o (missing_block hash)), n')

  unfoldable pub get_block_hash : ℕ → Node B → Result (NodeError B) B.Hash × Node B
  get_block_hash height n =
      let (r, n') = call (B.get_block_hash height) n in (map_err blockchain r, n')

  unfoldable pub get_block_header : B.Hash → Node B → Result (NodeError B) B.Header × Node B
  get_block_header hash n =
      let (r, n') = call (B.get_block_header hash) n in (map_err blockchain r, n')

  unfoldable pub get_peer_info : Node B → Result (NodeError B) (List B.PeerInfo) × Node B
  get_peer_info n = let (r, n') = call B.get_peer_info n in (map_err unresponsive_node r, n')

  -- `match_filters` past its guards: the scan itself, with its action in flight.
  matched :
      List B.Spk
      → (start_height stop_height : ℕ) → Node B
      → Result (NodeError B) (List B.Hash) × Node B
  unfolding track_action untrack_action
  matched spks start_height stop_height n =
      let (r, n') =
        call (B.match_any spks (some start_height) (some stop_height))
          (track_action matching_filters n) in
      (map_err compact_block_filter r, untrack_action matching_filters n')

  -- The guard on the filter tip.
  within_tip :
      List B.Spk
      → (start_height stop_height : ℕ) → Result (NodeError B) ℕ × Node B
      → Result (NodeError B) (List B.Hash) × Node B
  unfolding matched
  within_tip spks start_height stop_height (err e, n) = (err e, n)
  within_tip spks start_height stop_height (ok filter_tip, n) =
      if ltb filter_tip stop_height
      then (err (stop_height_exceeds_filter_tip stop_height filter_tip), n)
      else matched spks start_height stop_height n

  unfoldable pub match_filters :
      List B.Spk
      → (start_height stop_height : ℕ) → Node B
      → Result (NodeError B) (List B.Hash) × Node B
  unfolding get_state get_filter_height within_tip
  match_filters spks start_height stop_height n =
      let (last_state, n') = get_state n in
      if is_operational last_state
      then within_tip spks start_height stop_height (get_filter_height n')
      else (err (illegal_action last_state matching_filters), n')
