-- ===== src/Node/Display.antt =====
-- src/node/mod.rs: `Display` of `Action`. src/node/error.rs: `Display` and `source` of `NodeError`.
use bdk_floresta.Prelude.{Option, none, some, String, ◌<>◌, decimal}
use bdk_floresta.Fsm.Display.{show_state}
use bdk_floresta.Node.Backend.{Backend}
use bdk_floresta.Node.Types.{
  Action, connecting_to_peer, disconnecting_from_peer, removing_peer, pinging, fetching_block,
  fetching_blocks, broadcasting_transaction, matching_filters, NodeError, not_running,
  already_running, dirty_shutdown, unresponsive_node, blockchain, mempool, missing_block,
  illegal_action, no_spks_provided, compact_block_filter, stop_height_exceeds_filter_tip,
}

module _ {B : Backend} where
  unfoldable pub show_action : Action B → String
  unfolding decimal
  show_action (connecting_to_peer socket) = "Connecting to peer=" <> B.show_socket socket
  show_action (disconnecting_from_peer socket) = "Disconnecting from peer=" <> B.show_socket socket
  show_action (removing_peer socket) = "Removing peer=" <> B.show_socket socket
  show_action pinging = "Pinging all peers"
  show_action (fetching_block hash) = "Fetching block with hash=" <> B.show_hash hash
  show_action (fetching_blocks count) = "Fetching " <> decimal count <> " blocks"
  show_action (broadcasting_transaction txid) =
      "Broadcasting transaction with txid=" <> B.show_txid txid
  show_action matching_filters = "Matching filters to block hashes"

  unfoldable pub show_node_error : NodeError B → String
  unfolding decimal show_action show_state
  show_node_error not_running = "The node is not running"
  show_node_error already_running = "The node is already running"
  show_node_error (dirty_shutdown e) =
      "The node failed to perform a clean shutdown: " <> B.show_io_error e
  show_node_error (unresponsive_node e) = "The node is unresponsive: " <> B.show_recv_error e
  show_node_error (blockchain e) = "Blockchain error: " <> B.show_chain_error e
  show_node_error (mempool e) = "Mempool error: " <> B.show_mempool_error e
  show_node_error (missing_block hash) =
      "The block with hash=" <> B.show_hash hash <> " does not exist in the chain"
  show_node_error (illegal_action state attempted) =
      "The requested action="
      <> show_action attempted
      <> " cannot be performed at the current state="
      <> show_state state
  show_node_error no_spks_provided = "No spks were provided when rescanning the blockchain"
  show_node_error (compact_block_filter e) = "Compact Block Filter error: " <> B.show_filter_error e
  show_node_error (stop_height_exceeds_filter_tip requested available) =
      "The provided stop_height="
      <> decimal requested
      <> " exceeds filter store height="
      <> decimal available

-- The errors of other crates that `Error::source` of `NodeError` passes on.
pub data Cause (B : Backend) : Type 0 where
  by_recv : B.RecvError → Cause B
  by_chain : B.ChainError → Cause B
  by_mempool : B.MempoolError → Cause B
  by_filter : B.FilterError → Cause B

-- `source` of `NodeError`.
unfoldable pub node_error_source : {B : Backend} → NodeError B → Option (Cause B)
node_error_source (unresponsive_node e) = some (by_recv e)
node_error_source (blockchain e) = some (by_chain e)
node_error_source (mempool e) = some (by_mempool e)
node_error_source (compact_block_filter e) = some (by_filter e)
node_error_source _ = none
