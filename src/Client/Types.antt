-- ===== src/Client/Types.antt =====
-- src/client/mod.rs: `ScanKind`, `ScanEvent`, `Client`. src/client/error.rs: `ClientError`.
use bdk_floresta.Prelude.{ℕ, Bool, String, ◌<>◌, Option, none, some, List, decimal}
use bdk_floresta.Node.{Node, NodeError}
use bdk_floresta.Node.Backend.{Backend}
use bdk_floresta.Node.Display.{show_node_error}
use bdk_floresta.Client.Wallet.{WalletLib, EventTx}

pub data ScanKind : Type 0 where
  sync : ScanKind
  full_scan : (custom_lookahead : Option ℕ) → ScanKind
  custom : (start_height custom_lookahead : ℕ) → ScanKind

pub data ClientError (B : Backend) : Type 0 where
  network_mismatch : (node_net wallet_net : B.Network) → ClientError B
  scan_aborted : ClientError B
  invalid_range : (start_height stop_height : ℕ) → ClientError B
  no_external_keychain : ClientError B
  unresponsive_node : ClientError B
  poisoned_lock : ClientError B
  node : NodeError B → ClientError B

-- `Display` of `ClientError`.
unfoldable pub show_client_error : {B : Backend} → ClientError B → String
unfolding decimal show_node_error
show_client_error {B} (network_mismatch node_net wallet_net) =
    "Network mismatch between node="
    <> B.show_network node_net
    <> " and wallet="
    <> B.show_network wallet_net
show_client_error scan_aborted = "The scan was aborted"
show_client_error (invalid_range start_height stop_height) =
    "Invalid scan range: start_height="
    <> decimal start_height
    <> " > stop_height="
    <> decimal stop_height
show_client_error no_external_keychain = "The wallet has no external keychain"
show_client_error unresponsive_node = "The node is unresponsive"
show_client_error poisoned_lock = "The event channel's lock is poisoned"
show_client_error (node e) = "Node Error: " <> show_node_error e

-- `source` of `ClientError`.
unfoldable pub client_error_source : {B : Backend} → ClientError B → Option (NodeError B)
client_error_source (node e) = some e
client_error_source _ = none

-- The mutex of a `BlockSink`: poisoned, or with the sender that forwards blocks, if there is one. A
-- sender is the number of its channel.
pub data BlockTx : Type 0 where
  poisoned_tx : BlockTx
  sender : Option ℕ → BlockTx

-- The client's `block_sink`, which the node shares by an `Arc`, with the registrations at the node,
-- the block channels opened so far, and the blocks that the latest channel holds.
pub record Forwarding (B : Backend) : Type 0 where
  pub block_sink : Option BlockTx
  pub subscribed : ℕ
  pub channels : ℕ
  pub queue : List (B.Block × ℕ)

module _ {B : Backend} where
  -- `bdk_wallet::Update`.
  pub record Update (W : WalletLib B) : Type 0 where
    pub tx_update : W.TxUpdate
    pub last_active_indices : W.LastActive
    pub chain : Option W.CheckPoint

  pub data ScanEvent (W : WalletLib B) : Type 0 where
    wallet_update : Update W → ScanEvent W
    finished : (keep_going : Bool) → ScanEvent W
    error : String → ScanEvent W

  -- `sent` logs the events that the client put into the channel, the first one first.
  pub record Client (W : WalletLib B) : Type 0 where
    pub node : Node B
    pub forwarding : Forwarding B
    pub checkpoint : W.CheckPoint
    pub tx_graph : W.IndexedTxGraph
    pub event_tx : EventTx
    pub sent : List (ScanEvent W)
    pub cancellation_token : Bool
