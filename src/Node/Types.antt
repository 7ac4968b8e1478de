-- ===== src/Node/Types.antt =====
-- src/node/mod.rs: `Action` and `Node`. src/node/error.rs: `NodeError`. src/node/builder.rs:
-- `NodeConfig`.
use bdk_floresta.Prelude.{ℕ, Bool, String, Option, List, ℕ_discrete}
use bdk_floresta.Fsm.{State}
use bdk_floresta.Node.Backend.{Backend, IpAddr, SocketAddr}

pub data Action (B : Backend) : Type 0 where
  connecting_to_peer : SocketAddr → Action B
  disconnecting_from_peer : SocketAddr → Action B
  removing_peer : SocketAddr → Action B
  pinging : Action B
  fetching_block : B.Hash → Action B
  fetching_blocks : ℕ → Action B
  broadcasting_transaction : B.Txid → Action B
  matching_filters : Action B

ip_dec : Discrete IpAddr
ip_dec = hlevel ℕ_discrete

socket_dec : Discrete SocketAddr
socket_dec = hlevel (ip_dec, ℕ_discrete)

-- The derived `Eq` and `Hash` of `Action`.
pub action_dec : (B : Backend) → Discrete (Action B)
action_dec B = hlevel (socket_dec, ℕ_discrete, B.hash_dec, B.txid_dec)

pub data NodeError (B : Backend) : Type 0 where
  not_running : NodeError B
  already_running : NodeError B
  dirty_shutdown : B.IoError → NodeError B
  unresponsive_node : B.RecvError → NodeError B
  blockchain : B.ChainError → NodeError B
  mempool : B.MempoolError → NodeError B
  missing_block : B.Hash → NodeError B
  illegal_action : (state : State) (attempted : Action B) → NodeError B
  no_spks_provided : NodeError B
  compact_block_filter : B.FilterError → NodeError B
  stop_height_exceeds_filter_tip : (requested available : ℕ) → NodeError B

-- A path is its text.
pub record NodeConfig (B : Backend) : Type 0 where
  pub network : B.Network
  pub datadir : String
  pub enable_powfps : Bool
  pub assume_valid : Option B.Hash
  pub assume_utreexo : Bool
  pub perform_backfill : Bool
  pub user_agent : String
  pub fixed_peers : Option (List SocketAddr)
  pub max_banscore : ℕ
  pub socks5_proxy : Option SocketAddr
  pub disable_dns_seeds : Bool
  pub allow_p2pv1_fallback : Bool
  pub mempool_size : ℕ
  pub address_man_size : Option ℕ
  pub reachable_nets : List B.ReachableNetwork

-- The handle, the chain state and the filters are the functions of `B` on `world`. A set of actions
-- is a list without repetitions, an instant its time in milliseconds, and `shutdown_task` tells
-- whether the join handle is there to be taken.
pub record Node (B : Backend) : Type 0 where
  pub inner : Option B.NodeInner
  pub config : NodeConfig B
  pub state : State
  pub started_at : Option ℕ
  pub actions : List (Action B)
  pub cancellation_token : Bool
  pub kill_signal : Bool
  pub shutdown_task : Bool
  pub world : B.World
