-- ===== src/Node/Backend.antt =====
-- What src/node/mod.rs calls in other crates (bitcoin, floresta, futures), as one record of types
-- and functions that the node takes as a parameter. `World` stands for all that those crates and
-- the other tasks own; a call reads it and leaves another one, so that any answer may follow any
-- other.
use bdk_floresta.Prelude.{ℕ, Bool, String, Option, List, Result}
use bdk_floresta.Fsm.{State}

-- `std::net::IpAddr` and `SocketAddr`, an address as its bits.
pub data IpAddr : Type 0 where
  v4 : ℕ → IpAddr
  v6 : ℕ → IpAddr

pub record SocketAddr : Type 0 where
  pub ip : IpAddr
  pub port : ℕ

pub record Backend : Type 1 where
  -- bitcoin
  pub Hash : Type 0
  pub Txid : Type 0
  pub Block : Type 0
  pub Header : Type 0
  pub Tx : Type 0
  pub Spk : Type 0
  pub Network : Type 0
  pub AddrV2 : Type 0
  pub hash_dec : Discrete Hash
  pub txid_dec : Discrete Txid
  pub network_dec : Discrete Network
  pub block_hash : Block → Hash
  pub compute_txid : Tx → Txid
  pub addr_ipv4 : ℕ → AddrV2
  pub addr_ipv6 : ℕ → AddrV2
  -- floresta: types
  pub NodeInner : Type 0
  pub PeerInfo : Type 0
  pub Stump : Type 0
  pub BitcoinSocketAddr : Type 0
  pub bitcoin_socket_addr : AddrV2 → ℕ → BitcoinSocketAddr
  pub ReachableNetwork : Type 0
  pub ChainError : Type 0
  pub FilterError : Type 0
  pub RecvError : Type 0
  pub MempoolError : Type 0
  pub IoError : Type 0
  -- how the types above are written by `{}`
  pub show_hash : Hash → String
  pub show_txid : Txid → String
  pub show_network : Network → String
  pub show_socket : SocketAddr → String
  pub show_chain_error : ChainError → String
  pub show_filter_error : FilterError → String
  pub show_recv_error : RecvError → String
  pub show_mempool_error : MempoolError → String
  pub show_io_error : IoError → String
  -- floresta: the chain state, the filters, and the handle of the wire node
  pub World : Type 0
  pub get_best_block : World → Result ChainError (ℕ × Hash) × World
  pub get_validation_index : World → Result ChainError ℕ × World
  pub get_height : World → Result ChainError ℕ × World
  pub get_block_height : Hash → World → Result ChainError (Option ℕ) × World
  pub get_block_hash : ℕ → World → Result ChainError Hash × World
  pub get_block_header : Hash → World → Result ChainError Header × World
  pub get_acc : World → Stump × World
  pub is_in_ibd : World → Bool × World
  pub flush_chain : World → Result ChainError (Unit {0}) × World
  pub filters_height : World → Result FilterError ℕ × World
  pub match_any : List Spk → Option ℕ → Option ℕ → World → Result FilterError (List Hash) × World
  pub get_peer_info : World → Result RecvError (List PeerInfo) × World
  pub get_block : Hash → World → Result RecvError (Option Block) × World
  pub broadcast_transaction : Tx → World → Result RecvError (Result MempoolError Txid) × World
  pub add_peer : BitcoinSocketAddr → Bool → World → Result RecvError Bool × World
  pub disconnect_peer : BitcoinSocketAddr → World → Result RecvError Bool × World
  pub remove_peer : BitcoinSocketAddr → World → Result RecvError Bool × World
  pub ping : World → Result RecvError Bool × World
  -- futures: what the futures of a list come to together, from what each comes to
  pub try_join_all : {E A : Type 0} → List (Result E A) → World → Result E (List A)
  -- tokio: what the node's other tasks have made of the watched state by the time of a read
  pub watched_state : World → State → State
  -- tokio: the time, in milliseconds
  pub now : World → ℕ
