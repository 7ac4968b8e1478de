-- ===== src/Builder/Platform.antt =====
-- What src/node/builder.rs and src/logger.rs call in the standard library, in tracing and in
-- floresta, as one record that they take as a parameter.
use bdk_floresta.Prelude.{ℕ, Bool, String, Option, List, Result}
use bdk_floresta.Node.Backend.{Backend, SocketAddr}

-- floresta's `UtreexoNodeConfig`, with the fields that the source writes. A value that Floresta
-- keeps for a network is of the type `A`.
pub record UtreexoNodeConfig (B : Backend) (A : Type 0) : Type 0 where
  pub network : B.Network
  pub pow_fraud_proofs : Bool
  pub compact_filters : Bool
  pub fixed_peers : List String
  pub max_banscore : ℕ
  pub datadir : String
  pub proxy : Option SocketAddr
  pub assume_utreexo : Option A
  pub backfill : Bool
  pub filter_start_height : Option ℕ
  pub user_agent : String
  pub allow_v1_fallback : Bool
  pub disable_dns_seeds : Bool

-- `tracing::Level`, the five names that the source writes.
pub data Level : Type 0 where
  error warn info debug trace : Level

-- `OffsetTime`: an offset, and how a time is described.
pub record Timer (Offset : Type 0) : Type 0 where
  pub offset : Offset
  pub description : String

-- src/logger.rs: `ShortTargetFormatter`.
pub record ShortTargetFormatter (Offset : Type 0) : Type 0 where
  pub timer : Timer Offset

pub record Platform (B : Backend) : Type 1 where
  -- paths, which are their texts, and files
  pub join_path : String → String → String
  pub parent : String → Option String
  pub file_name : String → Option String
  pub create_dir_all : String → B.World → Result B.IoError (Unit {0}) × B.World
  pub open_append : String → B.World → Result B.IoError (Unit {0}) × B.World
  pub stdout_is_terminal : B.World → Bool
  -- tracing
  pub Filter : Type 0
  pub filter_from_env : B.World → Option Filter
  pub filter_of_level : Level → Filter
  pub Writer : Type 0
  pub WorkerGuard : Type 0
  -- a non-blocking writer into a file of a directory, with the guard of its thread
  pub file_writer : String → String → B.World → (Writer × WorkerGuard) × B.World
  -- the local time's offset, if it can be found
  pub Offset : Type 0
  pub utc : Offset
  pub current_local_offset : B.World → Option Offset
  -- the stdout layer is its ANSI flag and its formatter, the file layer its writer and its
  -- formatter
  pub try_init :
      Filter
      → Option (Bool × ShortTargetFormatter Offset)
      → Option (Writer × ShortTargetFormatter Offset)
      → B.World
      → Result (Unit {0}) (Unit {0}) × B.World
  -- floresta
  pub signet : B.Network
  pub supported_nets : List B.ReachableNetwork
  pub AssumeUtreexo : Type 0
  pub get_assume_utreexo : B.Network → AssumeUtreexo
  pub ChainStore : Type 0
  pub StoreError : Type 0
  pub open_chain_store : String → B.World → Result StoreError ChainStore × B.World
  pub ChainState : Type 0
  pub open_chain_state : ChainStore → B.Network → B.World → Result B.ChainError ChainState × B.World
  pub Filters : Type 0
  pub open_filters : String → B.World → Filters × B.World
  pub Mempool : Type 0
  pub new_mempool : ℕ → Mempool
  pub AddressMan : Type 0
  pub new_address_man : Option ℕ → List B.ReachableNetwork → AddressMan
  pub WireError : Type 0
  pub new_utreexo_node :
      UtreexoNodeConfig B AssumeUtreexo
      → ChainState
      → Mempool
      → Filters
      → AddressMan
      → B.World
      → Result WireError B.NodeInner × B.World
  pub show_store_error : StoreError → String
  pub show_wire_error : WireError → String
  -- the build script's `USER_AGENT`
  pub user_agent : String
