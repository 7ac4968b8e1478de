-- ===== src/Builder/Build.antt =====
-- src/node/builder.rs: `Builder` and `Builder::build`.
pub mod Fresh
pub mod Stopped
use bdk_floresta.Prelude.{ℕ, ◌*◌, ◌%◌, ◌^◌, false, Option, none, some, [], Result, ok}
use bdk_floresta.Fsm.{inactive}
use bdk_floresta.Node.{Node, NodeConfig}
use bdk_floresta.Node.Backend.{Backend}
use bdk_floresta.Builder.Platform.{Platform}
use bdk_floresta.Builder.Types.{
  BuilderError, create_directory, chain_state, chain_store_init, build_inner, Logger, Builder, Make,
  ◌>>=◌, make, infallible, attempt,
}
use bdk_floresta.Builder.Logging.{init}
use bdk_floresta.Builder.Configuration.{default_config, from_config}

abbrev pub bytes_per_mb : ℕ
bytes_per_mb = 1000000

module _ {B : Backend} (P : Platform B) where
  -- `Builder::default`, which `Builder::new` returns.
  unfoldable pub new : Builder P
  new = record { config = default_config P; logger = none }

  unfoldable pub with_config : NodeConfig B → Builder P → Builder P
  with_config config b = record b { config = config }

  unfoldable pub with_logger : Logger P → Builder P → Builder P
  with_logger logger b = record b { logger = some logger }

  abbrev pub init_logger : Option (Logger P) → Make P (Option P.WorkerGuard)
  init_logger none = make none
  init_logger (some logger) = init P logger

  -- The mempool's size in bytes: a `usize` product, which wraps.
  abbrev mempool_size_bytes : NodeConfig B → ℕ
  mempool_size_bytes config = (config.mempool_size * bytes_per_mb) % 2 ^ 64

  -- The stores of the data directory, and the inner node over them.
  unfoldable pub build_node : NodeConfig B → Make P B.NodeInner
  build_node config = do
    store ← attempt chain_store_init (P.open_chain_store (P.join_path config.datadir "chain"))
    state ← attempt BuilderError.chain_state (P.open_chain_state store config.network)
    filters ← infallible (P.open_filters (P.join_path config.datadir "filters"))
    attempt build_inner (
        P.new_utreexo_node (from_config P config) state (P.new_mempool (mempool_size_bytes config))
          filters (P.new_address_man config.address_man_size config.reachable_nets))

  -- The node around an inner node, in a world.
  abbrev pub node_of : NodeConfig B → B.NodeInner → B.World → Node B
  node_of config inner w = record {
    inner = some inner;
    config = config;
    state = inactive;
    started_at = none;
    actions = [];
    cancellation_token = false;
    kill_signal = false;
    shutdown_task = false;
    world = w;
  }

  -- `Builder::build`, with the logger's guard that the node keeps.
  unfoldable pub build :
      Builder P → B.World → Result (BuilderError P) (Node B × Option P.WorkerGuard) × B.World
  build b = do
    _ ← attempt create_directory (P.create_dir_all b.config.datadir)
    log_guard ← init_logger b.logger
    inner ← build_node b.config
    λ w. (ok (node_of b.config inner w, log_guard), w)
