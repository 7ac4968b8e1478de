-- ===== src/Builder/Configuration.antt =====
-- src/node/builder.rs: `NodeConfig::default` and the conversion to floresta's configuration.
use bdk_floresta.Prelude.{true, false, String, Option, none, some, List, [], map, if◌then◌else◌}
use bdk_floresta.Node.{NodeConfig}
use bdk_floresta.Node.Backend.{Backend, SocketAddr}
use bdk_floresta.Builder.Platform.{Platform, UtreexoNodeConfig}

module _ {B : Backend} (P : Platform B) where
  -- `NodeConfig::default`. The braces in the path are the source's: nothing fills them in.
  unfoldable pub default_config : NodeConfig B
  default_config = record {
    network = P.signet;
    datadir = P.join_path "./data/{}" (B.show_network P.signet);
    enable_powfps = true;
    assume_valid = none;
    assume_utreexo = true;
    perform_backfill = false;
    user_agent = P.user_agent;
    fixed_peers = none;
    max_banscore = 100;
    socks5_proxy = none;
    disable_dns_seeds = false;
    allow_p2pv1_fallback = true;
    mempool_size = 100;
    address_man_size = none;
    reachable_nets = P.supported_nets;
  }

  -- `value.fixed_peers.into_iter().flatten().map(|addr| addr.to_string()).collect()`.
  abbrev peer_texts : Option (List SocketAddr) → List String
  peer_texts none = []
  peer_texts (some peers) = map B.show_socket peers

  -- `UtreexoNodeConfig::from`.
  unfoldable pub from_config : NodeConfig B → UtreexoNodeConfig B P.AssumeUtreexo
  from_config value = record {
    network = value.network;
    pow_fraud_proofs = value.enable_powfps;
    compact_filters = true;
    fixed_peers = peer_texts value.fixed_peers;
    max_banscore = value.max_banscore;
    datadir = value.datadir;
    proxy = value.socks5_proxy;
    assume_utreexo =
        if value.assume_utreexo then some (P.get_assume_utreexo value.network) else none;
    backfill = value.perform_backfill;
    filter_start_height = some 0;
    user_agent = value.user_agent;
    allow_v1_fallback = value.allow_p2pv1_fallback;
    disable_dns_seeds = value.disable_dns_seeds;
  }
