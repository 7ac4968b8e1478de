-- ===== src/Examples/Fixture.antt =====
-- Concrete stand-ins: a chain of ten blocks whose hashes are their heights, peers that serve every
-- block, and a wallet library whose checkpoint is a height.
use Prim.Native.Nat.{max}
use bdk_floresta.Prelude.{
  err, List, Result, ℕ, ◌+◌, Bool, true, false, none, some, [], ◌∷◌, ok, ℕ_discrete, decimal,
}
use bdk_floresta.Fsm.{operational, inactive}
use bdk_floresta.Node.{Node, NodeConfig, fetching_block}
use bdk_floresta.Node.Backend.{Backend, SocketAddr, v4}
use bdk_floresta.Client.{Client, Forwarding}
use bdk_floresta.Client.Wallet.{WalletLib, external, internal, attached}

abbrev pub join_cons : {E A : Type 0} → A → Result E (List A) → Result E (List A)
join_cons a (ok as') = ok (a ∷ as')
join_cons a (err e) = err e

-- The values of all results, or the first error.
abbrev pub join_all : {E A : Type 0} → List (Result E A) → Result E (List A)
join_all [] = ok []
join_all (ok a ∷ rs) = join_cons a (join_all rs)
join_all (err e ∷ rs) = err e

abbrev pub crates : Backend
crates = record {
  Hash = ℕ;
  Txid = ℕ;
  Block = ℕ;
  Header = ℕ;
  Tx = ℕ;
  Spk = ℕ;
  Network = ℕ;
  AddrV2 = ℕ;
  hash_dec = ℕ_discrete;
  txid_dec = ℕ_discrete;
  network_dec = ℕ_discrete;
  block_hash = λ b. b;
  compute_txid = λ tx. tx;
  addr_ipv4 = λ ip. ip;
  addr_ipv6 = λ ip. ip;
  NodeInner = Unit {0};
  PeerInfo = ℕ;
  Stump = ℕ;
  BitcoinSocketAddr = ℕ;
  bitcoin_socket_addr = λ address port. address + port;
  ReachableNetwork = ℕ;
  ChainError = Unit {0};
  FilterError = Unit {0};
  RecvError = Unit {0};
  MempoolError = Unit {0};
  IoError = Unit {0};
  show_hash = decimal;
  show_txid = decimal;
  show_network = decimal;
  show_socket = λ _. "peer";
  show_chain_error = λ _. "chain";
  show_filter_error = λ _. "filter";
  show_recv_error = λ _. "closed";
  show_mempool_error = λ _. "mempool";
  show_io_error = λ _. "io";
  World = ℕ;
  get_best_block = λ w. (ok (10, 10), w);
  get_validation_index = λ w. (ok 10, w);
  get_height = λ w. (ok 10, w);
  get_block_height = λ hash w. (ok (some hash), w);
  get_block_hash = λ height w. (ok height, w);
  get_block_header = λ hash w. (ok hash, w);
  get_acc = λ w. (0, w);
  is_in_ibd = λ w. (false, w);
  flush_chain = λ w. (ok tt, w);
  filters_height = λ w. (ok 10, w);
  match_any = λ spks start stop w. (ok (7 ∷ 9 ∷ []), w);
  get_peer_info = λ w. (ok (1 ∷ []), w);
  get_block = λ hash w. (ok (some hash), w + 1);
  broadcast_transaction = λ tx w. (ok (ok tx), w);
  add_peer = λ address fallback w. (ok fallback, w);
  disconnect_peer = λ address w. (ok true, w);
  remove_peer = λ address w. (ok true, w);
  ping = λ w. (ok true, w);
  try_join_all = λ rs w. join_all rs;
  watched_state = λ w s. s;
  now = λ w. w;
}

abbrev pub library : WalletLib crates
library = record {
  CheckPoint = ℕ;
  height = λ cp. cp;
  insert_block = λ height hash cp. max height cp;
  Index = ℕ;
  lookahead = λ index. index;
  last_revealed_index = λ index keychain. some 3;
  SpkIter = ℕ;
  unbounded_spk_iter = λ index keychain. elim keychain [ external ↦ some 100 | internal ↦ none ];
  next_spk = λ n. some ((n, n), n + 1);
  LastActive = ℕ;
  last_used_indices = λ index. index;
  Graph = ℕ;
  TxUpdate = ℕ;
  tx_update_of = λ graph. graph;
  IndexedTxGraph = ℕ × ℕ;
  new_graph = λ index. (index, 0);
  graph = λ g. g.1;
  index = λ g. g.0;
  ChangeSet = Bool;
  changes_nothing = λ changes. changes;
  apply_block_relevant = λ block height g. (false, (g.0, g.1 + 1));
  Wallet = ℕ;
  wallet_network = λ wallet. wallet;
  spk_index = λ wallet. 25;
  latest_checkpoint = λ wallet. wallet;
  cancelled_by_others = λ w. false;
  event_tx_now = λ w tx. tx;
  cancelled_in_flight = λ w. none;
}

-- The same with a token that is cancelled whenever blocks are fetched.
abbrev pub impatient : WalletLib crates
impatient = record library { cancelled_in_flight = λ w. some w }

abbrev pub config : NodeConfig crates
config = record {
  network = 1;
  datadir = "data";
  enable_powfps = true;
  assume_valid = none;
  assume_utreexo = true;
  perform_backfill = false;
  user_agent = "agent";
  fixed_peers = none;
  max_banscore = 100;
  socks5_proxy = none;
  disable_dns_seeds = false;
  allow_p2pv1_fallback = true;
  mempool_size = 100;
  address_man_size = none;
  reachable_nets = [];
}

abbrev pub built : Node crates
built = record {
  inner = some tt;
  config = config;
  state = inactive;
  started_at = none;
  actions = [];
  cancellation_token = false;
  kill_signal = false;
  shutdown_task = false;
  world = 0;
}

abbrev pub ready : Node crates
ready = record built { inner = none; state = operational; actions = fetching_block 4 ∷ [] }

abbrev pub peer : SocketAddr
peer = record { ip = v4 2130706433; port = 8333 }

abbrev pub unused : Forwarding crates
unused = record { block_sink = none; subscribed = 0; channels = 0; queue = [] }

abbrev pub client : Client library
client = record {
  node = ready;
  forwarding = unused;
  checkpoint = 0;
  tx_graph = (25, 0);
  event_tx = attached;
  sent = [];
  cancellation_token = false;
}

abbrev pub hasty : Client impatient
hasty = record {
  node = ready;
  forwarding = unused;
  checkpoint = 0;
  tx_graph = (25, 0);
  event_tx = attached;
  sent = [];
  cancellation_token = false;
}
