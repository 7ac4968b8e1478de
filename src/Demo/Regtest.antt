-- ===== src/Demo/Regtest.antt =====
-- examples/client_regtest.rs: `main`. Its log calls are left out, with the task that only logs.
pub mod Leaving
pub mod Running
use bdk_floresta.Prelude.{true, String, Option, none, some, List, [], ◌∷◌, if◌then◌else◌}
use bdk_floresta.Fsm.{State}
use bdk_floresta.Node.{NodeConfig}
use bdk_floresta.Node.Backend.{Backend, SocketAddr}
use bdk_floresta.Node.Lifecycle.Calls.{run}
use bdk_floresta.Builder.{Logger}
use bdk_floresta.Builder.Platform.{Platform, info}
use bdk_floresta.Builder.Configuration.{default_config}
use bdk_floresta.Builder.Logging.{init}
use bdk_floresta.Builder.Build.{build}
use bdk_floresta.Client.Types.{Client, ClientError}
use bdk_floresta.Client.Wallet.{WalletLib, external, internal}
use bdk_floresta.Client.Monad.{Outcome, done, failed, pending}
use bdk_floresta.Client.Create.{new}
use bdk_floresta.Client.Handle.{ScanHandle, new_handle, cancel, stop}
use bdk_floresta.Demo.Consumer.{App, Consumer}
use bdk_floresta.Demo.Program.{
  Setup, MainError, Script, builder, ◌>>=◌, given, called, finally, ran, changing,
}
use bdk_floresta.Demo.Ending.{task_end, spawned_scan, Ended, stop_and_leave}
use bdk_floresta.Demo.Mining.{Halfin, MiningError, process, watch_closed, panicked, Miner, mine}

abbrev pub data_dir : String
data_dir = "./examples/data/client_regtest/"

abbrev pub desc_ext : String
desc_ext =
    "tr([697412fb/86h/1h/0h]tpubDD5LyUwjWvkndncfQqMcNko6coES1ZehnsqykLLe8E3w7RX5dveHMJrXxhpvYLnSqQBuPVw9Lk7gSYnS9xyoLRQ21xpebdpCFt5ZNyorhHb/0/*)"

abbrev pub desc_int : String
desc_int =
    "tr([697412fb/86h/1h/0h]tpubDD5LyUwjWvkndncfQqMcNko6coES1ZehnsqykLLe8E3w7RX5dveHMJrXxhpvYLnSqQBuPVw9Lk7gSYnS9xyoLRQ21xpebdpCFt5ZNyorhHb/1/*)"

abbrev pub regtest_logger : {B : Backend} (P : Platform B) → Logger P
regtest_logger P = record {
  log_level = info;
  log_to_stdout = true;
  log_file = some (P.join_path data_dir "client_regtest.log");
}

abbrev pub regtest_config : {B : Backend} (P : Platform B) → B.Network → SocketAddr → NodeConfig B
regtest_config P network peer = record (default_config P) {
  network = network;
  datadir = P.join_path data_dir "bdk_floresta";
  fixed_peers = some (peer ∷ []);
}

module _ {B : Backend} (W : WalletLib B) {Address : Type 0} (H : Halfin B Address) where
  -- What `main` has when it comes to its scan.
  pub record Booted : Type 0 where
    pub bitcoind : H.BitcoinD
    pub utreexod : H.UtreexoD
    pub external_address : Address
    pub internal_address : Address
    pub client : Client W
    pub wallet : W.Wallet

module _ {B : Backend} {W : WalletLib B} (P : Platform B) (S : Setup W)
    (H : Halfin B S.Address) where
  abbrev two_addresses : W.Wallet → (S.Address × S.Address) × W.Wallet
  two_addresses wallet =
      let (address_ext, wallet₁) = S.reveal_next_address external wallet in
      let (address_int, wallet₂) = S.reveal_next_address internal wallet₁ in
      ((address_ext, address_int), wallet₂)

  -- The two processes, connected and level.
  unfoldable pub boot_processes :
      B.World → Outcome (MainError P S H.HalfinError) (H.BitcoinD × H.UtreexoD) × B.World
  boot_processes = do
    bitcoind ← called MainError.process (H.new_bitcoind (P.join_path data_dir "bitcoind"))
    utreexod ← called MainError.process (H.new_utreexod (P.join_path data_dir "utreexod"))
    _ ← called MainError.process (H.generate bitcoind 5)
    _ ← called MainError.process (H.connect bitcoind utreexod)
    tip ← called MainError.process (H.get_chain_tip bitcoind)
    _ ← called MainError.process (H.wait_for_height utreexod tip)
    filter_tip ← called MainError.process (H.get_filter_tip bitcoind)
    _ ← called MainError.process (H.wait_for_filter_height utreexod filter_tip)
    finally (bitcoind, utreexod)

  -- `main` up to the spawn of the scan.
  unfoldable pub regtest_client :
      B.World → Outcome (MainError P S H.HalfinError) (Booted W H) × B.World
  regtest_client = do
    _ ← changing (S.set_var "RUST_LOG" "client_regtest=info")
    _ ← called builder (init P (regtest_logger P))
    created ← given MainError.create_wallet (S.create_wallet desc_ext desc_int H.regtest)
    both ← boot_processes
    built ← called builder (
        build P
          (record { config = regtest_config P H.regtest (H.get_p2p_socket both.1); logger = none }))
    running ← (λ w. (ran (run built.0), w))
    client ← given MainError.client (new W running (two_addresses created).1)
    finally (record {
      bitcoind = both.0;
      utreexod = both.1;
      external_address = (two_addresses created).0.0;
      internal_address = (two_addresses created).0.1;
      client = client;
      wallet = (two_addresses created).1;
    })

module _ {B : Backend} {W : WalletLib B} {Address : Type 0} (H : Halfin B Address) (A : App W) where
  -- How `main` ends: by a SIGINT, or after its mining, with the scan's handle and the error that it
  -- has logged.
  pub data RegtestEnd : Type 0 where
    interrupted_end : Ended A → RegtestEnd
    mined : ScanHandle → Option (MiningError H.HalfinError) → Miner B → RegtestEnd

module _ {B : Backend} {W : WalletLib B} {P : Platform B} {S : Setup W} (H : Halfin B S.Address)
    (A : App W) where
  abbrev pub left :
      Outcome (MainError P S H.HalfinError) (Ended A)
      → Outcome (MainError P S H.HalfinError) (RegtestEnd H A)
  left (done x) = done (interrupted_end x)
  left (failed e) = failed e
  left pending = pending

  -- `scan_handle.stop().await` after the mining, and the end of `main`.
  abbrev pub after_stop :
      Option (MiningError H.HalfinError)
      → Miner B
      → Outcome (ClientError B) (Unit {0}) × ScanHandle
      → Outcome (MainError P S H.HalfinError) (RegtestEnd H A)
  after_stop e m (done _, h) = done (mined h e m)
  after_stop e m (failed f, h) = failed (MainError.client f)
  after_stop e m (pending, h) = pending

  abbrev pub after_mining :
      Outcome (MiningError H.HalfinError) (Unit {0}) × Miner B
      → Outcome (ClientError B) (Unit {0}) × ScanHandle
      → Outcome (MainError P S H.HalfinError) (RegtestEnd H A)
  after_mining (done _, m) stopped = after_stop none m stopped
  after_mining (failed panicked, m) stopped = failed MainError.panicked
  after_mining (failed (process f), m) stopped = after_stop (some (process f)) m stopped
  after_mining (failed watch_closed, m) stopped = after_stop (some watch_closed) m stopped
  after_mining (pending, m) stopped = pending

  -- `main` from the spawn of the scan on: the `select!` on a SIGINT and the mining. While it mines,
  -- the scan runs on its own view of the node; each sees what the other does as a change of the
  -- world.
  unfoldable pub regtest_scan :
      Script B
      → List (Option State)
      → Booted W H
      → Outcome (MainError P S H.HalfinError) (RegtestEnd H A)
  unfolding new_handle cancel stop
  regtest_scan script states b =
      let h = new_handle b.client.cancellation_token in
      let task = spawned_scan script b.client in
      let k : Consumer A = record { wallet = b.wallet; lines = [] } in
      let mining =
        mine H b.bitcoind b.utreexod b.external_address b.internal_address states
          (record { node = b.client.node; lines = [] }) in
      if script.interrupted
      then left (stop_and_leave A task h k none)
      else after_mining mining (stop (λ token. task_end (task token).0) h)

  unfoldable pub regtest :
      Script B
      → List (Option State)
      → B.World
      → Outcome (MainError P S H.HalfinError) (RegtestEnd H A) × B.World
  regtest script states = do
    booted ← regtest_client P S H
    λ w. (regtest_scan script states booted, w)
