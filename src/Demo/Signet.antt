-- ===== src/Demo/Signet.antt =====
-- examples/client_signet.rs: `main`. Its log calls are left out, with the two tasks that only log;
-- the scan's error that it logs is kept.
pub mod Leaving
pub mod Reporting
pub mod Serving
pub mod CatchUp
use bdk_floresta.Prelude.{true, String, none, some, [], if◌then◌else◌}
use bdk_floresta.Node.{NodeConfig}
use bdk_floresta.Node.Backend.{Backend}
use bdk_floresta.Node.Lifecycle.Calls.{run}
use bdk_floresta.Builder.{Logger}
use bdk_floresta.Builder.Platform.{Platform, info}
use bdk_floresta.Builder.Configuration.{default_config}
use bdk_floresta.Builder.Logging.{init}
use bdk_floresta.Builder.Build.{build}
use bdk_floresta.Client.Types.{Client, ClientError}
use bdk_floresta.Client.Wallet.{WalletLib}
use bdk_floresta.Client.Monad.{Outcome, done, failed, pending}
use bdk_floresta.Client.Create.{new}
use bdk_floresta.Client.Handle.{ScanHandle, new_handle, join}
use bdk_floresta.Demo.Consumer.{App, Consumer}
use bdk_floresta.Demo.Program.{
  Setup, MainError, Script, builder, ◌>>=◌, given, called, finally, changing, ran,
}
use bdk_floresta.Demo.Ending.{task_end, scan_alone, spawned_scan, Ended, stop_and_leave}

abbrev pub data_dir : String
data_dir = "./examples/data/client_signet/"

abbrev pub desc_ext : String
desc_ext =
    "wpkh([9cee26c8/84h/1h/0h]tpubDDuCfGKBYo4pQjNcpVkdLktdYm9wZiowEXMKM4Nn9QBcbnu5ikxmqZyXuhDgcdfr8zcuR66iLCmManN9XguSpP2m2SZyUsJsdCKQkcru6VG/0/*)"

abbrev pub desc_int : String
desc_int =
    "wpkh([9cee26c8/84h/1h/0h]tpubDDuCfGKBYo4pQjNcpVkdLktdYm9wZiowEXMKM4Nn9QBcbnu5ikxmqZyXuhDgcdfr8zcuR66iLCmManN9XguSpP2m2SZyUsJsdCKQkcru6VG/1/*)"

abbrev pub signet_logger : {B : Backend} (P : Platform B) → Logger P
signet_logger P = record {
  log_level = info;
  log_to_stdout = true;
  log_file = some (P.join_path data_dir "client_signet.log");
}

abbrev pub signet_config : {B : Backend} (P : Platform B) → NodeConfig B
signet_config P = record (default_config P) {
  network = P.signet;
  datadir = P.join_path data_dir "bdk_floresta";
}

module _ {B : Backend} {W : WalletLib B} (P : Platform B) (S : Setup W) {F : Type 0} where
  -- `main` up to the spawn of the scan.
  unfoldable pub signet_client : B.World → Outcome (MainError P S F) (Client W × W.Wallet) × B.World
  signet_client = do
    _ ← changing (S.set_var "RUST_LOG" "client_signet=info")
    _ ← called builder (init P (signet_logger P))
    built ← called builder (build P (record { config = signet_config P; logger = none }))
    running ← (λ w. (ran (run built.0), w))
    wallet ← given MainError.create_wallet (S.create_wallet desc_ext desc_int P.signet)
    client ← given MainError.client (new W running wallet)
    finally (client, wallet)

module _ {B : Backend} {W : WalletLib B} {P : Platform B} {S : Setup W} {F : Type 0}
    (A : App W) where
  -- After `scan_handle.join()`.
  abbrev pub after_join :
      Outcome (ClientError B) (Unit {0}) × Client W
      → Consumer A
      → Outcome (ClientError B) (Unit {0}) × ScanHandle
      → Outcome (MainError P S F) (Ended A)
  after_join r k (done tt, h) = stop_and_leave A (λ _. r) h k none
  after_join r k (failed e, h) = stop_and_leave A (λ _. r) h k (some e)
  after_join r k (pending, h) = pending

  -- `main` from the spawn of the scan on: the `select!` on a SIGINT and the end of the scan.
  unfoldable pub signet_scan : Script B → Client W → W.Wallet → Outcome (MainError P S F) (Ended A)
  unfolding new_handle join
  signet_scan script c wallet =
      let k : Consumer A = record { wallet = wallet; lines = [] } in
      let h = new_handle c.cancellation_token in
      let alone = scan_alone script c in
      if script.interrupted
      then stop_and_leave A (spawned_scan script c) h k none
      else after_join alone k (join (task_end alone.0) h)

  unfoldable pub signet : Script B → B.World → Outcome (MainError P S F) (Ended A) × B.World
  signet script = do
    (client, wallet) ← signet_client P S
    λ w. (signet_scan script client wallet, w)
