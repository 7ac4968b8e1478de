-- ===== src/Demo/Ending.antt =====
-- examples/client_regtest.rs and examples/client_signet.rs: the spawned scan, and how a program
-- that is told to stop ends.
pub mod Left
pub mod Parted
use bdk_floresta.Prelude.{Bool, true, false, Option, none, Result, ok, err}
use bdk_floresta.Node.{Node, NodeError}
use bdk_floresta.Node.Backend.{Backend}
use bdk_floresta.Node.Lifecycle.Calls.{shutdown}
use bdk_floresta.Builder.Platform.{Platform}
use bdk_floresta.Client.Types.{Client, ClientError, ScanKind, full_scan}
use bdk_floresta.Client.Wallet.{WalletLib}
use bdk_floresta.Client.Monad.{Outcome, done, failed, pending}
use bdk_floresta.Client.Create.{watching, drop}
use bdk_floresta.Client.Handle.{TaskEnd, still_running, ended, ScanHandle, cancel, stop}
use bdk_floresta.Client.Run.{scan_continuous}
use bdk_floresta.Client.Run.Ending.{then_cancelled, blocks_then_cancelled}
use bdk_floresta.Demo.Consumer.{App, Consumer, consume}
use bdk_floresta.Demo.Program.{Setup, MainError, Script}

abbrev pub scan_params : ScanKind
scan_params = full_scan none

module _ {B : Backend} where
  -- What an await of the task finds that runs a scan.
  abbrev pub task_end : Outcome (ClientError B) (Unit {0}) → TaskEnd B
  task_end (done tt) = ended (ok tt)
  task_end (failed e) = ended (err e)
  task_end pending = still_running

module _ {B : Backend} {W : WalletLib B} where
  -- The spawned task runs by itself.
  abbrev pub scan_alone : Script B → Client W → Outcome (ClientError B) (Unit {0}) × Client W
  scan_alone script c = scan_continuous script.wakes scan_params script.blocks c

  -- The spawned task under its token: if that is cancelled, then after what the script has for the
  -- task.
  abbrev pub spawned_scan :
      Script B → Client W → Bool → Outcome (ClientError B) (Unit {0}) × Client W
  spawned_scan script c true =
      scan_continuous (then_cancelled script.wakes) scan_params
        (blocks_then_cancelled script.blocks) c
  spawned_scan script c false = scan_alone script c

  -- The client goes with the task that owns it.
  unfoldable pub client_dropped : Client W → Client W
  unfolding drop
  client_dropped c = (drop (record { client = c; watcher = watching; dropped = false })).client

module _ {B : Backend} {W : WalletLib B} (A : App W) where
  -- What a program leaves: the node and the client that it has dropped, the scan's handle, the
  -- wallet in its consumer, and the scan's error that it has logged.
  pub record Ended : Type 0 where
    pub node : Node B
    pub client : Client W
    pub handle : ScanHandle
    pub consumer : Consumer A
    pub scan_error : Option (ClientError B)

module _ {B : Backend} {W : WalletLib B} {P : Platform B} {S : Setup W} {F : Type 0}
    (A : App W) where
  -- `node.shutdown().await?`, and the end of `main`.
  abbrev shut :
      Client W
      → ScanHandle
      → Consumer A
      → Option (ClientError B)
      → Result (NodeError B) (Unit {0}) × Node B
      → Outcome (MainError P S F) (Ended A)
  shut c h k e (ok tt, n) = done (record {
    node = n;
    client = record c { node = n };
    handle = h;
    consumer = k;
    scan_error = e;
  })
  shut c h k e (err f, n) = failed (MainError.node f)

  -- The lines after `scan_handle.stop().await`: the consumer comes to its end when the channel is
  -- drained, since the client went with the task, and the node is shut down.
  abbrev leave :
      Client W
      → Consumer A
      → Option (ClientError B)
      → Outcome (ClientError B) (Unit {0}) × ScanHandle
      → Outcome (MainError P S F) (Ended A)
  leave c k e (done tt, h) = shut (client_dropped c) h (consume A c.sent k) e (shutdown c.node)
  leave c k e (failed f, h) = failed (MainError.client f)
  leave c k e (pending, h) = pending

  -- `scan_handle.stop().await`, for a scan that comes to `task token` under its token, and the
  -- rest.
  unfoldable pub stop_and_leave :
      (Bool → Outcome (ClientError B) (Unit {0}) × Client W)
      → ScanHandle
      → Consumer A
      → Option (ClientError B)
      → Outcome (MainError P S F) (Ended A)
  unfolding stop cancel client_dropped shutdown
  stop_and_leave task h k e =
      let (o, h') = stop (λ token. task_end (task token).0) h in leave (task h'.token).1 k e (o, h')
