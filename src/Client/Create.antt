-- ===== src/Client/Create.antt =====
-- src/client/mod.rs: `Client::new` with the watcher that it spawns, and `Drop` of `Client`. The
-- watcher, the other holders of the two tokens and the client itself are steps of one session.
pub mod Shutdown
pub mod Matching
pub mod Following
use bdk_floresta.Prelude.{Bool, true, false, none, [], ◌∷◌, ◌++◌, Result, ok, err, ◌≡◌, ite}
use bdk_floresta.Node.{Node}
use bdk_floresta.Node.Backend.{Backend}
use bdk_floresta.Client.Types.{Client, ClientError, network_mismatch, ScanEvent}
use bdk_floresta.Client.Wallet.{WalletLib, EventTx, poisoned, taken, attached}

-- `guard.take()` under the lock, which does nothing where the lock is poisoned.
abbrev pub take_tx : EventTx → EventTx
take_tx poisoned = poisoned
take_tx _ = taken

module _ {B : Backend} (W : WalletLib B) where
  -- The client of a wallet; the receiver is the log of what is sent, and the watcher a step of the
  -- session below.
  abbrev pub client_of : Node B → W.Wallet → Client W
  client_of node wallet = record {
    node = node;
    forwarding = record { block_sink = none; subscribed = 0; channels = 0; queue = [] };
    checkpoint = W.latest_checkpoint wallet;
    tx_graph = W.new_graph (W.spk_index wallet);
    event_tx = attached;
    sent = [];
    cancellation_token = false;
  }

  -- `Client::new`.
  unfoldable pub new : Node B → W.Wallet → Result (ClientError B) (Client W)
  new node wallet =
      ite (B.network_dec (W.wallet_network wallet) node.config.network) (ok (client_of node wallet))
        (err (network_mismatch node.config.network (W.wallet_network wallet)))

-- Where the watcher stands: before its await, past it, with the client's token cancelled, over, or
-- aborted by the drop of the client.
pub data WatcherPoint : Type 0 where
  watching woken has_cancelled over aborted : WatcherPoint

pub record Session {B : Backend} (W : WalletLib B) : Type 0 where
  pub client : Client W
  pub watcher : WatcherPoint
  pub dropped : Bool

-- An abort takes effect at an await, so a watcher that is past its own runs on.
abbrev pub abort : WatcherPoint → WatcherPoint
abort watching = aborted
abort watcher = watcher

module _ {B : Backend} {W : WalletLib B} where
  -- `Drop` of `Client`.
  unfoldable pub drop : Session W → Session W
  drop s = record {
    client = record (s.client) { cancellation_token = true; event_tx = take_tx s.client.event_tx };
    watcher = abort s.watcher;
    dropped = true;
  }

  pub data SessionStep (s t : Session W) : Type 0 where
    -- the watcher, one line after another
    wake :
        s.watcher ≡ watching
        → s.client.node.cancellation_token ≡ true
        → t ≡ record s { watcher = woken }
        → SessionStep s t
    cancel_client :
        s.watcher ≡ woken
        → t ≡ record s {
          watcher = has_cancelled;
          client = record (s.client) { cancellation_token = true };
        }
        → SessionStep s t
    take_sender :
        s.watcher ≡ has_cancelled
        → t ≡ record s {
          watcher = over;
          client = record (s.client) { event_tx = take_tx s.client.event_tx };
        }
        → SessionStep s t
    -- any holder of the node's token, and any holder of the client's
    cancel_node :
        t ≡ record s {
          client = record (s.client) {
            node = record (s.client.node) { cancellation_token = true };
          };
        }
        → SessionStep s t
    cancel_scans :
        t ≡ record s { client = record (s.client) { cancellation_token = true } } → SessionStep s t
    -- the client: an event into its channel, while the sender is there and the client lives
    send :
        (event : ScanEvent W)
        → s.dropped ≡ false
        → s.client.event_tx ≡ attached
        → t ≡ record s { client = record (s.client) { sent = s.client.sent ++ event ∷ [] } }
        → SessionStep s t
    drop_client : s.dropped ≡ false → t ≡ drop s → SessionStep s t

  pub data SessionReach (s : Session W) : Session W → Type 0 where
    here : SessionReach s s
    next : {t u : Session W} → SessionReach s t → SessionStep t u → SessionReach s u
