-- ===== src/Client/Update.antt =====
-- src/client/mod.rs: the client's token, its event channel, and the updates that it builds.
use bdk_floresta.Prelude.{ℕ, Bool, ◌||◌, some, [], ◌∷◌, ◌++◌, if◌then◌else◌}
use bdk_floresta.Node.Backend.{Backend}
use bdk_floresta.Client.Types.{
  Client, scan_aborted, poisoned_lock, Update, ScanEvent, wallet_update,
}
use bdk_floresta.Client.Wallet.{WalletLib, EventTx, poisoned, taken, attached}
use bdk_floresta.Client.Monad.{Scan, done, failed}

module _ {B : Backend} {W : WalletLib B} where
  -- The token as a check of it finds it: a child token is cancelled when the client's is.
  abbrev pub cancelled_now : Client W → Bool
  cancelled_now c = c.cancellation_token || W.cancelled_by_others c.node.world

  -- `if scan_token.is_cancelled() { return Err(ClientError::ScanAborted); }`
  unfoldable pub abort_if_cancelled : Scan W (Unit {0})
  abort_if_cancelled c =
      let c' = record c { cancellation_token = cancelled_now c } in
      if cancelled_now c then (failed scan_aborted, c') else (done tt, c')

  -- What a sender does with the event: a closed receiver is ignored, so nothing fails but the lock.
  abbrev deliver : ScanEvent W → EventTx → Scan W (Unit {0})
  deliver event poisoned c = (failed poisoned_lock, c)
  deliver event taken c = (done tt, c)
  deliver event attached c = (done tt, record c { sent = c.sent ++ event ∷ [] })

  unfoldable pub send_event : ScanEvent W → Scan W (Unit {0})
  send_event event c =
      let tx = W.event_tx_now c.node.world c.event_tx in
      deliver event tx (record c { event_tx = tx })

  -- The index is taken out of the graph and put into a new one; the default index that
  -- `mem::take` leaves in its place goes away with the old graph.
  unfoldable pub finish_update : Client W → Update W × Client W
  finish_update c = (
    record {
      tx_update = W.tx_update_of (W.graph c.tx_graph);
      last_active_indices = W.last_used_indices (W.index c.tx_graph);
      chain = some c.checkpoint;
    },
    record c { tx_graph = W.new_graph (W.index c.tx_graph) },
  )

  -- The block becomes the checkpoint, and an update with it goes to the subscribers.
  unfoldable pub publish : ℕ → B.Hash → Scan W (Unit {0})
  publish height hash c =
      let (update, c') =
        finish_update (record c { checkpoint = W.insert_block height hash c.checkpoint }) in
      send_event (wallet_update update) c'

  -- `apply_block_relevant`: has it changed anything?
  unfoldable pub apply_block : B.Block → ℕ → Scan W Bool
  apply_block block height c =
      let (changeset, g) = W.apply_block_relevant block height c.tx_graph in
      (done (W.changes_nothing changeset), record c { tx_graph = g })
