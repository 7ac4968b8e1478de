-- ===== src/Client/Run/InStep.antt =====
-- src/client/mod.rs: the checkpoint of the client and that of a wallet that applies the updates, in
-- a whole scan.
use bdk_floresta.Prelude.{Bool, true, false, List, ◌≡◌}
use bdk_floresta.Node.Backend.{Backend}
use bdk_floresta.Client.Types.{Client, ClientError, ScanKind, finished, error, show_client_error}
use bdk_floresta.Client.Wallet.{WalletLib, attached}
use bdk_floresta.Client.Monad.{Outcome, done, failed, pending, pure, fail}
use bdk_floresta.Client.Update.{send_event}
use bdk_floresta.Client.Scan.{scan_inner}
use bdk_floresta.Client.Scan.Kept.{then-Keeps, scan_inner-Keeps}
use bdk_floresta.Client.Scan.InStep.{InStep, InStep-Stable, send_event-InStep}
use bdk_floresta.Client.Run.Kept.{
  wait_until_ready-Keeps, enable_block_forwarding-Keeps, watch_blocks-Keeps, with_guard-Keeps,
}
use bdk_floresta.Client.Run.{
  forwarded, StateWake, wait_until_ready, report, scan, BlockWake, watch_blocks,
  enable_block_forwarding, scan_continuous,
}

module _ {B : Backend} (W : WalletLib B) (tip : W.CheckPoint)
    (stays : (w : B.World) → W.event_tx_now w attached ≡ attached) where
  report-InStep :
      (keep_going : Bool) (r : Outcome (ClientError B) (Unit {0}) × Client W)
      → InStep W tip r.1
      → InStep W tip (report keep_going r).1
  unfolding report
  report-InStep keep_going (pending, c) s = s
  report-InStep keep_going (done tt, c) s =
      then-Keeps W (InStep W tip) (send_event (finished keep_going)) (λ _. pure tt)
        (λ d p. send_event-InStep W tip stays _ d p.1 p.0) (λ _ d p. p) c s
  report-InStep keep_going (failed e, c) s =
      then-Keeps W (InStep W tip) (send_event (error (show_client_error e))) (λ _. fail e)
        (λ d p. send_event-InStep W tip stays _ d p.1 p.0) (λ _ d p. p) c s

  -- Whatever a scan comes to, also when it fails, is aborted or still waits, a wallet that applies
  -- the updates of the channel in their order has the checkpoint of the client, and the channel is
  -- open, if this was so before the scan and nobody closes the channel or poisons its lock.
  pub scan-InStep :
      (wakes : List StateWake) (kind : ScanKind) (c : Client W)
      → InStep W tip c
      → InStep W tip (scan wakes kind c).1
  unfolding scan
  scan-InStep wakes kind =
      let S = InStep-Stable W tip stays in
      then-Keeps W (InStep W tip) (wait_until_ready wakes) _
        (wait_until_ready-Keeps W (InStep W tip) S wakes)
        λ _ c s.
          report-InStep false (scan_inner kind c)
            (scan_inner-Keeps W (InStep W tip) (InStep-Stable W tip stays) kind c s)

  -- At every moment of a continuous scan, also of its watch over new blocks, and whatever it comes
  -- to, a wallet that applies the updates of the channel in their order has the client's
  -- checkpoint, and the channel is open, if this was so before the scan and nobody closes the
  -- channel or poisons its lock.
  pub scan_continuous-InStep :
      (wakes : List StateWake) (kind : ScanKind) (blocks : List (BlockWake B)) (c : Client W)
      → InStep W tip c
      → InStep W tip (scan_continuous wakes kind blocks c).1
  unfolding scan_continuous
  scan_continuous-InStep wakes kind blocks =
      let S = InStep-Stable W tip stays in
      then-Keeps W (InStep W tip) (wait_until_ready wakes) _
        (wait_until_ready-Keeps W (InStep W tip) S wakes)
        λ _.
          then-Keeps W (InStep W tip) enable_block_forwarding _
            (enable_block_forwarding-Keeps W (InStep W tip) S)
            λ _ c s. with_guard-Keeps W (InStep W tip) S _ (
              then-Keeps W (InStep W tip) (λ d. report true (scan_inner kind d))
                (λ _. watch_blocks (forwarded c.forwarding blocks))
                (λ d p.
                  report-InStep true (scan_inner kind d)
                    (scan_inner-Keeps W (InStep W tip) (InStep-Stable W tip stays) kind d p))
                (λ _. watch_blocks-Keeps W (InStep W tip) S (forwarded c.forwarding blocks)) c s)
