-- ===== src/Client/Create/Matching.antt =====
-- src/client/mod.rs: which client `Client::new` yields.
use bdk_floresta.Prelude.{List, ok, ◌≡◌, ◌↔◌, arith}
use bdk_floresta.Node.{Node}
use bdk_floresta.Node.Backend.{Backend}
use bdk_floresta.Client.Types.{Client, ScanKind}
use bdk_floresta.Client.Wallet.{WalletLib, attached}
use bdk_floresta.Client.Create.{client_of, new}
use bdk_floresta.Client.Run.{StateWake, BlockWake, scan_continuous}
use bdk_floresta.Client.Run.InStep.{scan_continuous-InStep}
use bdk_floresta.Client.Scan.InStep.{InStep, wallet_tip}

module _ {B : Backend} (W : WalletLib B) where
  -- A client is created exactly for a wallet on the node's network.
  pub new-ok :
      (node : Node B) (wallet : W.Wallet)
      → ((c : Client W) × (new W node wallet ≡ ok c))
        ↔ (W.wallet_network wallet ≡ node.config.network)
  unfolding new
  new-ok node wallet = (λ h. ground arith, λ h. (client_of W node wallet, ground arith))

  new-InStep :
      (node : Node B) (wallet : W.Wallet) (c : Client W)
      → new W node wallet ≡ ok c
      → InStep W (W.latest_checkpoint wallet) c
  unfolding new
  new-InStep node wallet c h = ground arith

  -- If others leave an open channel open, then at every moment of a continuous scan by a client
  -- that was created for a wallet, that wallet has the client's checkpoint once it has applied, in
  -- their order, the updates that the client has sent.
  pub new-scan_continuous-InStep :
      (stays : (w : B.World) → W.event_tx_now w attached ≡ attached) (node : Node B)
      (wallet : W.Wallet) (c : Client W)
      → new W node wallet ≡ ok c
      → (wakes : List StateWake) (kind : ScanKind) (blocks : List (BlockWake B))
      → let d = (scan_continuous wakes kind blocks c).1 in
        wallet_tip W (W.latest_checkpoint wallet) d.sent ≡ d.checkpoint
  new-scan_continuous-InStep stays node wallet c h wakes kind blocks =
      (scan_continuous-InStep W (W.latest_checkpoint wallet) stays wakes kind blocks c
        (new-InStep node wallet c h)).0
