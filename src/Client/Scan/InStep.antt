-- ===== src/Client/Scan/InStep.antt =====
-- src/client/mod.rs: the checkpoint of the client and that of a wallet that applies the updates, in
-- `scan_inner`.
use bdk_floresta.Prelude.{ℕ, none, some, List, [], ◌∷◌, ◌++◌, ◌≡◌, refl, ◌∙◌, arith}
use bdk_floresta.Node.Backend.{Backend}
use bdk_floresta.Client.Types.{Client, ScanEvent, wallet_update, finished, error}
use bdk_floresta.Client.Wallet.{WalletLib, attached}
use bdk_floresta.Client.Monad.{done}
use bdk_floresta.Client.Update.{send_event, finish_update, publish}
use bdk_floresta.Client.Scan.Kept.{Keeps, Stable}

module _ {B : Backend} (W : WalletLib B) where
  -- The checkpoint of a wallet after it has applied the updates among the events.
  abbrev pub wallet_tip : W.CheckPoint → List (ScanEvent W) → W.CheckPoint
  wallet_tip tip [] = tip
  wallet_tip tip (wallet_update u ∷ events) =
      wallet_tip (elim u.chain [ none ↦ tip | some cp ↦ cp ]) events
  wallet_tip tip (finished _ ∷ events) = wallet_tip tip events
  wallet_tip tip (error _ ∷ events) = wallet_tip tip events

  pub wallet_tip-append :
      (tip : W.CheckPoint) (es fs : List (ScanEvent W))
      → wallet_tip tip (es ++ fs) ≡ wallet_tip (wallet_tip tip es) fs
  wallet_tip-append tip [] fs = refl
  wallet_tip-append tip (wallet_update u ∷ es) fs =
      wallet_tip-append (elim u.chain [ none ↦ tip | some cp ↦ cp ]) es fs
  wallet_tip-append tip (finished _ ∷ es) fs = wallet_tip-append tip es fs
  wallet_tip-append tip (error _ ∷ es) fs = wallet_tip-append tip es fs

module _ {B : Backend} (W : WalletLib B) (tip : W.CheckPoint) where
  -- The channel is open, and the client and a wallet that began at `tip` and has applied all that
  -- the channel got agree on the checkpoint.
  abbrev pub InStep : Client W → Type 0
  InStep c = (wallet_tip W tip c.sent ≡ c.checkpoint) × (c.event_tx ≡ attached)

module _ {B : Backend} (W : WalletLib B) (tip : W.CheckPoint)
    (stays : (w : B.World) → W.event_tx_now w attached ≡ attached) where
  pub send_event-attached :
      (event : ScanEvent W) (c : Client W)
      → c.event_tx ≡ attached
      → send_event event c
        ≡ (done tt, record c { event_tx = attached; sent = c.sent ++ event ∷ [] })
  unfolding send_event
  send_event-attached event c e = ground (arith, stays c.node.world)

  -- Sending an event keeps them in step if the event moves a wallet to the client's checkpoint.
  pub send_event-InStep :
      (event : ScanEvent W) (c : Client W)
      → c.event_tx ≡ attached
      → wallet_tip W (wallet_tip W tip c.sent) (event ∷ []) ≡ c.checkpoint
      → InStep W tip (send_event event c).1
  send_event-InStep event c e moved =
      rw (send_event-attached event c e) (wallet_tip-append W tip c.sent (event ∷ []) ∙ moved, refl)

  publish-Keeps : (height : ℕ) (hash : B.Hash) → Keeps W (InStep W tip) (publish height hash)
  unfolding publish finish_update
  publish-Keeps height hash c s = send_event-InStep _ _ s.1 refl

  InStep-free :
      (c d : Client W)
      → d.checkpoint ≡ c.checkpoint
      → d.sent ≡ c.sent
      → d.event_tx ≡ c.event_tx
      → InStep W tip c
      → InStep W tip d
  InStep-free c d a b e s = rw (a, b, e) s

  pub InStep-Stable : Stable W (InStep W tip)
  InStep-Stable = record { free = InStep-free; publish_kept = publish-Keeps }
