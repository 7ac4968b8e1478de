-- ===== src/Client/Run/Ready.antt =====
-- src/client/mod.rs: when `wait_until_ready` lets a scan begin.
use bdk_floresta.Prelude.{List, [], ◌∷◌, ◌≡◌, arith}
use bdk_floresta.Fsm.{operational}
use bdk_floresta.Node.Backend.{Backend}
use bdk_floresta.Client.Types.{Client}
use bdk_floresta.Client.Wallet.{WalletLib}
use bdk_floresta.Client.Monad.{done, continue}
use bdk_floresta.Client.Update.{abort_if_cancelled}
use bdk_floresta.Client.Run.{
  StateWake, changed, sender_dropped, await_change, wait_until_ready, observe,
}

module _ {B : Backend} (W : WalletLib B) where
  await_change-done :
      (wakes : List StateWake) (c c' : Client W)
      → await_change wakes c ≡ (done tt, c')
      → (c'.node.state ≡ operational)
        × (c' ≡ record c { node = record (c.node) { state = c'.node.state } })
  unfolding await_change abort_if_cancelled continue
  await_change-done [] c c' h = ground arith
  await_change-done (StateWake.cancelled ∷ wakes) c c' h = ground arith
  await_change-done (sender_dropped ∷ wakes) c c' h = ground arith
  await_change-done (changed s ∷ wakes) c c' h =
      ground (arith, await_change-done wakes (observe s c) c')

  -- A wait that succeeds has seen the node operational last, and has changed nothing else.
  pub wait_until_ready-done :
      (wakes : List StateWake) (c c' : Client W)
      → wait_until_ready wakes c ≡ (done tt, c')
      → (c'.node.state ≡ operational)
        × (c' ≡ record c { node = record (c.node) { state = operational } })
  unfolding wait_until_ready
  wait_until_ready-done wakes c c' h =
      ground
        (arith, await_change-done wakes (observe (B.watched_state c.node.world c.node.state) c) c')
