-- ===== src/Client/Run/Kept.antt =====
-- src/client/mod.rs: what the waits and the loop over new blocks keep if the updates keep it.
use bdk_floresta.Prelude.{true, refl, List, [], ◌∷◌, leb, Bool-cases, Option-cases, inl, inr, ℕ}
use bdk_floresta.Node.Backend.{Backend}
use bdk_floresta.Node.Local.{get_state}
use bdk_floresta.Client.Types.{Client, ClientError, unresponsive_node}
use bdk_floresta.Client.Wallet.{WalletLib}
use bdk_floresta.Client.Monad.{Outcome, done, failed, pending, fail}
use bdk_floresta.Client.Update.{abort_if_cancelled, publish, apply_block}
use bdk_floresta.Client.Forward.{enable, drop_guard}
use bdk_floresta.Client.Scan.Kept.{
  Stable, Keeps, then-Keeps, abort_if_cancelled-Keeps, apply_block-Keeps,
}
use bdk_floresta.Client.Run.{
  StateWake, changed, sender_dropped, verdict, await_change, await_ready, wait_until_ready,
  BlockWake, received, channel_closed, receive_block, watch_blocks, enable_block_forwarding,
  with_guard, observe, still_waiting,
}

module _ {B : Backend} (W : WalletLib B) (P : Client W → Type 0) (S : Stable W P) where
  pub await_change-Keeps : (wakes : List StateWake) → Keeps W P (await_change {W = W} wakes)
  unfolding await_change
  await_change-Keeps [] c s =
      then-Keeps W P abort_if_cancelled (λ _. still_waiting) (abort_if_cancelled-Keeps W P S)
        (λ _ c s. s) c s
  await_change-Keeps (StateWake.cancelled ∷ wakes) c s =
      S.free c (record c { cancellation_token = true }) refl refl refl s
  await_change-Keeps (sender_dropped ∷ wakes) c s = s
  await_change-Keeps (changed t ∷ wakes) c s = elim (Option-cases (verdict {B = B} t)) [
    | inl e ↦
        rw (e, await_change)
          (await_change-Keeps wakes (observe t c) (S.free c (observe t c) refl refl refl s))
    | inr (r, e) ↦ rw (e, await_change) (S.free c (observe t c) refl refl refl s)
  ]

  pub wait_until_ready-Keeps : (wakes : List StateWake) → Keeps W P (wait_until_ready {W = W} wakes)
  unfolding wait_until_ready
  wait_until_ready-Keeps wakes c s =
      let (t, n) = get_state c.node in
      elim (Option-cases (verdict {B = B} t)) [
        | inl e ↦
            rw (e, await_ready)
              (await_change-Keeps wakes (record c { node = n })
                (S.free c (record c { node = n }) refl refl refl s))
        | inr (r, e) ↦ rw (e, await_ready) (S.free c (record c { node = n }) refl refl refl s)
      ]

  pub receive_block-Keeps : (block : B.Block) (height : ℕ) → Keeps W P (receive_block block height)
  unfolding receive_block
  receive_block-Keeps block height c s = elim (Bool-cases (leb height (W.height c.checkpoint))) [
    | inl known ↦ rw known s
    | inr new ↦ rw new (
        then-Keeps W P (apply_block block height) (λ _. publish height (B.block_hash block))
          (apply_block-Keeps W P S block height) (λ _. S.publish_kept height (B.block_hash block)) c
          s)
  ]

  pub watch_blocks-Keeps : (wakes : List (BlockWake B)) → Keeps W P (watch_blocks wakes)
  unfolding watch_blocks
  watch_blocks-Keeps [] =
      then-Keeps W P abort_if_cancelled (λ _. still_waiting) (abort_if_cancelled-Keeps W P S)
        (λ _ c s. s)
  watch_blocks-Keeps (BlockWake.cancelled ∷ wakes) =
      λ c s. S.free c (record c { cancellation_token = true }) refl refl refl s
  watch_blocks-Keeps (channel_closed ∷ wakes) =
      then-Keeps W P abort_if_cancelled (λ _. fail unresponsive_node)
        (abort_if_cancelled-Keeps W P S) (λ _ c s. s)
  watch_blocks-Keeps (received block height ∷ wakes) =
      then-Keeps W P abort_if_cancelled _ (abort_if_cancelled-Keeps W P S) λ _.
        then-Keeps W P (receive_block block height) _ (receive_block-Keeps block height)
          λ _. watch_blocks-Keeps wakes

  pub enable_block_forwarding-Keeps : Keeps W P (enable_block_forwarding {W = W})
  unfolding enable_block_forwarding
  enable_block_forwarding-Keeps c s = elim (Option-cases (enable c.forwarding)) [
    | inl e ↦ rw (e, enable_block_forwarding) s
    | inr (f, e) ↦
        rw (e, enable_block_forwarding) (S.free c (record c { forwarding = f }) refl refl refl s)
  ]

  pub with_guard-Keeps :
      (r : Outcome (ClientError B) (Unit {0}) × Client W) → P r.1 → P (with_guard r).1
  unfolding with_guard
  with_guard-Keeps (pending, c) s = s
  with_guard-Keeps (done tt, c) s =
      S.free c (record c { forwarding = drop_guard c.forwarding }) refl refl refl s
  with_guard-Keeps (failed e, c) s =
      S.free c (record c { forwarding = drop_guard c.forwarding }) refl refl refl s
