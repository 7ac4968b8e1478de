-- ===== src/Demo/Signet/CatchUp.antt =====
-- examples/client_signet.rs: how far the wallet gets from the start of `main` to its end.
use bdk_floresta.Prelude.{
  ℕ, ◌≤◌, true, none, some, List, [], ◌∷◌, ◌≡◌, refl, ap, ◌∙◌, sym, subst, ok, arith,
}
use bdk_floresta.Fsm.{State, active, operational}
use bdk_floresta.Node.Backend.{Backend}
use bdk_floresta.Node.Poll.{poll}
use bdk_floresta.Builder.Platform.{Platform}
use bdk_floresta.Client.Types.{Client, Update}
use bdk_floresta.Client.Wallet.{WalletLib}
use bdk_floresta.Client.Monad.{done}
use bdk_floresta.Client.Scan.{derive_for}
use bdk_floresta.Client.Scan.Served.{Healthy}
use bdk_floresta.Client.Run.{changed, observe, await_ready, await_change, wait_until_ready}
use bdk_floresta.Client.Run.Watch.{all_received}
use bdk_floresta.Client.Run.Replaced.{AllAtMost}
use bdk_floresta.Client.Run.Heights.{scanned-height}
use bdk_floresta.Client.Run.Polled.{Synchronised, poll-operational}
use bdk_floresta.Demo.Consumer.{App, Consumer, WalletEvent, consume}
use bdk_floresta.Demo.Consumer.Follow.{AllApplied, consumer_follows}
use bdk_floresta.Client.Run.Ending.{then_cancelled, blocks_then_cancelled}
use bdk_floresta.Demo.Program.{Setup, Script}
use bdk_floresta.Demo.Ending.{scan_params, Ended}
use bdk_floresta.Demo.Signet.{signet_client, signet}
use bdk_floresta.Demo.Signet.Leaving.{signet_client-IsFor}
use bdk_floresta.Demo.Signet.Serving.{first_view, scanned, stopped-Comes, signet_serves}

module _ {B : Backend} {W : WalletLib B} where
  await_ready-changed :
      (s t : State) (c : Client W)
      → s ≡ active
      → t ≡ operational
      → (await_ready {W = W} (changed t ∷ []) s c).0 ≡ done tt
  unfolding await_ready await_change
  await_ready-changed s t c e f = rw (e, f) refl

  -- A wait that finds the node active goes on until a round of polling finds it synchronised.
  wait-polled :
      (H : Healthy W) (S : Synchronised H) (c : Client W)
      → c.node.state ≡ active
      → B.watched_state c.node.world active ≡ active
      → (wait_until_ready {W = W} (changed (poll c.node).0.state ∷ []) c).0 ≡ done tt
  unfolding wait_until_ready
  wait-polled H S c up calm =
      await_ready-changed (B.watched_state c.node.world c.node.state) (poll c.node).0.state
        (observe (B.watched_state c.node.world c.node.state) c)
        (ap (B.watched_state c.node.world) up ∙ calm)
        (poll-operational W H S c.node (rw up (λ p. p)))

module _ {B : Backend} {W : WalletLib B} {P : Platform B} {S : Setup W} {F : Type 0} (A : App W)
    (follows : (u : Update W) (wallet wallet' : W.Wallet) (events : List (WalletEvent B))
      → A.apply_update_events u wallet ≡ (ok events, wallet')
      → W.latest_checkpoint wallet'
        ≡ elim u.chain [ none ↦ W.latest_checkpoint wallet | some cp ↦ cp ])
    (insert_above : (h : ℕ) (hash : B.Hash) (cp : W.CheckPoint)
      → W.height cp ≤ h
      → W.height (W.insert_block h hash cp) ≡ h)
    (H : Healthy W) (Y : Synchronised H) where
  -- On a node that has a peer, whose headers, validated blocks and filters reach the same tip,
  -- whose stores and peers answer with what they hold, and that is still active when the client
  -- first looks and stays operational once it is; for a client that nobody else cancels, whose
  -- channel stays open and whose script pubkeys can be derived; and where a block inserted at or
  -- above a checkpoint's height moves it there and the wallet takes over the checkpoint of each
  -- update that it applies without an error: if the signet program comes to its scan, a round of
  -- polling wakes it, a SIGINT comes after the blocks `bs`, and the wallet can apply each update of
  -- the reference scan without an error, then the program runs to its end, and its wallet is at the
  -- filters' tip or above, and at or above the height of each block of `bs`.
  pub signet_catches_up :
      (bs : List (B.Block × ℕ)) (spks : List B.Spk) (w : B.World) (c : Client W) (wallet : W.Wallet)
      → (signet_client P S {F = F} w).0 ≡ done (c, wallet)
      → B.watched_state c.node.world active ≡ active
      → (derive_for scan_params c).0 ≡ done spks
      → AllApplied A
          (scanned H spks bs (first_view H wallet)).sent
          (record { wallet = wallet; lines = [] })
      → let script : Script B = record {
        wakes = changed (poll c.node).0.state ∷ [];
        blocks = all_received bs;
        interrupted = true;
      } in
        (x : Ended A) × ((signet {P = P} {S = S} {F = F} A script w).0 ≡ done x)
        × (H.tip ≤ W.height (W.latest_checkpoint x.consumer.wallet))
        × AllAtMost (W.height (W.latest_checkpoint x.consumer.wallet)) bs
  signet_catches_up bs spks w c wallet h calm derived all =
      let f =
        signet_client-IsFor {P = P} {S = S} {F = F} w (signet_client P S {F = F} w).1 (c, wallet)
          (ground (arith, h)) in
      let k : Consumer A = record { wallet = wallet; lines = [] } in
      let v = scanned H spks bs (first_view H wallet) in
      let wakes = changed (poll c.node).0.state ∷ [] in
      let ready = wait-polled H Y c f.running calm in
      let (x, ends, at, _, had) =
        signet_serves {P = P} {S = S} {F = F} A H wakes bs spks w c wallet h ready derived in
      let (_, came) = stopped-Comes H wakes bs spks c wallet f ready derived in
      let told = ap (λ v. v.sent) came in
      let together =
        consumer_follows A follows H.stays_open k (then_cancelled wakes) scan_params
          (blocks_then_cancelled (all_received bs)) c f.nothing_sent f.channel_open
          f.wallet_checkpoint (subst (λ sent. AllApplied A sent k) (sym told) all) in
      let same : W.latest_checkpoint x.consumer.wallet ≡ v.checkpoint =
        ap (λ j. W.latest_checkpoint j.wallet) had
        ∙ ap (λ sent. W.latest_checkpoint (consume A sent k).wallet) (sym told)
        ∙ together
        ∙ ap (λ v. v.checkpoint) came in
      let (tip, rest) = scanned-height W insert_above H bs spks 0 (first_view H wallet) in
      (x, ends, rw (ap W.height same) tip, rw (ap W.height same) rest)
