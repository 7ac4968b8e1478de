-- ===== src/Demo/Signet/Serving.antt =====
-- examples/client_signet.rs: what the wallet has got when `main` is interrupted, on a node that
-- answers.
use bdk_floresta.Prelude.{ℕ, true, none, some, List, [], ◌∷◌, ◌≡◌, refl, ap, ◌∙◌, arith}
use bdk_floresta.Node.Backend.{Backend}
use bdk_floresta.Builder.Platform.{Platform}
use bdk_floresta.Client.Types.{Client, scan_aborted, poisoned_tx}
use bdk_floresta.Client.Wallet.{WalletLib}
use bdk_floresta.Client.Monad.{done, failed}
use bdk_floresta.Client.Handle.{new_handle}
use bdk_floresta.Client.Scan.{derive_for}
use bdk_floresta.Client.Scan.Served.{Healthy, View, view}
use bdk_floresta.Client.Scan.Served.Calls.{with_range}
use bdk_floresta.Client.Run.{forwarded, StateWake, BlockWake, wait_until_ready, watch_blocks}
use bdk_floresta.Client.Run.Watch.{all_received}
use bdk_floresta.Client.Run.Served.{with_finished}
use bdk_floresta.Client.Run.Following.{with_all_new, Comes, scan_continuous-Comes}
use bdk_floresta.Client.Run.Ending.{then_cancelled, wait_until_ready-then_cancelled}
use bdk_floresta.Demo.Consumer.{App, Consumer, consume}
use bdk_floresta.Demo.Program.{Setup, Script}
use bdk_floresta.Demo.Ending.{scan_params, spawned_scan, Ended}
use bdk_floresta.Demo.Ending.Left.{stop_and_leave-ends, stop_and_leave-Left}
use bdk_floresta.Demo.Ending.Parted.{IsFor}
use bdk_floresta.Demo.Signet.{signet_client, signet_scan, signet}
use bdk_floresta.Demo.Signet.Leaving.{signet_client-IsFor, signet-scan}

module _ {B : Backend} {W : WalletLib B} (H : Healthy W) where
  abbrev pub first_view : W.Wallet → View W
  first_view wallet = record {
    checkpoint = W.latest_checkpoint wallet;
    tx_graph = W.new_graph (W.spk_index wallet);
    sent = [];
  }

  -- The reference: a scan of the whole chain by filters, and then the blocks `bs` that are
  -- validated since.
  abbrev pub scanned : List B.Spk → List (B.Block × ℕ) → View W → View W
  scanned spks bs v = with_all_new W bs (with_finished W H true (with_range W H spks 0 v))

  -- A scan that is stopped after the blocks `bs`.
  pub stopped-Comes :
      (wakes : List StateWake) (bs : List (B.Block × ℕ)) (spks : List B.Spk) (c : Client W)
      (wallet : W.Wallet)
      → IsFor wallet c
      → (wait_until_ready wakes c).0 ≡ done tt
      → (derive_for scan_params c).0 ≡ done spks
      → Comes W H
          (failed scan_aborted)
          (spawned_scan
            (record { wakes = wakes; blocks = all_received bs; interrupted = true })
            c
            true)
          (scanned spks bs (first_view wallet))
  unfolding watch_blocks forwarded
  stopped-Comes wakes bs spks c wallet f ready derived =
      let fresh : view W c ≡ first_view wallet =
        ground (arith, f.wallet_checkpoint, f.fresh_graph, f.nothing_sent) in
      let none_poisoned : ¬ (c.forwarding.block_sink ≡ some poisoned_tx) = λ p. cc (f.no_sink, p) in
      let (over, same) =
        scan_continuous-Comes W H (failed scan_aborted) (BlockWake.cancelled ∷ []) (λ f. refl)
          (λ d m. (refl, refl)) (then_cancelled wakes) scan_params bs spks c
          (ap (λ r. r.0) (wait_until_ready-then_cancelled wakes c ready) ∙ ready) derived
          (omega arith) f.not_cancelled f.channel_open none_poisoned in
      (over, same ∙ ap (scanned spks bs) fresh)

module _ {B : Backend} {W : WalletLib B} {P : Platform B} {S : Setup W} {F : Type 0} (A : App W)
    (H : Healthy W) where
  -- On a node whose stores and peers answer with what they hold and that stays operational once it
  -- is, for a client that nobody else cancels and whose channel stays open: if the signet program
  -- comes to its scan, its wait for the node ends well and script pubkeys can be derived, then a
  -- SIGINT after the blocks `bs` lets it run to its end. Checkpoint and events of its client are
  -- then those of the reference, begun at the wallet; and the wallet is what the events of the
  -- reference make of it, applied in their order.
  pub signet_serves :
      (wakes : List StateWake) (bs : List (B.Block × ℕ)) (spks : List B.Spk) (w : B.World)
      (c : Client W) (wallet : W.Wallet)
      → (signet_client P S {F = F} w).0 ≡ done (c, wallet)
      → (wait_until_ready wakes c).0 ≡ done tt
      → (derive_for scan_params c).0 ≡ done spks
      → let script : Script B = record {
        wakes = wakes;
        blocks = all_received bs;
        interrupted = true;
      } in
        let v = scanned H spks bs (first_view H wallet) in
        (x : Ended A) × ((signet {P = P} {S = S} {F = F} A script w).0 ≡ done x)
        × (x.client.checkpoint ≡ v.checkpoint)
        × (x.client.sent ≡ v.sent)
        × (x.consumer ≡ consume A v.sent (record { wallet = wallet; lines = [] }))
  unfolding signet_scan
  signet_serves wakes bs spks w c wallet h ready derived =
      let script : Script B = record {
        wakes = wakes;
        blocks = all_received bs;
        interrupted = true;
      } in
      let k : Consumer A = record { wallet = wallet; lines = [] } in
      let r = spawned_scan script c in
      let f =
        signet_client-IsFor {P = P} {S = S} {F = F} w (signet_client P S {F = F} w).1 (c, wallet)
          (ground (arith, h)) in
      let (over, same) = stopped-Comes H wakes bs spks c wallet f ready derived in
      let (x, ends) =
        stop_and_leave-ends A {P = P} {S = S} {F = F} r (new_handle c.cancellation_token) k none
          (rw over tt) in
      let l = stop_and_leave-Left A {P = P} {S = S} {F = F} _ _ k none x ends in
      (
        x,
        signet-scan script A w c wallet h ∙ ends,
        l.same_checkpoint ∙ ap (λ v. v.checkpoint) same,
        l.same_events ∙ ap (λ v. v.sent) same,
        l.consumed ∙ ap (λ v. consume A v.sent k) same,
      )
