-- ===== src/Client/Run/Gap.antt =====
-- src/client/mod.rs: a block that is validated before a continuous scan registers its sink, and
-- whose filter comes after the scan has read the filters' height.
pub mod Quiet
use bdk_floresta.Prelude.{
  ℕ, ◌+◌, ◌≤◌, ◌<◌, true, some, List, ◌∷◌, ◌++◌, ap, map, ◌≡◌, refl, ◌∙◌, sym, subst, arith,
}
use bdk_floresta.Node.Backend.{Backend}
use bdk_floresta.Client.Types.{Client, Forwarding, ScanKind, finished, poisoned_tx}
use bdk_floresta.Client.Wallet.{WalletLib}
use bdk_floresta.Client.Forward.{on_block}
use bdk_floresta.Client.Forward.Lifetime.{on_blocks, on_blocks-attached, enable-fresh}
use bdk_floresta.Client.Scan.{derive_for, kind_start}
use bdk_floresta.Client.Monad.{done}
use bdk_floresta.Client.Scan.Served.{Healthy, view, Live}
use bdk_floresta.Client.Scan.Served.Calls.{with_range}
use bdk_floresta.Client.Run.{StateWake, enable_block_forwarding, scan_continuous}
use bdk_floresta.Client.Run.Watch.{all_received}
use bdk_floresta.Client.Run.Served.{with_finished}
use bdk_floresta.Client.Run.Following.{kind-view, scan_continuous-served}
use bdk_floresta.Client.Run.Heights.{with_all_new-height}
use bdk_floresta.Client.Run.Gap.Quiet.{
  AllAbove, NoneAt, BlocksAtMost, NoneAt-append, Low, with_blocks-Low, with_end-Low,
  with_all_new-NoneAt,
}

module _ {B : Backend} (W : WalletLib B)
    (insert_above : (h : ℕ) (hash : B.Hash) (cp : W.CheckPoint)
      → W.height cp ≤ h
      → W.height (W.insert_block h hash cp) ≡ h)
    (insert_below : (h : ℕ) (hash : B.Hash) (cp : W.CheckPoint)
      → h ≤ W.height cp
      → W.height (W.insert_block h hash cp) ≤ W.height cp) where
  module _ (H : Healthy W) where
    passes_over :
        (wakes : List StateWake) (kind : ScanKind) (block : B.Block) (height : ℕ)
        (bs : List (B.Block × ℕ)) (spks : List B.Spk) (c : Client W)
        → (derive_for kind c).0 ≡ done spks
        → kind_start kind c ≤ H.tip
        → Live W c
        → ¬ (c.forwarding.block_sink ≡ some poisoned_tx)
        → W.height c.checkpoint ≤ H.tip
        → NoneAt W (H.tip + 1) c.sent
        → BlocksAtMost W H.height_of H.tip
            (map H.block_of (H.matches spks (kind_start kind c) H.tip))
        → AllAbove (H.tip + 1) ((block, height) ∷ bs)
        → let d = (scan_continuous wakes kind (all_received ((block, height) ∷ bs)) c).1 in
          (H.tip + 1 < W.height d.checkpoint) × NoneAt W (H.tip + 1) d.sent
    passes_over wakes kind block height bs spks c derived start l g low none_above matched above =
        let v = view W c in
        let start_at = kind_start kind c in
        let new = (block, height) ∷ bs in
        let same = (scan_continuous-served W H wakes kind new spks c derived start l g).1 in
        let scanned = with_range W H spks start_at v in
        let m : Low W insert_above insert_below H.tip scanned =
          with_end-Low W insert_above insert_below H.tip (H.hash_at H.tip) _ (
            with_blocks-Low W insert_above insert_below H.tip H.height_of
              (map H.block_of (H.matches spks start_at H.tip)) v matched
              (record { low = low; none_above = none_above })) in
        let u = with_finished W H true scanned in
        let (_, (reached, _)) = with_all_new-height W insert_above new u in
        let quiet =
          with_all_new-NoneAt W insert_above insert_below (H.tip + 1) new u above
            (NoneAt-append W (H.tip + 1) scanned.sent (finished true) m.none_above tt) in
        (
          subst (λ x. H.tip + 1 < W.height x.checkpoint) (sym same)
              (omega (arith, reached, above.0)),
          subst (λ x. NoneAt W (H.tip + 1) x.sent) (sym same) quiet,
        )

    on_block-sink :
        (block : B.Block) (height : ℕ) (f : Forwarding B)
        → (on_block block height f).block_sink ≡ f.block_sink
    unfolding on_block
    on_block-sink block height f = ground arith

    -- On a node that answers as for a served scan, for a client at the filters' tip or below that
    -- has announced nothing right above that tip, and where a block inserted at or above a
    -- checkpoint's height moves it there and one inserted at or below it does not raise it: if the
    -- chain validates the block `missed` right above the filters' tip before a continuous scan
    -- registers its sink, and then blocks above that, at least one, of which the loop receives what
    -- the sink forwards, then the checkpoint is past the height of `missed`, and no update for that
    -- height has been sent.
    pub gap_passed_over :
        (wakes : List StateWake) (kind : ScanKind) (missed block : B.Block) (height : ℕ)
        (bs : List (B.Block × ℕ)) (spks : List B.Spk) (c : Client W)
        → (derive_for kind c).0 ≡ done spks
        → kind_start kind c ≤ H.tip
        → Live W c
        → ¬ (c.forwarding.block_sink ≡ some poisoned_tx)
        → W.height c.checkpoint ≤ H.tip
        → NoneAt W (H.tip + 1) c.sent
        → BlocksAtMost W H.height_of H.tip
            (map H.block_of (H.matches spks (kind_start kind c) H.tip))
        → AllAbove (H.tip + 1) ((block, height) ∷ bs)
        → let before = record c { forwarding = on_block missed (H.tip + 1) c.forwarding } in
          let d = (scan_continuous wakes kind (all_received ((block, height) ∷ bs)) before).1 in
          (H.tip + 1 < W.height d.checkpoint) × NoneAt W (H.tip + 1) d.sent
    gap_passed_over wakes kind missed block height bs spks c derived start l g low none_above
          matched above =
        let before = record c { forwarding = on_block missed (H.tip + 1) c.forwarding } in
        let sound : ¬ (before.forwarding.block_sink ≡ some poisoned_tx) =
          λ p. g (sym (on_block-sink missed (H.tip + 1) c.forwarding) ∙ p) in
        let (same_start, same_spks) = kind-view W H kind c before refl in
        passes_over wakes kind block height bs spks before (same_spks ∙ derived)
          (rw same_start start) l sound low none_above (rw same_start matched) above
