-- ===== src/Client/Run/Heights.antt =====
-- src/client/mod.rs: how high the checkpoint is that the references of the scans leave.
use bdk_floresta.Prelude.{ℕ, ◌≤◌, ◌≡◌, true, List, [], ◌∷◌, map, arith}
use bdk_floresta.Node.Backend.{Backend}
use bdk_floresta.Client.Wallet.{WalletLib}
use bdk_floresta.Client.Scan.Served.{Healthy, View, with_blocks, with_end}
use bdk_floresta.Client.Scan.Served.Calls.{with_range}
use bdk_floresta.Client.Run.Served.{with_finished}
use bdk_floresta.Client.Run.Following.{with_new, with_all_new}
use bdk_floresta.Client.Run.Replaced.{AllAtMost}

module _ {B : Backend} (W : WalletLib B)
    (insert_above : (h : ℕ) (hash : B.Hash) (cp : W.CheckPoint)
      → W.height cp ≤ h
      → W.height (W.insert_block h hash cp) ≡ h) where
  abbrev top : View W → ℕ
  top v = W.height v.checkpoint

  with_end-height : (stop : ℕ) (hash : B.Hash) (v : View W) → stop ≤ top (with_end W stop hash v)
  with_end-height stop hash v = ground (arith, insert_above stop hash v.checkpoint)

  with_new-height :
      (block : B.Block) (height : ℕ) (v : View W)
      → (top v ≤ top (with_new W block height v)) × (height ≤ top (with_new W block height v))
  with_new-height block height v =
      ground (arith, insert_above height (B.block_hash block) v.checkpoint)

  pub with_all_new-height :
      (bs : List (B.Block × ℕ)) (v : View W)
      → (top v ≤ top (with_all_new W bs v)) × AllAtMost (top (with_all_new W bs v)) bs
  unfolding with_all_new
  with_all_new-height [] v = (omega arith, tt)
  with_all_new-height ((block, height) ∷ bs) v =
      let (one, two) = with_new-height block height v in
      let (more, all) = with_all_new-height bs (with_new W block height v) in
      (omega (arith, one, more), (omega (arith, two, more), all))

  -- A continuous scan gets to the tip of the filters, and to each block that it receives after
  -- that.
  pub scanned-height :
      (H : Healthy W) (bs : List (B.Block × ℕ)) (spks : List B.Spk) (start : ℕ) (v : View W)
      → let t = top (with_all_new W bs (with_finished W H true (with_range W H spks start v))) in
        (H.tip ≤ t) × AllAtMost t bs
  scanned-height H bs spks start v =
      let r = with_range W H spks start v in
      let found = with_blocks W H.height_of (map H.block_of (H.matches spks start H.tip)) v in
      let base = with_end-height H.tip (H.hash_at H.tip) found in
      let (more, all) = with_all_new-height bs (with_finished W H true r) in
      (omega (arith, base, more), all)
