-- ===== src/Client/Scan/Height.antt =====
-- src/client/mod.rs: where a successful scan leaves the checkpoint.
use bdk_floresta.Prelude.{ℕ, ◌≤◌, List, ok, ◌≡◌, subst, arith, ltb, Bool-cases, inl, inr}
use bdk_floresta.Node.Backend.{Backend}
use bdk_floresta.Node.Local.{get_filter_height, get_block_hash, match_filters}
use bdk_floresta.Client.Types.{Client, ClientError, ScanKind}
use bdk_floresta.Client.Wallet.{WalletLib}
use bdk_floresta.Client.Monad.{Outcome, done, ask, continue}
use bdk_floresta.Client.Update.{publish, finish_update, send_event, abort_if_cancelled}
use bdk_floresta.Client.Scan.{
  derive_for, check_range, fetch_matched, scan_blocks, finish_range, scan_range, scan_inner,
  kind_start,
}
use bdk_floresta.Client.Scan.Bind.{continue-done, continue-ensures}

module _ {B : Backend} (W : WalletLib B)
    (insert_above : (h : ℕ) (hash : B.Hash) (cp : W.CheckPoint)
      → W.height cp ≤ h
      → W.height (W.insert_block h hash cp) ≡ h) where
  publish-height :
      (h : ℕ) (hash : B.Hash) (c : Client W)
      → W.height c.checkpoint ≤ h
      → W.height (publish h hash c).1.checkpoint ≡ h
  unfolding publish finish_update send_event
  publish-height h hash c l = ground (arith, insert_above h hash c.checkpoint)

  publish-ensures :
      (stop : ℕ) (hash : B.Hash) (c c' : Client W)
      → W.height c.checkpoint ≤ stop
      → publish stop hash c ≡ (done tt, c')
      → stop ≤ W.height c'.checkpoint
  publish-ensures stop hash c c' l h =
      subst (λ r. stop ≤ W.height r.1.checkpoint) h (omega (arith, publish-height stop hash c l))

  finish_range-height :
      (stop : ℕ) (c c' : Client W)
      → finish_range stop c ≡ (done tt, c')
      → stop ≤ W.height c'.checkpoint
  unfolding finish_range
  finish_range-height stop c c' h = elim (Bool-cases (ltb (W.height c.checkpoint) stop)) [
    | inl below ↦
        let asked = ask (get_block_hash stop) c in
        let (hash, _, k) = continue-done asked (publish stop) (rw below at h) in
        publish-ensures stop hash asked.1 c' (ground arith) k
    | inr above ↦ ground arith
  ]

  -- Every success of the call leaves the checkpoint at the height or above it.
  abbrev Reaches : ℕ → (Client W → Outcome (ClientError B) (Unit {0}) × Client W) → Type 0
  Reaches stop m = (c c' : Client W) → m c ≡ (done tt, c') → stop ≤ W.height c'.checkpoint

  then-Reaches :
      {A : Type 0} (stop : ℕ) (m : Client W → Outcome (ClientError B) A × Client W)
      (f : A → Client W → Outcome (ClientError B) (Unit {0}) × Client W)
      → ((a : A) → Reaches stop (f a))
      → Reaches stop (λ c. continue (m c) f)
  then-Reaches stop m f k c c' h =
      continue-ensures (λ _ d. stop ≤ W.height d.checkpoint) (m c) f (λ a d d' _ e. k a d d' e) c'
        tt h

  scan_range-height :
      (spks : List B.Spk) (start stop : ℕ) → Reaches stop (scan_range spks start stop)
  unfolding scan_range
  scan_range-height spks start stop = then-Reaches stop (check_range start stop) _ λ _.
      then-Reaches stop abort_if_cancelled _ λ _.
        then-Reaches stop (ask (match_filters spks start stop)) _ λ hashes.
          then-Reaches stop abort_if_cancelled _ λ _.
            then-Reaches stop (fetch_matched hashes) _
              λ blocks. then-Reaches stop (scan_blocks blocks) _ λ _. finish_range-height stop

  filters_height-ok :
      (c : Client W) (stop : ℕ)
      → (ask get_filter_height c).0 ≡ done stop
      → (B.filters_height c.node.world).0 ≡ ok stop
  unfolding get_filter_height
  filters_height-ok c stop h = ground arith

  -- A scan that succeeds leaves the checkpoint at the filter height that the store reported when
  -- the scan began, or above it, if inserting a block at or above a checkpoint's height moves it
  -- there.
  pub scan_inner-height :
      (kind : ScanKind) (c c' : Client W)
      → scan_inner kind c ≡ (done tt, c')
      → (stop : ℕ) × ((B.filters_height c.node.world).0 ≡ ok stop) × (stop ≤ W.height c'.checkpoint)
  unfolding scan_inner derive_for
  scan_inner-height kind c c' h =
      let (spks, _, h₁) = continue-done (derive_for kind c) _ h in
      let (stop, e, h₂) = continue-done (ask get_filter_height c) _ h₁ in
      (stop, filters_height-ok c stop e, scan_range-height spks (kind_start kind c) stop _ c' h₂)
