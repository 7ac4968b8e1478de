-- ===== src/Client/Scan.antt =====
-- src/client/mod.rs: `scan_inner`, the scan by compact block filters.
pub mod Bind
pub mod Height
pub mod Kept
pub mod InStep
pub mod Cancel
pub mod Served
pub mod Settled
pub mod Errors
use bdk_floresta.Prelude.{ℕ, true, none, some, List, [], ◌∷◌, Result, ltb, length, if◌then◌else◌}
use bdk_floresta.Node.Backend.{Backend}
use bdk_floresta.Node.Local.{get_filter_height, get_block_height, get_block_hash, match_filters}
use bdk_floresta.Node.Network.{begin_fetch, fetch_blocks}
use bdk_floresta.Client.Types.{
  Client, ClientError, scan_aborted, invalid_range, ScanKind, sync, full_scan, custom,
}
use bdk_floresta.Client.Wallet.{WalletLib}
use bdk_floresta.Client.Monad.{Scan, done, failed, pure, fail, lift, ask, ◌>>=◌, ◌>>◌}
use bdk_floresta.Client.Spks.{unwrap_or, derive_spks, derive_spks_with_custom_lookahead}
use bdk_floresta.Client.Update.{abort_if_cancelled, publish, apply_block}

abbrev pub full_scan_lookahead : ℕ
full_scan_lookahead = 1000

module _ {B : Backend} (W : WalletLib B) where
  -- The script pubkeys for a kind of scan.
  abbrev kind_spks : ScanKind → W.Index → Result (ClientError B) (List B.Spk)
  kind_spks sync index = derive_spks W index
  kind_spks (full_scan custom_lookahead) index =
      derive_spks_with_custom_lookahead W index (unwrap_or custom_lookahead full_scan_lookahead)
  kind_spks (custom start_height custom_lookahead) index =
      derive_spks_with_custom_lookahead W index custom_lookahead

module _ {B : Backend} {W : WalletLib B} where
  -- Where a kind of scan starts.
  abbrev pub kind_start : ScanKind → Client W → ℕ
  kind_start sync c = W.height c.checkpoint
  kind_start (full_scan _) c = 0
  kind_start (custom start_height _) c = start_height

  unfoldable pub derive_for : ScanKind → Scan W (List B.Spk)
  derive_for kind c = lift (kind_spks W kind (W.index c.tx_graph)) c

  unfoldable pub check_range : ℕ → ℕ → Scan W (Unit {0})
  check_range start_height stop_height =
      if ltb stop_height start_height
      then fail (invalid_range start_height stop_height)
      else pure tt

  -- `fetch_blocks` under the `select!`. If the token is cancelled while it waits, its future is
  -- dropped: what it has done by its await stays, and its rest does not run.
  unfoldable pub fetch_or_abort : List B.Hash → Scan W (List B.Block)
  fetch_or_abort hashes c = elim (W.cancelled_in_flight c.node.world) [
    | none ↦ ask (fetch_blocks hashes) c
    | some w ↦
        let (n, _) = begin_fetch hashes c.node in
        (failed scan_aborted, record c { node = record n { world = w }; cancellation_token = true })
  ]

  unfoldable pub fetch_matched : List B.Hash → Scan W (List B.Block)
  fetch_matched [] = pure []
  fetch_matched (hash ∷ hashes) = do abort_if_cancelled; fetch_or_abort (hash ∷ hashes)

  -- One round of the loop over the fetched blocks; a block that changes nothing is a false
  -- positive.
  unfoldable pub scan_block : B.Block → Scan W (Unit {0})
  scan_block block = do
    abort_if_cancelled
    height ← ask (get_block_height (B.block_hash block))
    is_empty ← apply_block block height
    if is_empty then pure tt else publish height (B.block_hash block)

  unfoldable pub scan_blocks : List B.Block → Scan W (Unit {0})
  scan_blocks [] = pure tt
  scan_blocks (block ∷ blocks) = do scan_block block; scan_blocks blocks

  -- The last checkpoint, at the height where the scan stops.
  unfoldable pub finish_range : ℕ → Scan W (Unit {0})
  finish_range stop_height c =
      if ltb (W.height c.checkpoint) stop_height
      then (do stop_hash ← ask (get_block_hash stop_height); publish stop_height stop_hash) c
      else (done tt, c)

  -- `scan_inner` from the filter height on.
  unfoldable pub scan_range : List B.Spk → ℕ → ℕ → Scan W (Unit {0})
  scan_range spks start_height stop_height = do
    check_range start_height stop_height
    abort_if_cancelled
    hashes ← ask (match_filters spks start_height stop_height)
    abort_if_cancelled
    blocks ← fetch_matched hashes
    scan_blocks blocks
    finish_range stop_height

  unfoldable pub scan_inner : ScanKind → Scan W (Unit {0})
  scan_inner kind c =
      (do
        spks ← derive_for kind
        stop_height ← ask get_filter_height
        scan_range spks (kind_start kind c) stop_height)
        c
