-- ===== src/Examples/Scans.antt =====
-- Scans of the toy chain.
use bdk_floresta.Prelude.{
  ℕ, ◌≤◌, ◌<◌, true, none, List, ◌≢◌, ◌↔◌, [], ◌∷◌, ◌++◌, ok, ◌≡◌, refl, arith,
}
use bdk_floresta.Prelude.Sets.{contains}
use bdk_floresta.Fsm.{operational, initial_block_download}
use bdk_floresta.Node.{pinging, fetching_blocks, action_dec}
use bdk_floresta.Node.Overlap.{start, finish, run_calls}
use bdk_floresta.Node.Local.{get_filter_height, get_block_height, get_block_hash, match_filters}
use bdk_floresta.Node.Network.{fetch_blocks}
use bdk_floresta.Client.{Client, custom, sync, ScanEvent, error, show_client_error, scan_aborted}
use bdk_floresta.Client.Wallet.{attached, external}
use bdk_floresta.Client.Monad.{done, failed, continue}
use bdk_floresta.Client.Spks.{derive_spks, derive_spks_with_custom_lookahead, take_spks}
use bdk_floresta.Client.Update.{abort_if_cancelled, send_event, finish_update, publish, apply_block}
use bdk_floresta.Client.Scan.{
  derive_for, check_range, fetch_or_abort, fetch_matched, scan_block, scan_blocks, finish_range,
  scan_range, scan_inner,
}
use bdk_floresta.Client.Scan.Height.{scan_inner-height}
use bdk_floresta.Client.Scan.Errors.{scan_inner_errors}
use bdk_floresta.Client.Types.{
  no_external_keychain, invalid_range, network_mismatch, unresponsive_node,
}
use bdk_floresta.Client.Scan.Cancel.{abort_leaves_action}
use bdk_floresta.Client.Run.{StateWake, changed, scan, wait_until_ready, report}
use bdk_floresta.Client.Run.InStep.{scan-InStep}
use bdk_floresta.Client.Run.Watch.{top_height, count_new}
use bdk_floresta.Client.Run.Report.{scan_announces_failure}
use bdk_floresta.Examples.Fixture.{crates, library, client, hasty, ready}

abbrev scanned : Client library
scanned = (scan_inner (custom 0 5) client).1

scan_inner-succeeds : scan_inner (custom 0 5) client ≡ (done tt, scanned)
unfolding scan_inner derive_for derive_spks_with_custom_lookahead take_spks continue scan_range
    check_range abort_if_cancelled match_filters get_filter_height fetch_matched fetch_or_abort
    fetch_blocks scan_blocks scan_block get_block_height apply_block publish finish_update
    send_event finish_range get_block_hash
scan_inner-succeeds = refl

pub insert_above : (h hash cp : ℕ) → cp ≤ h → library.height (library.insert_block h hash cp) ≡ h
insert_above h hash cp l = omega arith

scan_inner-height_example :
    (stop : ℕ) × ((crates.filters_height 0).0 ≡ ok stop) × (stop ≤ scanned.checkpoint)
scan_inner-height_example =
    scan_inner-height library insert_above (custom 0 5) client scanned scan_inner-succeeds

abbrev cancelled_client : Client library
cancelled_client = record client { cancellation_token = true }

abort_leaves_action_example :
    let (r, c') = fetch_matched (7 ∷ 9 ∷ []) hasty in
    (r ≡ failed scan_aborted)
    × (contains
          (action_dec crates)
          (fetching_blocks 2)
          (run_calls (start pinging ∷ finish pinging ∷ []) c'.node).actions
        ≡ true)
abort_leaves_action_example =
    abort_leaves_action 7 (9 ∷ []) hasty 0 (start pinging ∷ finish pinging ∷ []) refl refl
      ((λ e. cc), ((λ e. cc), tt))

abbrev news : List (ℕ × ℕ)
news = (3, 3) ∷ (2, 2) ∷ (5, 5) ∷ []

-- The loop has moved to the fifth block and has sent two updates.
news_followed : (top_height 0 news ≡ 5) × (count_new 0 news ≡ 2)
unfolding top_height count_new
news_followed = (refl, refl)

abbrev syncing : List StateWake
syncing = changed (initial_block_download 5 10) ∷ changed operational ∷ []

abbrev waiting : Client library
waiting = record client { node = record ready { state = initial_block_download 2 10 } }

wait_until_ready-succeeds : wait_until_ready syncing waiting ≡ (done tt, client)
unfolding wait_until_ready
wait_until_ready-succeeds = refl

abbrev announced : Client library
announced = (scan [] (custom 0 5) client).1

scan-succeeds : scan [] (custom 0 5) client ≡ (done tt, announced)
unfolding scan report wait_until_ready scan_inner derive_for derive_spks_with_custom_lookahead
    take_spks continue scan_range check_range abort_if_cancelled match_filters get_filter_height
    fetch_matched fetch_or_abort fetch_blocks scan_blocks scan_block get_block_height apply_block
    publish finish_update send_event finish_range get_block_hash
scan-succeeds = refl

announced-open : announced.event_tx ≡ attached
announced-open = (scan-InStep library 0 (λ w. refl) [] (custom 0 5) client (refl, refl)).1

abbrev unready : Client library
unready = (scan [] sync cancelled_client).1

scan-aborts :
    (scan [] sync cancelled_client ≡ (failed scan_aborted, unready)) × (unready.event_tx ≡ attached)
unfolding scan report wait_until_ready scan_inner derive_for derive_spks_with_custom_lookahead
    take_spks continue scan_range check_range abort_if_cancelled get_filter_height send_event
    derive_spks
scan-aborts = (refl, refl)

begins : (wait_until_ready [] cancelled_client).0 ≡ done tt
unfolding wait_until_ready
begins = refl

scan_announces_failure_example :
    (events : List (ScanEvent library)) × (unready.sent
      ≡ events ++ error (show_client_error {B = crates} scan_aborted) ∷ [])
scan_announces_failure_example =
    scan_announces_failure library [] sync cancelled_client unready scan_aborted begins
      scan-aborts.0 scan-aborts.1

-- A scan from above the height of the filters.
scan_inner_errors_example :
    (((scan_inner (custom 12 5) client).0 ≡ failed no_external_keychain)
      ↔ (library.unbounded_spk_iter (library.index client.tx_graph) external ≡ none))
    × ((a b : ℕ)
        → ((scan_inner (custom 12 5) client).0 ≡ failed (invalid_range a b)) ↔ (
            (library.unbounded_spk_iter (library.index client.tx_graph) external ≢ none)
            × ((crates.filters_height client.node.world).0 ≡ ok b)
            × (a ≡ 12)
            × (b < a)))
    × ((a b : ℕ) → (scan_inner (custom 12 5) client).0 ≢ failed (network_mismatch a b))
    × ((scan_inner (custom 12 5) client).0 ≢ failed unresponsive_node)
scan_inner_errors_example = scan_inner_errors (custom 12 5) client

-- The one error it fails with.
refused : (scan_inner (custom 12 5) client).0 ≡ failed (invalid_range 12 10)
refused = ((scan_inner_errors (custom 12 5) client).1 12 10).1 (λ h. cc, refl, refl, omega arith)
