-- ===== src/Examples/Mains.antt =====
-- The example programs on the toy chain, with processes that always answer.
use bdk_floresta.Prelude.{ℕ, ℕ_discrete, true, false, none, some, [], ◌∷◌, ok, ◌≡◌, refl}
use bdk_floresta.Fsm.{operational}
use bdk_floresta.Client.Wallet.{external, internal}
use bdk_floresta.Client.Monad.{done, failed, continue}
use bdk_floresta.Client.Run.{
  forwarded, changed, received, channel_closed, scan_continuous, enable_block_forwarding,
  with_guard, watch_blocks, receive_block, scan, report, wait_until_ready,
}
use bdk_floresta.Client.Update.{abort_if_cancelled, apply_block, publish, finish_update, send_event}
use bdk_floresta.Client.Scan.{
  scan_inner, derive_for, scan_range, check_range, fetch_matched, fetch_or_abort, scan_blocks,
  scan_block, finish_range,
}
use bdk_floresta.Client.Spks.{derive_spks_with_custom_lookahead, take_spks}
use bdk_floresta.Node.Local.{match_filters, get_filter_height, get_block_height, get_block_hash}
use bdk_floresta.Node.Network.{fetch_blocks}
use bdk_floresta.Demo.Program.{Setup, Script, after}
use bdk_floresta.Demo.Ending.{Ended, spawned_scan, scan_alone, client_dropped, stop_and_leave}
use bdk_floresta.Demo.Signet.{signet_client, signet_scan, signet}
use bdk_floresta.Demo.Signet.Leaving.{signet_interrupted, signet_leaves}
use bdk_floresta.Demo.Signet.Reporting.{signet_reports}
use bdk_floresta.Client.Handle.{new_handle, cancel, stop, join}
use bdk_floresta.Demo.Consumer.{consume}
use bdk_floresta.Client.Forward.{on_block, enable}
use bdk_floresta.Builder.{proceed}
use bdk_floresta.Builder.Logging.{open_log_file, log_file_layer, register, init}
use bdk_floresta.Builder.Build.{build_node, build, node_of}
use bdk_floresta.Client.Create.{client_of, new, drop}
use bdk_floresta.Node.Lifecycle.Calls.{run, shutdown}
use bdk_floresta.Node.Lifecycle.Start.{start}
use bdk_floresta.Client.{Client}
use bdk_floresta.Builder.Configuration.{default_config}
use bdk_floresta.Demo.Signet.{signet_config}
use bdk_floresta.Demo.Ending.Parted.{Parted}
use bdk_floresta.Client.Run.Ending.{
  then_cancelled, blocks_then_cancelled, scan_continuous_cancelled,
}
use bdk_floresta.Client.{ClientError, unresponsive_node, sync}
use bdk_floresta.Examples.Fixture.{crates, library}
use bdk_floresta.Examples.Building.{machine}
use bdk_floresta.Examples.Programs.{app}

abbrev pub setup : Setup library
setup = record {
  set_var = λ name value w. w;
  CreateError = Unit {0};
  create_wallet = λ external_descriptor internal_descriptor network. ok network;
  Address = ℕ;
  reveal_next_address =
      λ keychain wallet. (elim keychain [ external ↦ 100 | internal ↦ 200 ], wallet);
}

abbrev pub script : Script crates
script = record {
  wakes = changed operational ∷ [];
  blocks = received 11 11 ∷ [];
  interrupted = true;
}

abbrev pub waiting : Client library
waiting = client_of library (run (node_of machine (signet_config machine) tt 1)).1 1

pub signet_client-created :
    (signet_client {W = library} machine setup {F = ⊥} 0).0 ≡ done (waiting, 1)
unfolding signet_client after init log_file_layer open_log_file register proceed build build_node
    default_config run start new ℕ_discrete
signet_client-created = refl

abbrev stopped : Client library
stopped = (spawned_scan script waiting true).1

abbrev ending : Ended app
ending = record {
  node = (shutdown stopped.node).1;
  client = record (client_dropped stopped) { node = (shutdown stopped.node).1 };
  handle = record { token = true; inner = false; aborted = false };
  consumer = consume app stopped.sent (record { wallet = 1; lines = [] });
  scan_error = none;
}

signet-ends : (signet {P = machine} {S = setup} {F = ⊥} app script 0).0 ≡ done ending
unfolding signet signet_client after init log_file_layer open_log_file register proceed build
    build_node default_config run start new ℕ_discrete signet_scan new_handle stop_and_leave stop
    cancel client_dropped shutdown drop consume scan_continuous forwarded on_block
    enable_block_forwarding enable with_guard watch_blocks receive_block scan report
    wait_until_ready scan_inner derive_for derive_spks_with_custom_lookahead take_spks continue
    scan_range check_range abort_if_cancelled match_filters get_filter_height fetch_matched
    fetch_or_abort fetch_blocks scan_blocks scan_block get_block_height apply_block publish
    finish_update send_event finish_range get_block_hash
signet-ends = refl

signet_leaves_example :
    (c : Client library) × (wallet : ℕ) × ((signet_client {W = library} machine setup {F = ⊥} 0).0
      ≡ done (c, wallet))
    × Parted app wallet ending
signet_leaves_example =
    signet_leaves {P = machine} {S = setup} {F = ⊥} app script 0 ending signet-ends

signet_interrupted_example :
    (x : Ended app) × ((signet {P = machine} {S = setup} {F = ⊥} app script 0).0 ≡ done x)
signet_interrupted_example =
    signet_interrupted {P = machine} {S = setup} {F = ⊥} app script 0 waiting 1
      signet_client-created refl

scan_continuous_cancelled_example :
    (e : ClientError crates) × ((scan_continuous
        (then_cancelled (changed operational ∷ []))
        sync
        (blocks_then_cancelled (received 11 11 ∷ []))
        waiting).0
      ≡ failed e)
scan_continuous_cancelled_example =
    scan_continuous_cancelled (changed operational ∷ []) sync (received 11 11 ∷ []) waiting

-- The channel of the blocks closes, and nobody sends a SIGINT.
abbrev closing : Script crates
closing = record {
  wakes = changed operational ∷ [];
  blocks = received 11 11 ∷ channel_closed ∷ [];
  interrupted = false;
}

abbrev alone : Client library
alone = (scan_alone closing waiting).1

abbrev reported : Ended app
reported = record {
  node = (shutdown alone.node).1;
  client = record (client_dropped alone) { node = (shutdown alone.node).1 };
  handle = record { token = true; inner = false; aborted = false };
  consumer = consume app alone.sent (record { wallet = 1; lines = [] });
  scan_error = some unresponsive_node;
}

signet-reported : (signet {P = machine} {S = setup} {F = ⊥} app closing 0).0 ≡ done reported
unfolding signet signet_client after init log_file_layer open_log_file register proceed build
    build_node default_config run start new ℕ_discrete signet_scan new_handle stop_and_leave stop
    cancel join client_dropped shutdown drop consume scan_continuous forwarded on_block
    enable_block_forwarding enable with_guard watch_blocks receive_block scan report
    wait_until_ready scan_inner derive_for derive_spks_with_custom_lookahead take_spks continue
    scan_range check_range abort_if_cancelled match_filters get_filter_height fetch_matched
    fetch_or_abort fetch_blocks scan_blocks scan_block get_block_height apply_block publish
    finish_update send_event finish_range get_block_hash
signet-reported = refl

signet_reports_example :
    (e : ClientError crates) × ((scan_alone closing waiting).0 ≡ failed e)
    × (reported.scan_error ≡ some e)
signet_reports_example =
    signet_reports {P = machine} {S = setup} {F = ⊥} app closing 0 waiting 1 reported
      signet_client-created refl signet-reported
