-- ===== src/Examples/Mining.antt =====
-- The regtest program on the toy chain, with processes that always answer.
use bdk_floresta.Prelude.{
  ℕ, ℕ_discrete, ◌+◌, true, false, Option, none, some, List, [], ◌∷◌, ok, ◌≡◌, refl, ◌≢◌, inr,
}
use bdk_floresta.Fsm.{State, operational}
use bdk_floresta.Node.Local.{
  get_state, get_block_hash, match_filters, get_filter_height, get_block_height,
}
use bdk_floresta.Node.Lifecycle.Calls.{run}
use bdk_floresta.Node.Lifecycle.Start.{start}
use bdk_floresta.Builder.{proceed}
use bdk_floresta.Builder.Configuration.{default_config}
use bdk_floresta.Builder.Logging.{open_log_file, log_file_layer, register, init}
use bdk_floresta.Builder.Build.{build_node, build, node_of}
use bdk_floresta.Client.Monad.{Outcome, done, pending, continue}
use bdk_floresta.Client.Create.{client_of, new}
use bdk_floresta.Demo.Waiting.{wait_for_block, wait_loop}
use bdk_floresta.Client.Handle.{new_handle, cancel, stop}
use bdk_floresta.Client.Run.{
  forwarded, scan_continuous, enable_block_forwarding, with_guard, watch_blocks, receive_block,
  report, wait_until_ready,
}
use bdk_floresta.Client.Forward.{on_block, enable}
use bdk_floresta.Client.Scan.{
  scan_inner, derive_for, scan_range, check_range, fetch_matched, fetch_or_abort, scan_blocks,
  scan_block, finish_range,
}
use bdk_floresta.Client.Spks.{derive_spks_with_custom_lookahead, take_spks}
use bdk_floresta.Client.Update.{abort_if_cancelled, apply_block, publish, finish_update, send_event}
use bdk_floresta.Node.Network.{fetch_blocks}
use bdk_floresta.Demo.Program.{Script, after}
use bdk_floresta.Demo.Mining.{
  Halfin, Miner, MiningError, generate_block, await_block, mine_block, mine_blocks,
  await_operational, mine,
}
use bdk_floresta.Demo.Regtest.{
  regtest_config, Booted, boot_processes, regtest_client, RegtestEnd, mined, regtest_scan, regtest,
}
use bdk_floresta.Demo.Regtest.Leaving.{RegtestLeft, regtest_leaves}
use bdk_floresta.Demo.Regtest.Running.{regtest_ends}
use bdk_floresta.Examples.Fixture.{crates, library, peer, ready}
use bdk_floresta.Examples.Building.{machine}
use bdk_floresta.Examples.Programs.{app}
use bdk_floresta.Examples.Mains.{setup, script}

abbrev processes : Halfin crates ℕ
processes = record {
  regtest = 1;
  HalfinError = Unit {0};
  BitcoinD = Unit {0};
  UtreexoD = Unit {0};
  new_bitcoind = λ dir w. (ok tt, w);
  new_utreexod = λ dir w. (ok tt, w);
  connect = λ bitcoind utreexod w. (ok tt, w);
  generate = λ bitcoind blocks w. (ok tt, w + blocks);
  generate_to_address = λ bitcoind blocks address w. (ok tt, w + blocks);
  get_chain_tip = λ bitcoind w. (ok w, w);
  get_filter_tip = λ bitcoind w. (ok w, w);
  wait_for_height = λ utreexod height w. (ok tt, w);
  wait_for_filter_height = λ utreexod height w. (ok tt, w);
  get_p2p_socket = λ utreexod. peer;
  blocks_var = λ w. some 7;
  sleep = λ milliseconds w. w;
}

abbrev undisturbed : Script crates
undisturbed = record script { interrupted = false }

abbrev states : List (Option State)
states = some operational ∷ []

abbrev booted : Booted library processes
booted = record {
  bitcoind = tt;
  utreexod = tt;
  external_address = 100;
  internal_address = 200;
  client = client_of library (run (node_of machine (regtest_config machine 1 peer) tt 6)).1 1;
  wallet = 1;
}

abbrev miner : Miner crates
miner = (mine processes tt tt 100 200 states (record { node = booted.client.node; lines = [] })).1

abbrev ending : RegtestEnd processes app
ending = mined (record { token = true; inner = false; aborted = false }) none miner

regtest-ends :
    (regtest {P = machine} {S = setup} processes app undisturbed states 0).0 ≡ done ending
unfolding regtest regtest_client boot_processes regtest_scan mine mine_blocks mine_block
    generate_block await_block await_operational wait_for_block wait_loop get_block_hash get_state
    after init log_file_layer open_log_file register proceed build build_node default_config run
    start new ℕ_discrete new_handle stop cancel scan_continuous forwarded on_block
    enable_block_forwarding enable with_guard watch_blocks receive_block report wait_until_ready
    scan_inner derive_for derive_spks_with_custom_lookahead take_spks continue scan_range
    check_range abort_if_cancelled match_filters get_filter_height fetch_matched fetch_or_abort
    fetch_blocks scan_blocks scan_block get_block_height apply_block publish finish_update
    send_event finish_range
regtest-ends = refl

regtest_leaves_example :
    (b : Booted library processes) × ((regtest_client machine setup processes 0).0 ≡ done b)
    × RegtestLeft processes app b.wallet ending
regtest_leaves_example =
    regtest_leaves {P = machine} {S = setup} processes app undisturbed states 0 ending regtest-ends

done-pending : {E A : Type 0} (a : A) → ◌≢◌ {A = Outcome E A} (done a) pending
done-pending a e = cc

waits_over :
    (await_operational processes states
      (get_state booted.client.node).0
      (record { node = booted.client.node; lines = [] })).0
    ≢ pending
unfolding await_operational get_state run
waits_over = done-pending {E = MiningError (Unit {0})} tt

regtest_ends_example :
    regtest_scan {P = machine} {S = setup} processes app undisturbed states booted ≢ pending
regtest_ends_example =
    regtest_ends {P = machine} {S = setup} processes app undisturbed states booted (inr waits_over)

abbrev idle : Miner crates
idle = record { node = ready; lines = [] }
