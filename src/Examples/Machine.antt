-- ===== src/Examples/Machine.antt =====
-- The state machine, the polling round and the life of a node.
use bdk_floresta.Prelude.{inl, ◌≤◌, ok, err, ◌+◌, min, true, ◌≡◌, refl, ◌≢◌, ◌↔◌, ◌⊎◌, arith}
use bdk_floresta.Fsm.{
  State, inactive, active, header_sync, initial_block_download, compact_block_filter_download,
  operational, shutting_down, compute_next_state,
}
use bdk_floresta.Fsm.Display.{show_state}
use bdk_floresta.Fsm.Unique.{Next-unique}
use bdk_floresta.Fsm.Relation.{Next}
use bdk_floresta.Fsm.Laws.{lag_within_tolerance}
use bdk_floresta.Node.Poll.{poll}
use bdk_floresta.Node.Lifecycle.{
  sigint, System, IsFresh, Step, RunPoint, idle, spawned, returned, PollPoint, polling, stopped,
  ShutdownPoint, waiting, announced, ended, take_inner, Reach, here, next, announce, killed, spawn,
  interrupt, kill, cancel_all, cancelling,
}
use bdk_floresta.Node.{already_running}
use bdk_floresta.Node.Lifecycle.Start.{start, run_once}
use bdk_floresta.Node.Lifecycle.Ending.{own, own_steps, tasks_terminate}
use bdk_floresta.Node.Lifecycle.Orderly.{Inv, Reach-Inv, shutdown_orderly, active_after_shutdown}
use bdk_floresta.Node.Lifecycle.Waits.{
  finishes, breaks, hangs, FinishedBy, task_failed, task_timed_out, flush_failed, Clock,
  wait_and_flush,
}
use bdk_floresta.Node.Lifecycle.Waits.Bounds.{waits_bounded}
use bdk_floresta.Prelude.{inl, ℕ, Result, [], ◌∷◌}
use bdk_floresta.Client.{ScanKind}
use bdk_floresta.Client.Wallet.{taken}
use bdk_floresta.Client.Scan.{scan_inner}
use bdk_floresta.Client.Scan.Cancel.{Stopped}
use bdk_floresta.Client.Create.{client_of, watching, over, Session, cancel_node, SessionReach}
use bdk_floresta.Client.Create.Following.{node_down_closes_clients}
use bdk_floresta.Examples.Fixture.{crates, built, library}
use bdk_floresta.Prelude.{inl, none, some, false, inl}

header_sync_first : compute_next_state true active 0 800000 0 ≡ header_sync 800000
unfolding compute_next_state
header_sync_first = refl

block_download_next : compute_next_state true active 100 107 0 ≡ initial_block_download 107 100
unfolding compute_next_state
block_download_next = refl

operational_at_tip : compute_next_state true active 107 107 200 ≡ operational
unfolding compute_next_state
operational_at_tip = refl

shown : show_state (initial_block_download 107 100) ≡ "IBD at chain_height=107 and node_height=100"
unfolding show_state
shown = refl

Next-unique_example :
    (n : (t : State) × Next true 100 103 200 operational t) × (n.0
      ≡ compute_next_state true operational 100 103 200)
    × ((m : (t : State) × Next true 100 103 200 operational t) → m ≡ n)
Next-unique_example = Next-unique true 100 103 200 (omega arith) operational

lag_within_tolerance_example :
    compute_next_state true operational 99 (99 + 1) 99 ≡ compact_block_filter_download (min 99 99)
lag_within_tolerance_example =
    lag_within_tolerance 99 1 99 (omega arith) (omega arith) (omega arith) (omega arith)

polled : (poll (record built { state = active })).0.state ≡ operational
unfolding poll
polled = ground arith

abbrev fresh : System crates
fresh = record {
  node = built;
  run = idle;
  poller = PollPoint.unspawned;
  shutdown = ShutdownPoint.unspawned;
  signalled = false;
  inner_over = false;
  timed_out = false;
}

fresh-IsFresh : IsFresh fresh
fresh-IsFresh = record {
  inner_there = (tt, refl);
  not_started = refl;
  state_inactive = refl;
  not_cancelled = refl;
  not_killed = refl;
  run_idle = refl;
  poller_unspawned = refl;
  shutdown_unspawned = refl;
  no_signal = refl;
  inner_runs = refl;
  no_timeout = refl;
}

abbrev taken_out : System crates
taken_out = record fresh { run = RunPoint.took; node = record built { inner = none } }

abbrev taking : Reach fresh taken_out
taking = next here (take_inner tt refl refl refl)

Reach-Inv_example : Inv taken_out
Reach-Inv_example =
    Reach-Inv fresh taken_out fresh-IsFresh (next here (take_inner tt refl refl refl))

abbrev running : System crates
running = record {
  node = record built { inner = none; state = active; shutdown_task = true };
  run = returned;
  poller = polling;
  shutdown = killed;
  signalled = false;
  inner_over = false;
  timed_out = false;
}

abbrev closing : System crates
closing = record running {
  shutdown = announced;
  node = record (running.node) { state = shutting_down };
}

shutdown_orderly_example :
    ((closing.shutdown ≡ announced) ⊎ (closing.shutdown ≡ cancelling)
      → closing.node.state ≡ shutting_down)
    × (closing.shutdown ≡ ended → closing.node.state ≡ inactive)
shutdown_orderly_example = shutdown_orderly running closing refl tt (next here (announce refl refl))

abbrev starting : System crates
starting = record running { run = spawned; shutdown = waiting }

active_after_shutdown_example :
    (t : System crates) × Reach starting t
    × (t.run ≡ returned)
    × (t.shutdown ≡ ended)
    × (t.poller ≡ stopped)
    × (t.node.state ≡ active)
active_after_shutdown_example = active_after_shutdown starting refl refl refl

run_once_example :
    (RunPoint.took ≡ idle → (i : Unit {0}) × ((start taken_out.node).0 ≡ ok i))
    × (RunPoint.took ≢ idle → start taken_out.node ≡ (err already_running, taken_out.node))
run_once_example = run_once fresh taken_out fresh-IsFresh (next here (take_inner tt refl refl refl))

tasks_terminate_example :
    (own_steps taking ≤ 10)
    × ((taken_out.signalled ≡ true) ⊎ (taken_out.node.cancellation_token ≡ true)
        → ((u : System crates) × (step : Step taken_out u) × (own step ≡ 1))
          ⊎ ((taken_out.run ≡ RunPoint.returned)
              × (taken_out.poller ≡ PollPoint.stopped)
              × (taken_out.shutdown ≡ ended)))
tasks_terminate_example = tasks_terminate fresh taken_out fresh-IsFresh taking

-- The fresh node, run up to the spawns and shut down until its token is cancelled.
abbrev shutting : System crates
shutting = record fresh {
  run = spawned;
  poller = polling;
  shutdown = announced;
  signalled = true;
  node = record built {
    inner = none;
    started_at = some 0;
    kill_signal = true;
    state = shutting_down;
  };
}

abbrev cut : System crates
cut = record shutting {
  shutdown = cancelling;
  node = record (shutting.node) { cancellation_token = true };
}

abbrev to_cut : Reach fresh cut
to_cut =
    next
      (next
        (next
          (next (next (next taking (spawn refl refl refl)) (sigint refl))
            (interrupt refl (inl refl) refl))
          (kill refl refl))
        (announce refl refl))
      (cancel_all refl refl)

abbrev of_shutting : Session library
of_shutting = record {
  client = client_of library shutting.node 1;
  watcher = watching;
  dropped = false;
}

abbrev of_cut : Session library
of_cut = record of_shutting { client = record (of_shutting.client) { node = cut.node } }

node_down_closes_clients_example :
    (u : Session library) × SessionReach of_cut u
    × (u.watcher ≡ over)
    × ((v : Session library) (kind : ScanKind)
        → SessionReach u v
        → (v.client.event_tx ≡ taken)
          × (v.client.sent ≡ u.client.sent)
          × Stopped v.client (scan_inner kind v.client))
node_down_closes_clients_example =
    node_down_closes_clients library fresh cut of_shutting of_cut fresh-IsFresh to_cut (inl refl)
      (record { open_channel = refl; not_cancelled = refl; still_watching = refl; alive = refl })
      (SessionReach.next SessionReach.here (cancel_node refl)) refl refl

abbrev full : Result ℕ (Unit {0})
full = err 7

-- The channel is told in time, one task panics and the other hangs, and the flush fails.
abbrev clumsy : Clock ℕ
clumsy = wait_and_flush (finishes 100) (breaks 200) hangs full

waits_bounded_example :
    (clumsy.time ≤ 30000)
    × (clumsy.lines ≡ []
        → (full ≡ ok tt)
          × FinishedBy clumsy.time (finishes 100)
          × FinishedBy clumsy.time (breaks 200)
          × FinishedBy clumsy.time hangs)
    × ((time : ℕ)
        → time ≤ 10000
        → FinishedBy time (finishes 100)
        → FinishedBy time (breaks 200)
        → FinishedBy time hangs
        → (clumsy.time ≤ time) × ((clumsy.lines ≡ []) ↔ (full ≡ ok tt)))
waits_bounded_example = waits_bounded (finishes 100) (breaks 200) hangs full

clumsy_test :
    (clumsy.time ≡ 10200) × (clumsy.lines ≡ task_failed ∷ task_timed_out ∷ flush_failed 7 ∷ [])
unfolding wait_and_flush
clumsy_test = (refl, refl)
