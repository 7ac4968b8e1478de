-- ===== src/Examples/Building.antt =====
-- A builder over a small stand-in for the platform.
use bdk_floresta.Prelude.{false, ℕ, ◌+◌, true, Option, none, some, [], ok, err, ◌≡◌, refl}
use bdk_floresta.Node.{Node}
use bdk_floresta.Node.Lifecycle.{foreign_steps, stopped, ended, System, Reach}
use bdk_floresta.Builder.{Builder, Logger, BuilderError, logger_already_setup, proceed}
use bdk_floresta.Builder.Platform.{Platform, info}
use bdk_floresta.Builder.Logging.{open_log_file, log_file_layer, register, init}
use bdk_floresta.Builder.Configuration.{default_config}
use bdk_floresta.Builder.Build.{build_node, build, node_of}
use bdk_floresta.Builder.Build.Stopped.{build_run_shutdown}
use bdk_floresta.Node.Lifecycle.Calls.{run, shutdown, running}
use bdk_floresta.Fsm.{inactive}
use bdk_floresta.Builder.Build.Fresh.{system_of}
use bdk_floresta.Examples.Fixture.{crates}

abbrev pub machine : Platform crates
machine = record {
  join_path = λ a b. a;
  parent = λ path. some "logs";
  file_name = λ path. some "debug.log";
  create_dir_all = λ path w. (ok tt, w);
  open_append = λ path w. (ok tt, w + 1);
  stdout_is_terminal = λ w. true;
  Filter = ℕ;
  filter_from_env = λ w. none;
  filter_of_level = λ level. 0;
  Writer = ℕ;
  WorkerGuard = ℕ;
  file_writer = λ dir name w. ((w, w), w);
  Offset = ℕ;
  utc = 0;
  current_local_offset = λ w. none;
  try_init = λ filter stdout file w. (ok tt, w);
  signet = 1;
  supported_nets = [];
  AssumeUtreexo = ℕ;
  get_assume_utreexo = λ network. network;
  ChainStore = ℕ;
  StoreError = Unit {0};
  open_chain_store = λ path w. (ok 0, w);
  ChainState = ℕ;
  open_chain_state = λ store network w. (ok store, w);
  Filters = ℕ;
  open_filters = λ path w. (0, w);
  Mempool = ℕ;
  new_mempool = λ size. size;
  AddressMan = ℕ;
  new_address_man = λ size nets. 0;
  WireError = Unit {0};
  new_utreexo_node = λ config state mempool filters man w. (ok tt, w);
  show_store_error = λ _. "store";
  show_wire_error = λ _. "wire";
  user_agent = "agent";
}

-- The same with a subscriber that is registered already.
abbrev busy : Platform crates
busy = record machine { try_init = λ filter stdout file w. (err tt, w) }

abbrev to_file : Logger machine
to_file = record { log_level = info; log_to_stdout = true; log_file = some "logs/debug.log" }

abbrev quiet : Logger busy
quiet = record { log_level = info; log_to_stdout = true; log_file = none }

abbrev guard : Option ℕ
guard = some 1

abbrev failure : BuilderError busy
failure = logger_already_setup

init-succeeds : init machine to_file 0 ≡ (ok (some 1), 1)
unfolding init log_file_layer open_log_file register proceed
init-succeeds = refl

init-fails : init busy quiet 0 ≡ (err logger_already_setup, 0)
unfolding init log_file_layer register proceed
init-fails = refl

abbrev builder : Builder machine
builder = record { config = default_config machine; logger = some to_file }

abbrev node : Node crates
node = node_of machine (default_config machine) tt 1

build-succeeds : build machine builder 0 ≡ (ok (node, some 1), 1)
unfolding build build_node init log_file_layer open_log_file register proceed
build-succeeds = refl

build_run_shutdown_example :
    let m = (shutdown (run node).1).1 in
    ((run node).0 ≡ ok tt)
    × Reach (system_of machine node) (running m)
    × ((running m).signalled ≡ false)
    × ((t : System crates) × (r : Reach (running m) t) × (foreign_steps r ≡ 0)
        × (t.shutdown ≡ ended)
        × (t.poller ≡ stopped)
        × (t.node.inner ≡ none)
        × (t.node.kill_signal ≡ true)
        × (t.node.cancellation_token ≡ true)
        × (t.node.state ≡ inactive))
build_run_shutdown_example = build_run_shutdown machine builder 0 1 node (some 1) build-succeeds
