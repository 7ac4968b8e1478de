-- ===== src/Lib.antt =====
-- bdk-floresta: a floresta node under a handle, and a client that scans for a BDK wallet through it.
--
-- The parts and how they interact. The builder (src/node/builder.rs) sets up the logger, opens the
-- stores and wraps floresta's node in a node (src/node/mod.rs). `Node::run` spawns three tasks:
-- floresta's own, one that polls the stores and updates the node's state by the function of
-- src/node/fsm.rs, and one that waits for a signal or a cancelled token and shuts the node down.
-- Callers ask the node's stores, match filters and send requests to its peers; each request keeps
-- an action in a shared set while it is in flight. The client (src/client/mod.rs) waits for the
-- node to be operational, derives the wallet's script pubkeys, matches the filters, fetches the
-- matched blocks, applies them to its transaction graph, moves its checkpoint and sends each
-- update over a channel. A continuous scan goes on with the blocks that the chain validates, which
-- a sink that is registered at the node passes on.
--
-- The files:
--   Prelude     the libraries' names, Boolean tests on native numbers, `Result`, sets, decimal texts
--   Fsm         src/node/fsm.rs: `State`, `compute_next_state`; Fsm/Relation has the transitions as a
--               relation, Fsm/Laws their laws, Fsm/Display the texts
--   Node        src/node/mod.rs and src/node/error.rs. Node/Backend is the record of what other
--               crates provide; Node/Types has `Action`, `NodeError`, `NodeConfig` and `Node`;
--               Node/Local the queries and `match_filters`; Node/Network the requests to the peers;
--               Node/Poll a round of the polling task; Node/Lifecycle `run`, the tasks and `shutdown` as
--               steps of one system; Node/Overlap calls whose times overlap, and the
--               action set with its order forgotten; Node/Display the
--               texts; Node/Lifecycle/Start the start of `run`, Node/Lifecycle/Calls `run` and
--               `shutdown` as their caller sees them, Node/Lifecycle/Waits the waits of the shutdown
--               task with their times; Node/Requests, Node/Filters and
--               Node/Lifecycle/Orderly proofs about these
--   Client      src/client/mod.rs and src/client/error.rs. Client/Wallet is the record of what the wallet
--               library provides; Client/Types has the client's data; Client/Monad calls that return,
--               fail or still wait; Client/Spks the derivation of script pubkeys; Client/Update the token,
--               the channel and the updates; Client/Scan `scan_inner`; Client/Run the wait for the
--               node, `scan` and `scan_continuous`; Client/Forward the block sink and its guard;
--               Client/Create `Client::new`, its watcher and the drop of a client as steps of one
--               session; Client/Handle `ScanHandle`; the modules below these hold their proofs, with
--               Client/Run/Channel the loop of a continuous scan and the chain as two sides of the block
--               channel, and Client/Scan/Errors the errors of a scan by their causes
--   Builder     src/node/builder.rs, src/logger.rs and the builder's errors of src/node/error.rs.
--               Builder/Platform is the record of what the standard library, tracing and floresta
--               provide; Builder/Types has the errors, `Logger` and `Builder`; Builder/Logging
--               `Logger::init`; Builder/Configuration the default configuration and its conversion;
--               Builder/Build `Builder::build`; Builder/Logging/Format the formatter of the log lines; the
--               modules below these hold their proofs
--   Agent       build.rs. Agent/Toml is the record of what the toml crate and the files provide; Agent/Text
--               the functions on texts; Agent/Source the version of one entry; Agent/Search the search
--               through the manifest and the lock file; Agent/Script the lines that are printed
--   Demo        examples/client_regtest.rs and examples/client_signet.rs. Demo/Program has the chains of
--               calls that `main` is made of and its errors, Demo/Ending the spawned scan, the stop and
--               the shutdown, Demo/Signet and Demo/Regtest the two mains, Demo/Mining the loop over mined
--               blocks, Demo/Waiting the wait for a mined block, Demo/Consumer the task that applies a
--               scan's events to the wallet, Demo/Lines the tasks that log the node's states and actions;
--               the modules below these hold their proofs
--   Examples    runs on small stand-ins for the other crates, and the theorems at concrete inputs
--
-- How state and operations correspond. A method that reads or changes shared state is a function
-- from the node or the client to its result and the node or client that it leaves. The watch
-- channels of the state and of the actions, the token, the kill signal and the locks are fields.
-- What stands behind the node (chain state, filter store, peers, clock) is the type `World` of the
-- record `Backend`, and each call of another crate is a field that takes the world and yields the
-- next one, so a call may answer differently each time. A set is a list without repetitions, a
-- `u32` a natural number; the one `u32` sum that can wrap is reduced modulo 2 ^ 32, the mempool's
-- size in bytes modulo 2 ^ 64, and a saturating sum is cut at the largest `u32`.
--
-- Bounds. The conversion of a number to its decimal text has fuel for 20 divisions by ten, more than
-- a `u64` takes. No other definition of the crate runs on fuel. A task that waits is given the list of what wakes
-- it, and where the list ends before the task does, and its token is not cancelled, the outcome is
-- `pending`. The blocks of that list are those that the chain validates; what the loop of a
-- continuous scan finds of them has passed its sink and the channel. Blocks, filters and
-- script pubkeys are lists; an unbounded iterator is only taken from up to a bound. The requests
-- of `fetch_blocks` are answered one after another, and what `try_join_all` makes of their results
-- is a field of `Backend`. Each step of the system of a node's tasks is one write to shared state;
-- the steps may come in any order that their guards allow. A SIGINT, the end of the inner node's
-- tasks and the timeout of the shutdown task's waits are steps of their own: the shutdown task goes
-- on to its last state when the tasks that it waits for are over or when that timeout has come. A text is a native string; a panic of the build script is a result. The
-- wait for a mined block has the fuel for 51 polls, which its timeout of 10 seconds allows with
-- 200 milliseconds between two.
--
-- The mains of the example programs. What comes to a program while it scans is a script: the
-- wake-ups of its scan, and whether a SIGINT or the other branch ends its `select!`. A scan
-- whose token the stop of its handle has cancelled finds that behind the wake-ups of the script. The node as `run` leaves it is
-- the one that the client gets; what its tasks do from there on is in the world, also what a SIGINT
-- makes them do: the fields of the wallet library's record for the client's token and channel say what
-- comes of it. In the branch that
-- mines, the loop and the scan run on views of the node of their own, and each sees what the other
-- does as a change of the world. bitcoind and utreexod, which the crate halfin runs, are the record
-- `Halfin`.
--
-- Not modelled: the log calls of the node and of the client, which have no effect on their results,
-- but those of the waits at the shutdown;
-- of those of the example programs, all but the lines on the wallet, on states and actions and on
-- mined blocks, and the error of the scan; the conversion from floresta's configuration, which the
-- source leaves unimplemented; the methods that only hand out a token, a receiver or a checkpoint;
-- and src/lib.rs, which declares the modules.
pub mod Prelude
pub mod Fsm
pub mod Node
pub mod Client
pub mod Builder
pub mod Agent
pub mod Demo
pub mod Examples
