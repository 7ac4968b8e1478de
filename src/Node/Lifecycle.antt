-- ===== src/Node/Lifecycle.antt =====
-- src/node/mod.rs: `Node::run`, the two tasks of the node that it spawns, and `Node::shutdown`, as
-- steps of one system. Any order of the steps that their guards allow is a run.
pub mod Orderly
pub mod Start
pub mod Ending
pub mod Calls
pub mod Waits
use bdk_floresta.Prelude.{ℕ, ◌+◌, Bool, true, false, none, some, ◌≡◌, ◌⊎◌}
use bdk_floresta.Fsm.{inactive, active, shutting_down}
use bdk_floresta.Node.Backend.{Backend}
use bdk_floresta.Node.Types.{Node}
use bdk_floresta.Node.Poll.{poll}

-- Where the call of `run` stands: not called, with the inner node taken, with its tasks spawned, or
-- returned.
pub data RunPoint : Type 0 where
  idle took spawned returned : RunPoint

-- Where the task that polls stands.
pub data PollPoint : Type 0 where
  unspawned polling stopped : PollPoint

-- Where the shutdown task stands: not spawned, in its `select!`, past it, with the kill signal set,
-- with the state sent, with the token cancelled, or ended.
pub data ShutdownPoint : Type 0 where
  unspawned waiting woken killed announced cancelling ended : ShutdownPoint

-- The node with its tasks; whether a SIGINT has come, whether the inner node's tasks are over, and
-- whether the shutdown task's waits have run into their timeouts.
pub record System (B : Backend) : Type 0 where
  pub node : Node B
  pub run : RunPoint
  pub poller : PollPoint
  pub shutdown : ShutdownPoint
  pub signalled : Bool
  pub inner_over : Bool
  pub timed_out : Bool

-- The system of a node that was built and not yet run.
pub record IsFresh {B : Backend} (s : System B) : Type 0 where
  pub inner_there : (i : B.NodeInner) × (s.node.inner ≡ some i)
  pub not_started : s.node.started_at ≡ none
  pub state_inactive : s.node.state ≡ inactive
  pub not_cancelled : s.node.cancellation_token ≡ false
  pub not_killed : s.node.kill_signal ≡ false
  pub run_idle : s.run ≡ idle
  pub poller_unspawned : s.poller ≡ PollPoint.unspawned
  pub shutdown_unspawned : s.shutdown ≡ ShutdownPoint.unspawned
  pub no_signal : s.signalled ≡ false
  pub inner_runs : s.inner_over ≡ false
  pub no_timeout : s.timed_out ≡ false

module _ {B : Backend} where
  pub data Step (s t : System B) : Type 0 where
    -- `run`: the first lines, up to the registration of the instant
    take_inner :
        (i : B.NodeInner)
        → s.run ≡ idle
        → s.node.inner ≡ some i
        → t ≡ record s { run = took; node = record (s.node) { inner = none } }
        → Step s t
    -- `run`: the instant and the spawns
    spawn :
        s.run ≡ took
        → s.node.started_at ≡ none
        → t ≡ record s {
          run = spawned;
          poller = polling;
          shutdown = waiting;
          node = record (s.node) { started_at = some (B.now s.node.world) };
        }
        → Step s t
    -- `run`: the last lines
    activate :
        s.run ≡ spawned
        → t ≡ record s {
          run = returned;
          node = record (s.node) { shutdown_task = true; state = active };
        }
        → Step s t
    -- the polling task: a round, or its end once the token is cancelled
    poll_round : s.poller ≡ polling → t ≡ record s { node = (poll s.node).0 } → Step s t
    poll_end :
        s.poller ≡ polling
        → s.node.cancellation_token ≡ true
        → t ≡ record s { poller = stopped }
        → Step s t
    -- `shutdown`, its first line, or any other holder of the token
    cancel : t ≡ record s { node = record (s.node) { cancellation_token = true } } → Step s t
    -- `shutdown`, the handle that it takes; what it awaits then changes nothing
    take_task :
        s.node.cancellation_token ≡ true
        → t ≡ record s { node = record (s.node) { shutdown_task = false } }
        → Step s t
    -- a SIGINT comes
    sigint : t ≡ record s { signalled = true } → Step s t
    -- the tasks of the inner node end, on their own
    inner_ends : t ≡ record s { inner_over = true } → Step s t
    -- the shutdown task: a SIGINT or a cancelled token, then one line after another
    interrupt :
        s.shutdown ≡ waiting
        → (s.signalled ≡ true) ⊎ (s.node.cancellation_token ≡ true)
        → t ≡ record s { shutdown = woken }
        → Step s t
    kill :
        s.shutdown ≡ woken
        → t ≡ record s { shutdown = killed; node = record (s.node) { kill_signal = true } }
        → Step s t
    announce :
        s.shutdown ≡ killed
        → t ≡ record s { shutdown = announced; node = record (s.node) { state = shutting_down } }
        → Step s t
    cancel_all :
        s.shutdown ≡ announced
        → t
          ≡ record s { shutdown = cancelling; node = record (s.node) { cancellation_token = true } }
        → Step s t
    -- its waits for the inner node and for the polling task run into their timeouts
    expire :
        s.shutdown ≡ cancelling → s.timed_out ≡ false → t ≡ record s { timed_out = true } → Step s t
    -- the waits are over, and the last state is sent
    deactivate :
        s.shutdown ≡ cancelling
        → ((s.inner_over ≡ true) × (s.poller ≡ stopped)) ⊎ (s.timed_out ≡ true)
        → t ≡ record s { shutdown = ended; node = record (s.node) { state = inactive } }
        → Step s t
    -- the inner node, the stores and the clock, on their own
    elsewhere : (w : B.World) → t ≡ record s { node = record (s.node) { world = w } } → Step s t

  pub data Reach (s : System B) : System B → Type 0 where
    here : Reach s s
    next : {t u : System B} → Reach s t → Step t u → Reach s u

  pub Reach-append : {s t u : System B} → Reach s t → Reach t u → Reach s u
  Reach-append r here = r
  Reach-append r (next q step) = next (Reach-append r q) step

  -- 1 for a step that is none of `run`, of its tasks or of the inner node's: a SIGINT, a step of
  -- another holder of the token or the handle, a timeout, or a change elsewhere.
  abbrev foreign : {s t : System B} → Step s t → ℕ
  foreign (cancel _) = 1
  foreign (take_task _ _) = 1
  foreign (sigint _) = 1
  foreign (expire _ _ _) = 1
  foreign (elsewhere _ _) = 1
  foreign _ = 0

  unfoldable pub foreign_steps : {s t : System B} → Reach s t → ℕ
  foreign_steps here = 0
  foreign_steps (next r step) = foreign_steps r + foreign step
