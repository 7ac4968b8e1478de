-- ===== src/Node/Lifecycle/Waits.antt =====
-- src/node/mod.rs: the waits of the shutdown task, each bounded by a timeout, and its flush. Times
-- are in milliseconds since it began to wait.
pub mod Bounds
use Prim.Native.Nat.{max}
use bdk_floresta.Prelude.{
  ℕ, ◌+◌, ◌≤◌, List, [], ◌∷◌, ◌++◌, Result, ok, err, leb, arith, if◌then◌else◌,
}

-- `SHUTDOWN_TIMEOUT`.
abbrev pub shutdown_timeout : ℕ
shutdown_timeout = 10000

-- What becomes of a task or of a channel: it finishes, it breaks (the task panics, the sender is
-- dropped), or neither.
pub data Fate : Type 0 where
  finishes breaks : (time : ℕ) → Fate
  hangs : Fate

-- The fate is to finish, by this time.
abbrev pub FinishedBy : ℕ → Fate → Type 0
FinishedBy time (finishes at) = at ≤ time
FinishedBy time (breaks _) = ⊥
FinishedBy time hangs = ⊥

-- What the waits log.
pub data WaitLine (E : Type 0) : Type 0 where
  channel_closed channel_timed_out task_failed task_timed_out : WaitLine E
  flush_failed : E → WaitLine E

-- The time at which the shutdown task goes on, and the lines that it has logged.
pub record Clock (E : Type 0) : Type 0 where
  pub time : ℕ
  pub lines : List (WaitLine E)

module _ {E : Type 0} where
  -- A wait that begins at the clock's time for what happens at `at`: it ends then, or at its
  -- timeout.
  abbrev pub waited_until : (at timeout : ℕ) (line late : List (WaitLine E)) → Clock E → Clock E
  waited_until at timeout line late k =
      if leb at (k.time + timeout)
      then record { time = max at k.time; lines = k.lines ++ line }
      else record { time = k.time + timeout; lines = k.lines ++ late }

  unfoldable pub await_with_timeout : Fate → (timeout : ℕ) → Clock E → Clock E
  await_with_timeout (finishes at) timeout k = waited_until at timeout [] (channel_timed_out ∷ []) k
  await_with_timeout (breaks at) timeout k =
      waited_until at timeout (channel_closed ∷ []) (channel_timed_out ∷ []) k
  await_with_timeout hangs timeout k = record {
    time = k.time + timeout;
    lines = k.lines ++ channel_timed_out ∷ [];
  }

  unfoldable pub join_with_timeout : Fate → (timeout : ℕ) → Clock E → Clock E
  join_with_timeout (finishes at) timeout k = waited_until at timeout [] (task_timed_out ∷ []) k
  join_with_timeout (breaks at) timeout k =
      waited_until at timeout (task_failed ∷ []) (task_timed_out ∷ []) k
  join_with_timeout hangs timeout k = record {
    time = k.time + timeout;
    lines = k.lines ++ task_timed_out ∷ [];
  }

  abbrev pub flushed : Result E (Unit {0}) → Clock E → Clock E
  flushed (ok tt) k = k
  flushed (err e) k = record k { lines = k.lines ++ flush_failed e ∷ [] }

  -- The shutdown task from its first wait to its flush. The flush itself is taken to need no time.
  unfoldable pub wait_and_flush :
      (node_stopped node_task state_update : Fate) → Result E (Unit {0}) → Clock E
  unfolding await_with_timeout join_with_timeout
  wait_and_flush node_stopped node_task state_update flush = flushed flush (
      join_with_timeout state_update shutdown_timeout (
        join_with_timeout node_task shutdown_timeout
          (await_with_timeout node_stopped shutdown_timeout (record { time = 0; lines = [] }))))
