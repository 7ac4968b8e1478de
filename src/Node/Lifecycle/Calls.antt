-- ===== src/Node/Lifecycle/Calls.antt =====
-- src/node/mod.rs: `Node::run` and `Node::shutdown` as their caller sees them.
use bdk_floresta.Prelude.{true, false, none, some, Result, ok, err, ◌≡◌, refl, sym, subst, arith}
use bdk_floresta.Fsm.{active}
use bdk_floresta.Node.Backend.{Backend}
use bdk_floresta.Node.Types.{Node, NodeError}
use bdk_floresta.Node.Lifecycle.Start.{start}
use bdk_floresta.Node.Lifecycle.{
  System, IsFresh, returned, polling, waiting, take_inner, spawn, activate, cancel, take_task,
  Reach, here, next,
}

module _ {B : Backend} where
  -- The lines of `run` after the spawns.
  abbrev activated :
      Result (NodeError B) B.NodeInner × Node B → Result (NodeError B) (Unit {0}) × Node B
  activated (ok _, n) = (ok tt, record n { shutdown_task = true; state = active })
  activated (err e, n) = (err e, n)

  -- `Node::run`, where no task that it spawns makes a step before it returns.
  unfoldable pub run : Node B → Result (NodeError B) (Unit {0}) × Node B
  unfolding start
  run n = activated (start n)

  -- `Node::shutdown`. What the task that it awaits does are that task's steps.
  unfoldable pub shutdown : Node B → Result (NodeError B) (Unit {0}) × Node B
  shutdown n = (ok tt, record n { cancellation_token = true; shutdown_task = false })

  -- A node that `run` has returned from, with the tasks that it has spawned.
  abbrev pub running : Node B → System B
  running n = record {
    node = n;
    run = returned;
    poller = polling;
    shutdown = waiting;
    signalled = false;
    inner_over = false;
    timed_out = false;
  }

  -- The node after `run`.
  abbrev started : Node B → Node B
  started n = record n {
    inner = none;
    started_at = some (B.now n.world);
    shutdown_task = true;
    state = active;
  }

  run_lem :
      (n : Node B) (i : B.NodeInner)
      → n.inner ≡ some i
      → n.started_at ≡ none
      → run n ≡ (ok tt, started n)
  unfolding run start
  run_lem n i there fresh = ground arith

  -- A system whose `run` has returned, with the node that it has left.
  abbrev pub with_tasks : System B → Node B → System B
  with_tasks s n = record s { node = n; run = returned; poller = polling; shutdown = waiting }

  -- On a fresh system `run` succeeds, and is a path of the steps.
  pub run-Reach :
      (s : System B) → IsFresh s → ((run s.node).0 ≡ ok tt) × Reach s (with_tasks s (run s.node).1)
  run-Reach s f =
      let (i, there) = f.inner_there in
      let r : Reach s (with_tasks s (started s.node)) =
        next (next (next here (take_inner i f.run_idle there refl)) (spawn refl f.not_started refl))
          (activate refl refl) in
      subst (λ r. (r.0 ≡ ok tt) × Reach s (with_tasks s r.1))
        (sym (run_lem s.node i there f.not_started)) (refl, r)

  pub shutdown-cancels : (n : Node B) → (shutdown n).1.cancellation_token ≡ true
  unfolding shutdown
  shutdown-cancels n = refl

  pub shutdown-Reach : (s : System B) → Reach s (record s { node = (shutdown s.node).1 })
  unfolding shutdown
  shutdown-Reach s = next (next here (cancel refl)) (take_task refl refl)
