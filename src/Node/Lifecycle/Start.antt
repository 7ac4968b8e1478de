-- ===== src/Node/Lifecycle/Start.antt =====
-- src/node/mod.rs: the first lines of `Node::run`, which let it start once.
use bdk_floresta.Prelude.{none, some, Result, ok, err, ◌≡◌, ◌≢◌, arith}
use bdk_floresta.Node.Backend.{Backend}
use bdk_floresta.Node.Types.{Node, NodeError, already_running}
use bdk_floresta.Node.Lifecycle.{
  idle, System, IsFresh, Step, take_inner, spawn, activate, poll_round, poll_end, cancel, take_task,
  sigint, inner_ends, expire, interrupt, kill, announce, cancel_all, deactivate, elsewhere, Reach,
  here, next,
}
use bdk_floresta.Node.Lifecycle.Orderly.{poll_keeps, Reach-Inv}

module _ {B : Backend} where
  -- The inner node is taken, and then the instant is set.
  unfoldable pub start : Node B → Result (NodeError B) B.NodeInner × Node B
  start n = elim n.inner [
    | none ↦ (err already_running, n)
    | some i ↦ elim n.started_at [
      | none ↦ (ok i, record n { inner = none; started_at = some (B.now n.world) })
      | some _ ↦ (err already_running, record n { inner = none })
    ]
  ]

  -- A system whose `run` has not been called can start.
  abbrev Startable : System B → Type 0
  Startable s =
      s.run ≡ idle → ((i : B.NodeInner) × (s.node.inner ≡ some i)) × (s.node.started_at ≡ none)

  Step-Startable : {s t : System B} → Step s t → Startable s → Startable t
  Step-Startable (take_inner i a b e) h = ground arith
  Step-Startable (spawn a b e) h = ground arith
  Step-Startable (activate a e) h = ground arith
  Step-Startable {s} (poll_round a e) h = ground (arith, poll_keeps s.node)
  Step-Startable (poll_end a b e) h = ground arith
  Step-Startable (cancel e) h = ground arith
  Step-Startable (take_task a e) h = ground arith
  Step-Startable (sigint e) h = ground arith
  Step-Startable (inner_ends e) h = ground arith
  Step-Startable (interrupt a b e) h = ground arith
  Step-Startable (kill a e) h = ground arith
  Step-Startable (announce a e) h = ground arith
  Step-Startable (cancel_all a e) h = ground arith
  Step-Startable (expire a b e) h = ground arith
  Step-Startable (deactivate a b e) h = ground arith
  Step-Startable (elsewhere w e) h = ground arith

  Reach-Startable : (s t : System B) → IsFresh s → Reach s t → Startable t
  Reach-Startable s t f here = ground arith
  Reach-Startable s t f (next {t = u} r step) = Step-Startable step (Reach-Startable s u f r)

  -- In every interleaving from a fresh node, whatever polling, signals and cancelled tokens do,
  -- `run` starts if it has not been called; once it has been, it fails as already running and
  -- leaves the node as it is.
  pub run_once :
      (s t : System B)
      → IsFresh s
      → Reach s t
      → (t.run ≡ idle → (i : B.NodeInner) × ((start t.node).0 ≡ ok i))
        × (t.run ≢ idle → start t.node ≡ (err already_running, t.node))
  unfolding start
  run_once s t f r =
      let can = Reach-Startable s t f r in
      let v = Reach-Inv s t f r in
      (λ i. ground arith, λ n. let gone = v.taken_once n in ground arith)
