-- ===== src/Builder/Build/Stopped.antt =====
-- src/node/builder.rs and src/node/mod.rs: a node that is built, run and shut down.
use bdk_floresta.Prelude.{false, inr, true, none, Option, ok, ◌≡◌, refl, arith}
use bdk_floresta.Fsm.{inactive}
use bdk_floresta.Node.{Node}
use bdk_floresta.Node.Backend.{Backend}
use bdk_floresta.Node.Lifecycle.{stopped, ended, System, Reach, Reach-append, foreign_steps}
use bdk_floresta.Node.Lifecycle.Calls.{
  run, shutdown, running, run-Reach, shutdown-Reach, shutdown-cancels,
}
use bdk_floresta.Node.Lifecycle.Orderly.{shutdown_completes}
use bdk_floresta.Builder.Platform.{Platform}
use bdk_floresta.Builder.Types.{Builder}
use bdk_floresta.Builder.Build.{build}
use bdk_floresta.Builder.Build.Fresh.{system_of, build-Reach-Inv}

module _ {B : Backend} (P : Platform B) where
  -- On a node that the builder has built `run` succeeds. `run` and `shutdown`, one after the other,
  -- are a path of the system's steps, and no SIGINT has come by then. From there the tasks can run
  -- on to their end by steps of their own and of the inner node's alone, without a SIGINT, a
  -- timeout or another cancel, with the polling stopped, the kill signal set, the token cancelled,
  -- the inner node gone and the node inactive.
  pub build_run_shutdown :
      (b : Builder P) (w w' : B.World) (n : Node B) (guard : Option P.WorkerGuard)
      → build P b w ≡ (ok (n, guard), w')
      → let m = (shutdown (run n).1).1 in
        ((run n).0 ≡ ok tt)
        × Reach (system_of P n) (running m)
        × ((running m).signalled ≡ false)
        × ((t : System B) × (r : Reach (running m) t) × (foreign_steps r ≡ 0)
            × (t.shutdown ≡ ended)
            × (t.poller ≡ stopped)
            × (t.node.inner ≡ none)
            × (t.node.kill_signal ≡ true)
            × (t.node.cancellation_token ≡ true)
            × (t.node.state ≡ inactive))
  build_run_shutdown b w w' n guard h =
      let (_, fresh, invariant) = build-Reach-Inv P b w w' n guard h in
      let (runs, r) = run-Reach (system_of P n) fresh in
      let m = (shutdown (run n).1).1 in
      let to : Reach (system_of P n) (running m) =
        Reach-append r (shutdown-Reach (running (run n).1)) in
      let (t, q, alone, over, ends, quiet, kills, cut, off) =
        shutdown_completes (running m) refl refl (inr (shutdown-cancels (run n).1)) in
      (
        runs,
        to,
        refl,
        (
          t,
          q,
          alone,
          ends,
          quiet,
          (invariant t (Reach-append to q)).taken_once (ground (arith, over)),
          kills,
          cut,
          off,
        ),
      )
