-- ===== src/Builder/Build/Fresh.antt =====
-- src/node/builder.rs: what `Builder::build` returns.
use bdk_floresta.Prelude.{
  false, none, some, Result, ok, err, Option, ◌≡◌, ◌≢◌, ◌↔◌, refl, ap, sym, ◌∙◌, arith,
}
use mathlib.Core.Option.{some-injective}
use bdk_floresta.Node.{Node}
use bdk_floresta.Node.Backend.{Backend}
use bdk_floresta.Node.Lifecycle.{System, IsFresh, idle, PollPoint, ShutdownPoint, Reach}
use bdk_floresta.Node.Lifecycle.Orderly.{Inv, Reach-Inv}
use bdk_floresta.Builder.Platform.{Platform}
use bdk_floresta.Builder.Types.{BuilderError, Logger, Builder, proceed}
use bdk_floresta.Builder.Logging.{init}
use bdk_floresta.Builder.Logging.Guard.{init-guard}
use bdk_floresta.Builder.Build.{init_logger, node_of, build}

module _ {B : Backend} (P : Platform B) where
  proceed-ok :
      {A C : Type 0} (r : Result (BuilderError P) A × B.World)
      (f : A → B.World → Result (BuilderError P) C × B.World) (c : C) (w' : B.World)
      → proceed r f ≡ (ok c, w')
      → (a : A) × (r.0 ≡ ok a) × (f a r.1 ≡ (ok c, w'))
  unfolding proceed
  proceed-ok (ok a, w) f c w' h = (a, refl, h)
  proceed-ok (err e, w) f c w' h = cc

  -- The node as the first part of a system, with no task spawned.
  abbrev pub system_of : Node B → System B
  system_of n = record {
    node = n;
    run = idle;
    poller = PollPoint.unspawned;
    shutdown = ShutdownPoint.unspawned;
    signalled = false;
    inner_over = false;
    timed_out = false;
  }

  node_of-IsFresh :
      (b : Builder P) (inner : B.NodeInner) (w : B.World)
      → IsFresh (system_of (node_of P b.config inner w))
  node_of-IsFresh b inner w = ground arith

  -- What a build that succeeds has come to: the logger's guard, and the node around an inner node.
  build-ok :
      (b : Builder P) (w w' : B.World) (n : Node B) (guard : Option P.WorkerGuard)
      → build P b w ≡ (ok (n, guard), w')
      → (v : B.World) × (inner : B.NodeInner) × ((init_logger P b.logger v).0 ≡ ok guard)
        × (n ≡ node_of P b.config inner w')
  unfolding build
  build-ok b w w' n guard h =
      let (_, _, h₁) = proceed-ok _ _ _ w' h in
      let (log_guard, e, h₂) = proceed-ok _ _ _ w' h₁ in
      let (inner, _, h₃) = proceed-ok _ _ _ w' h₂ in
      ((P.create_dir_all b.config.datadir w).1, inner, ground arith, ground arith)

  -- A node that the builder builds has the builder's configuration, and its system is fresh, so
  -- that what holds of every interleaving of `run`, polling and shutdown holds from there.
  pub build-Reach-Inv :
      (b : Builder P) (w w' : B.World) (n : Node B) (guard : Option P.WorkerGuard)
      → build P b w ≡ (ok (n, guard), w')
      → (n.config ≡ b.config)
        × IsFresh (system_of n)
        × ((t : System B) → Reach (system_of n) t → Inv t)
  build-Reach-Inv b w w' n guard h =
      let (_, inner, _, e) = build-ok b w w' n guard h in
      let fresh : IsFresh (system_of n) = rw e (node_of-IsFresh b inner w') in
      (ap (λ m. m.config) e, fresh, λ t r. Reach-Inv (system_of n) t fresh r)

  init_logger-guard :
      (o : Option (Logger P)) (v : B.World) (guard : Option P.WorkerGuard)
      → (init_logger P o v).0 ≡ ok guard
      → (guard ≢ none) ↔ ((logger : Logger P) × (o ≡ some logger) × (logger.log_file ≢ none))
  init_logger-guard none v guard h = (λ k. ground arith, λ k. ground arith)
  init_logger-guard (some l) v guard h =
      let (to, from) = init-guard P l v (init P l v).1 guard (cc h) in
      (
        λ k. (l, refl, λ e. k (from e)),
        λ (m, e, k) g. k (ap (λ x. x.log_file) (sym (some-injective l m e)) ∙ to g),
      )

  -- A build that succeeds keeps a guard exactly if it was given a logger with a log file.
  pub build-guard :
      (b : Builder P) (w w' : B.World) (n : Node B) (guard : Option P.WorkerGuard)
      → build P b w ≡ (ok (n, guard), w')
      → (guard ≢ none) ↔ ((logger : Logger P) × (b.logger ≡ some logger) × (logger.log_file ≢ none))
  build-guard b w w' n guard h =
      let (v, _, i, _) = build-ok b w w' n guard h in init_logger-guard b.logger v guard i
