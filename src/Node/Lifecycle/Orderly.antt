-- ===== src/Node/Lifecycle/Orderly.antt =====
-- src/node/mod.rs: what every interleaving of `run`, polling and shutdown keeps, and the one that
-- leaves a node that has shut down reported as active.
use bdk_floresta.Prelude.{true, none, ◌≡◌, refl, ◌≢◌, ◌↔◌, ◌⊎◌, inl, arith, ◌∙◌}
use bdk_floresta.Fsm.{inactive, active, shutting_down}
use bdk_floresta.Node.Backend.{Backend}
use bdk_floresta.Node.Types.{Node}
use bdk_floresta.Node.Poll.{poll}
use bdk_floresta.Node.Lifecycle.{
  idle, took, spawned, returned, polling, stopped, ShutdownPoint, waiting, woken, killed, announced,
  cancelling, ended, System, IsFresh, Step, take_inner, spawn, activate, poll_round, poll_end,
  cancel, take_task, sigint, inner_ends, interrupt, kill, announce, cancel_all, expire, deactivate,
  elsewhere, Reach, here, next, Reach-append, foreign_steps,
}

-- The shutdown task has set the kill signal.
abbrev pub HasKilled : ShutdownPoint → Type 0
HasKilled killed = Unit {0}
HasKilled announced = Unit {0}
HasKilled cancelling = Unit {0}
HasKilled ended = Unit {0}
HasKilled _ = ⊥

-- The shutdown task runs and has not sent its state yet.
abbrev pub IsBeforeNews : ShutdownPoint → Type 0
IsBeforeNews waiting = Unit {0}
IsBeforeNews woken = Unit {0}
IsBeforeNews killed = Unit {0}
IsBeforeNews _ = ⊥

module _ {B : Backend} where
  -- A round of polling leaves all of the node but its state and the world; it leaves a node that is
  -- inactive or shutting down in that state, and shuts none down.
  pub record PollKeeps (n m : Node B) : Type 0 where
    pub rest : m ≡ record n { state = m.state; world = m.world }
    pub stays_inactive : n.state ≡ inactive → m.state ≡ inactive
    pub stays_down : n.state ≡ shutting_down → m.state ≡ shutting_down
    pub was_down : m.state ≡ shutting_down → n.state ≡ shutting_down

  pub poll_keeps : (n : Node B) → PollKeeps n (poll n).0
  unfolding poll
  poll_keeps n = ground arith

  -- What holds of every system that a fresh one reaches.
  pub record Inv (s : System B) : Type 0 where
    pub taken_once : s.run ≢ idle → s.node.inner ≡ none
    pub early :
        (s.run ≡ idle) ⊎ (s.run ≡ took)
        → (s.node.state ≡ inactive) × (s.shutdown ≡ ShutdownPoint.unspawned)
    pub kill_iff : (s.node.kill_signal ≡ true) ↔ HasKilled s.shutdown
    pub down_killed : s.node.state ≡ shutting_down → HasKilled s.shutdown
    pub token_set :
        (s.shutdown ≡ cancelling) ⊎ (s.shutdown ≡ ended) → s.node.cancellation_token ≡ true

  Step-Inv : {s t : System B} → Step s t → Inv s → Inv t
  Step-Inv (take_inner i a b e) h = ground arith
  Step-Inv (spawn a b e) h = ground arith
  Step-Inv (activate a e) h = ground arith
  Step-Inv {s} (poll_round a e) h = ground (arith, poll_keeps s.node)
  Step-Inv (poll_end a b e) h = ground arith
  Step-Inv (cancel e) h = ground arith
  Step-Inv (take_task a e) h = ground arith
  Step-Inv (sigint e) h = ground arith
  Step-Inv (inner_ends e) h = ground arith
  Step-Inv (interrupt a b e) h = ground arith
  Step-Inv (kill a e) h = ground arith
  Step-Inv (announce a e) h = ground arith
  Step-Inv (cancel_all a e) h = ground arith
  Step-Inv (expire a b e) h = ground arith
  Step-Inv (deactivate a b e) h = ground arith
  Step-Inv (elsewhere w e) h = ground arith

  IsFresh-Inv : (s : System B) → IsFresh s → Inv s
  IsFresh-Inv s f = ground arith

  -- In every interleaving from a fresh node: once `run` has been called the inner node is gone, so
  -- that it cannot be run again; before the tasks are spawned the state is inactive; the kill
  -- signal is set exactly from the shutdown task's write on, and a node is shutting down only then;
  -- and the token is cancelled before the shutdown task ends.
  pub Reach-Inv : (s t : System B) → IsFresh s → Reach s t → Inv t
  Reach-Inv s t f here = IsFresh-Inv s f
  Reach-Inv s t f (next {t = u} r step) = Step-Inv step (Reach-Inv s u f r)

  -- After `run` has returned, the state that the shutdown task sent last is the node's state.
  record News (s : System B) : Type 0 where
    run_over : s.run ≡ returned
    spawned_task : s.shutdown ≢ ShutdownPoint.unspawned
    down : (s.shutdown ≡ announced) ⊎ (s.shutdown ≡ cancelling) → s.node.state ≡ shutting_down
    off : s.shutdown ≡ ended → s.node.state ≡ inactive

  Step-News : {s t : System B} → Step s t → News s → News t
  Step-News (take_inner i a b e) h = ground arith
  Step-News (spawn a b e) h = ground arith
  Step-News (activate a e) h = ground arith
  Step-News {s} (poll_round a e) h = ground (arith, poll_keeps s.node)
  Step-News (poll_end a b e) h = ground arith
  Step-News (cancel e) h = ground arith
  Step-News (take_task a e) h = ground arith
  Step-News (sigint e) h = ground arith
  Step-News (inner_ends e) h = ground arith
  Step-News (interrupt a b e) h = ground arith
  Step-News (kill a e) h = ground arith
  Step-News (announce a e) h = ground arith
  Step-News (cancel_all a e) h = ground arith
  Step-News (expire a b e) h = ground arith
  Step-News (deactivate a b e) h = ground arith
  Step-News (elsewhere w e) h = ground arith

  Reach-News : (s t : System B) → Reach s t → News s → News t
  Reach-News s t here h = h
  Reach-News s t (next {t = u} r step) h = Step-News step (Reach-News s u r h)

  -- If `run` has returned before the shutdown task sends its state, then in every interleaving from
  -- there the node is shutting down from that send until the task's last one, and inactive ever
  -- after.
  pub shutdown_orderly :
      (s t : System B)
      → s.run ≡ returned
      → IsBeforeNews s.shutdown
      → Reach s t
      → ((t.shutdown ≡ announced) ⊎ (t.shutdown ≡ cancelling) → t.node.state ≡ shutting_down)
        × (t.shutdown ≡ ended → t.node.state ≡ inactive)
  shutdown_orderly s t over before r =
      let h : News t = Reach-News s t r (ground arith) in (h.down, h.off)

  -- Wherever the call of `run` stands, while the node is polled, a shutdown task that waits can run
  -- on to its end once a SIGINT has come or the token is cancelled, with no other step than those
  -- of the node's tasks; then the polling is stopped, the kill signal set, the token cancelled and
  -- the node inactive.
  pub shutdown_completes :
      (s : System B)
      → s.poller ≡ polling
      → s.shutdown ≡ waiting
      → (s.signalled ≡ true) ⊎ (s.node.cancellation_token ≡ true)
      → (t : System B) × (r : Reach s t) × (foreign_steps r ≡ 0)
        × (t.run ≡ s.run)
        × (t.shutdown ≡ ended)
        × (t.poller ≡ stopped)
        × (t.node.kill_signal ≡ true)
        × (t.node.cancellation_token ≡ true)
        × (t.node.state ≡ inactive)
  unfolding foreign_steps
  shutdown_completes s p w up =
      let s₁ : System B = record s { shutdown = woken } in
      let s₂ : System B = record s₁ {
        shutdown = killed;
        node = record (s₁.node) { kill_signal = true };
      } in
      let s₃ : System B = record s₂ {
        shutdown = announced;
        node = record (s₂.node) { state = shutting_down };
      } in
      let s₄ : System B = record s₃ {
        shutdown = cancelling;
        node = record (s₃.node) { cancellation_token = true };
      } in
      let s₅ : System B = record s₄ { poller = stopped } in
      let s₆ : System B = record s₅ { inner_over = true } in
      let s₇ : System B = record s₆ {
        shutdown = ended;
        node = record (s₆.node) { state = inactive };
      } in
      let r₃ : Reach s s₃ =
        next (next (next here (interrupt w up refl)) (kill refl refl)) (announce refl refl) in
      let r₆ : Reach s s₆ =
        next (next (next r₃ (cancel_all refl refl)) (poll_end p refl refl)) (inner_ends refl) in
      let r₇ : Reach s s₇ = next r₆ (deactivate refl (inl (refl, refl)) refl) in
      (s₇, r₇, refl, refl, refl, refl, refl, refl, refl)

  -- If `run` has not returned, and the tasks that it has spawned still poll and wait, the whole
  -- shutdown can come first: then the node ends up active, with its shutdown task ended and its
  -- polling stopped.
  pub active_after_shutdown :
      (s : System B)
      → s.run ≡ spawned
      → s.poller ≡ polling
      → s.shutdown ≡ waiting
      → (t : System B) × Reach s t
        × (t.run ≡ returned)
        × (t.shutdown ≡ ended)
        × (t.poller ≡ stopped)
        × (t.node.state ≡ active)
  active_after_shutdown s r p w =
      let (t, reach, _, same_run, over, quiet, _, _, _) =
        shutdown_completes (record s { signalled = true }) p w (inl refl) in
      let u : System B = record t {
        run = returned;
        node = record (t.node) { shutdown_task = true; state = active };
      } in
      (
        u,
        next (Reach-append (next here (sigint refl)) reach) (activate (same_run ∙ r) refl),
        refl,
        over,
        quiet,
        refl,
      )
