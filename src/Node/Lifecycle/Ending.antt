-- ===== src/Node/Lifecycle/Ending.antt =====
-- src/node/mod.rs: how often `run`, the end of the polling task and the shutdown task can step.
use bdk_floresta.Prelude.{
  Bool, false, Bool-cases, ℕ, ◌+◌, ◌≤◌, true, none, some, ◌≡◌, refl, ◌≢◌, ◌⊎◌, inl, inr, arith,
}
use bdk_floresta.Node.Backend.{Backend}
use bdk_floresta.Node.Lifecycle.Orderly.{poll_keeps, Inv, Reach-Inv}
use bdk_floresta.Node.Lifecycle.{
  RunPoint, idle, took, spawned, returned, PollPoint, polling, stopped, ShutdownPoint, waiting,
  woken, killed, announced, cancelling, ended, System, IsFresh, Step, take_inner, spawn, activate,
  poll_round, poll_end, cancel, take_task, sigint, inner_ends, expire, interrupt, kill, announce,
  cancel_all, deactivate, elsewhere, Reach, here, next,
}

-- How many steps each task has made to be where it stands.
abbrev run_rank : RunPoint → ℕ
run_rank idle = 0
run_rank took = 1
run_rank spawned = 2
run_rank returned = 3

abbrev poll_rank : PollPoint → ℕ
poll_rank stopped = 1
poll_rank _ = 0

abbrev shutdown_rank : ShutdownPoint → ℕ
shutdown_rank woken = 1
shutdown_rank killed = 2
shutdown_rank announced = 3
shutdown_rank cancelling = 4
shutdown_rank ended = 5
shutdown_rank _ = 0

abbrev expiry_rank : Bool → ℕ
expiry_rank true = 1
expiry_rank false = 0

RunPoint-cases : (p : RunPoint) → (p ≡ returned) ⊎ ((p ≡ idle) ⊎ ((p ≡ took) ⊎ (p ≡ spawned)))
RunPoint-cases p = ground arith

PollPoint-cases : (p : PollPoint) → (p ≡ PollPoint.unspawned) ⊎ ((p ≡ polling) ⊎ (p ≡ stopped))
PollPoint-cases p = ground arith

ShutdownPoint-cases :
    (p : ShutdownPoint)
    → ((p ≡ ShutdownPoint.unspawned) ⊎ (p ≡ ended))
      ⊎ ((p ≡ waiting) ⊎ ((p ≡ woken) ⊎ ((p ≡ killed) ⊎ ((p ≡ announced) ⊎ (p ≡ cancelling)))))
ShutdownPoint-cases p = ground arith

ended-cases : (p : ShutdownPoint) → (p ≡ ended) ⊎ (p ≢ ended)
ended-cases p = ground arith

module _ {B : Backend} where
  abbrev rank : System B → ℕ
  rank s = run_rank s.run + poll_rank s.poller + shutdown_rank s.shutdown + expiry_rank s.timed_out

  -- 1 for a step of `run`, of the shutdown task with the timeout of its waits, or at the end of
  -- polling; 0 for a round of polling and for what others do.
  abbrev pub own : {s t : System B} → Step s t → ℕ
  own (poll_round _ _) = 0
  own (cancel _) = 0
  own (take_task _ _) = 0
  own (sigint _) = 0
  own (inner_ends _) = 0
  own (elsewhere _ _) = 0
  own _ = 1

  unfoldable pub own_steps : {s t : System B} → Reach s t → ℕ
  own_steps here = 0
  own_steps (next r step) = own_steps r + own step

  -- What the steps of `run` wait for: before the spawns neither task is there and the node is not
  -- started, the inner node is there before it is taken, and after the spawns both tasks are there.
  record Ready (s : System B) : Type 0 where
    early :
        (s.run ≡ idle) ⊎ (s.run ≡ took)
        → (s.poller ≡ PollPoint.unspawned)
          × (s.shutdown ≡ ShutdownPoint.unspawned)
          × (s.node.started_at ≡ none)
    there : s.run ≡ idle → (i : B.NodeInner) × (s.node.inner ≡ some i)
    late :
        (s.run ≡ spawned) ⊎ (s.run ≡ returned)
        → (s.poller ≢ PollPoint.unspawned) × (s.shutdown ≢ ShutdownPoint.unspawned)

  Step-rank : {s t : System B} (step : Step s t) → Ready s → Ready t × (rank t ≡ rank s + own step)
  Step-rank (take_inner i a b e) h = ground arith
  Step-rank (spawn a b e) h = ground arith
  Step-rank (activate a e) h = ground arith
  Step-rank {s} (poll_round a e) h = ground (arith, poll_keeps s.node)
  Step-rank (poll_end a b e) h = ground arith
  Step-rank (cancel e) h = ground arith
  Step-rank (take_task a e) h = ground arith
  Step-rank (sigint e) h = ground arith
  Step-rank (inner_ends e) h = ground arith
  Step-rank (interrupt a b e) h = ground arith
  Step-rank (kill a e) h = ground arith
  Step-rank (announce a e) h = ground arith
  Step-rank (cancel_all a e) h = ground arith
  Step-rank (expire a b e) h = ground arith
  Step-rank (deactivate a b e) h = ground arith
  Step-rank (elsewhere w e) h = ground arith

  Reach-rank : (s t : System B) → IsFresh s → (r : Reach s t) → Ready t × (rank t ≡ own_steps r)
  unfolding own_steps
  Reach-rank s t f here = ground arith
  Reach-rank s t f (next {t = u} r step) =
      let (early, counted) = Reach-rank s u f r in
      let (early', one) = Step-rank step early in (early', omega (arith, counted, one))

  rank-bounded : (s : System B) → rank s ≤ 10
  rank-bounded s = ground arith

  -- A step of its own that a system can make.
  abbrev CanStep : System B → Type 0
  CanStep s = (t : System B) × (step : Step s t) × (own step ≡ 1)

  run-CanStep :
      (s : System B) → Ready s → (s.run ≡ idle) ⊎ ((s.run ≡ took) ⊎ (s.run ≡ spawned)) → CanStep s
  run-CanStep s h (inl e) = let (i, there) = h.there e in (_, take_inner i e there refl, refl)
  run-CanStep s h (inr (inl e)) =
      let (_, _, fresh) = h.early (inr e) in (_, spawn e fresh refl, refl)
  run-CanStep s h (inr (inr e)) = (_, activate e refl, refl)

  -- The waits end, by the tasks or by their timeouts.
  waits-CanStep : (s : System B) → s.shutdown ≡ cancelling → CanStep s
  waits-CanStep s e = elim (Bool-cases s.timed_out) [
    | inl late ↦ (_, deactivate e (inr late) refl, refl)
    | inr early ↦ (_, expire e early refl, refl)
  ]

  shutdown-CanStep :
      (s : System B)
      → s.shutdown ≢ ShutdownPoint.unspawned
      → s.shutdown ≢ ended
      → (s.signalled ≡ true) ⊎ (s.node.cancellation_token ≡ true)
      → CanStep s
  shutdown-CanStep s a b up = elim (ShutdownPoint-cases s.shutdown) [
    | inl e ↦ ground arith
    | inr (inl e) ↦ (_, interrupt e up refl, refl)
    | inr (inr (inl e)) ↦ (_, kill e refl, refl)
    | inr (inr (inr (inl e))) ↦ (_, announce e refl, refl)
    | inr (inr (inr (inr (inl e)))) ↦ (_, cancel_all e refl, refl)
    | inr (inr (inr (inr (inr e)))) ↦ waits-CanStep s e
  ]

  -- All tasks have ended.
  abbrev pub AllOver : System B → Type 0
  AllOver s = (s.run ≡ returned) × (s.poller ≡ stopped) × (s.shutdown ≡ ended)

  some_task-CanStep :
      (s : System B)
      → Ready s
      → Inv s
      → (s.signalled ≡ true) ⊎ (s.node.cancellation_token ≡ true)
      → CanStep s ⊎ AllOver s
  some_task-CanStep s h i up = elim (RunPoint-cases s.run) [
    | inr early ↦ inl (run-CanStep s h early)
    | inl over ↦
        let (polls, shuts) = h.late (inr over) in
        elim (ended-cases s.shutdown) [
          | inr on ↦ inl (shutdown-CanStep s shuts on up)
          | inl down ↦ elim (PollPoint-cases s.poller) [
            | inl e ↦ elim (polls e) [ ]
            | inr (inl e) ↦ inl (_, poll_end e (i.token_set (inr down)) refl, refl)
            | inr (inr e) ↦ inr (over, e, down)
          ]
        ]
  ]

  -- In every interleaving from a fresh node, `run`, the shutdown task, the timeout of its waits and
  -- the end of the polling task make at most ten steps together, however many rounds of polling and
  -- steps of others come in between. Once a SIGINT has come or the token is cancelled, one of them
  -- can make its next step, unless `run` has returned and both tasks have ended.
  pub tasks_terminate :
      (s t : System B)
      → IsFresh s
      → (r : Reach s t)
      → (own_steps r ≤ 10)
        × ((t.signalled ≡ true) ⊎ (t.node.cancellation_token ≡ true)
            → ((u : System B) × (step : Step t u) × (own step ≡ 1))
              ⊎ ((t.run ≡ returned) × (t.poller ≡ stopped) × (t.shutdown ≡ ended)))
  tasks_terminate s t f r =
      let (ready, counted) = Reach-rank s t f r in
      (omega (arith, counted, rank-bounded t), some_task-CanStep t ready (Reach-Inv s t f r))
