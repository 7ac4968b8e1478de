-- ===== src/Node/Lifecycle/Waits/Bounds.antt =====
-- src/node/mod.rs: how long the shutdown task waits, and when it logs nothing.
use Prim.Native.Nat.{max}
use bdk_floresta.Prelude.{
  ℕ, ◌+◌, ◌≤◌, List, [], ◌∷◌, ◌++◌, Result, ok, err, leb, ◌≡◌, refl, ◌↔◌, ap, sym, ◌∙◌, Bool-cases,
  inl, inr, arith,
}
use bdk_floresta.Node.Lifecycle.Waits.{
  shutdown_timeout, Fate, finishes, breaks, hangs, FinishedBy, WaitLine, channel_closed,
  channel_timed_out, task_failed, task_timed_out, flush_failed, Clock, waited_until,
  await_with_timeout, join_with_timeout, flushed, wait_and_flush,
}

FinishedBy-later : (fate : Fate) (s t : ℕ) → s ≤ t → FinishedBy s fate → FinishedBy t fate
FinishedBy-later (finishes at) s t h f = omega arith
FinishedBy-later (breaks at) s t h f = f
FinishedBy-later hangs s t h f = f

module _ {E : Type 0} where
  append_nil : (xs : List (WaitLine E)) → xs ++ [] ≡ xs
  append_nil [] = refl
  append_nil (x ∷ xs) = ap (λ ys. x ∷ ys) (append_nil xs)

  -- What a wait makes of the clock.
  record Wait (timeout : ℕ) (fate : Fate) (k l : Clock E) : Type 0 where
    bounded : l.time ≤ k.time + timeout
    later : k.time ≤ l.time
    silent : l.lines ≡ [] → (k.lines ≡ []) × FinishedBy l.time fate
    prompt :
        FinishedBy (k.time + timeout) fate
        → (l.lines ≡ k.lines) × ((time : ℕ) → FinishedBy time fate → k.time ≤ time → l.time ≤ time)

  -- A line more is a line.
  snoc-empty : (xs : List (WaitLine E)) (line : WaitLine E) → xs ++ line ∷ [] ≡ [] → ⊥
  snoc-empty [] line h = cc
  snoc-empty (x ∷ xs) line h = cc

  -- A wait that logs a line ends a fate that does not finish in time.
  loud-Wait :
      (timeout time : ℕ) (fate : Fate) (k : Clock E) (line : WaitLine E)
      → k.time ≤ time
      → time ≤ k.time + timeout
      → (FinishedBy (k.time + timeout) fate → ⊥)
      → Wait timeout fate k (record { time = time; lines = k.lines ++ line ∷ [] })
  loud-Wait timeout time fate k line a b never = record {
    bounded = b;
    later = a;
    silent = λ e. elim (snoc-empty k.lines line e) [ ];
    prompt = λ f. elim (never f) [ ];
  }

  finishes-Wait :
      (at timeout : ℕ) (late : WaitLine E) (k : Clock E)
      → Wait timeout (finishes at) k (waited_until at timeout [] (late ∷ []) k)
  finishes-Wait at timeout late k = elim (Bool-cases (leb at (k.time + timeout))) [
    | inl e ↦ rw e (record {
      bounded = ground arith;
      later = omega arith;
      silent = λ h. (sym (append_nil k.lines) ∙ h, omega arith);
      prompt = λ h. (append_nil k.lines, λ time a b. omega arith);
    })
    | inr e ↦ rw e (
        loud-Wait timeout (k.time + timeout) (finishes at) k late (omega arith) (omega arith)
          (λ h. ground arith))
  ]

  breaks-Wait :
      (at timeout : ℕ) (line late : WaitLine E) (k : Clock E)
      → Wait timeout (breaks at) k (waited_until at timeout (line ∷ []) (late ∷ []) k)
  breaks-Wait at timeout line late k = elim (Bool-cases (leb at (k.time + timeout))) [
    | inl e ↦
        rw e (
          loud-Wait timeout (max at k.time) (breaks at) k line (omega arith) (ground arith)
            (λ h. h))
    | inr e ↦ rw e (
        loud-Wait timeout (k.time + timeout) (breaks at) k late (omega arith) (omega arith)
          (λ h. h))
  ]

  await_with_timeout-Wait :
      (fate : Fate) (timeout : ℕ) (k : Clock E)
      → Wait timeout fate k (await_with_timeout fate timeout k)
  unfolding await_with_timeout
  await_with_timeout-Wait (finishes at) timeout k = finishes-Wait at timeout channel_timed_out k
  await_with_timeout-Wait (breaks at) timeout k =
      breaks-Wait at timeout channel_closed channel_timed_out k
  await_with_timeout-Wait hangs timeout k =
      loud-Wait timeout (k.time + timeout) hangs k channel_timed_out (omega arith) (omega arith)
        (λ h. h)

  join_with_timeout-Wait :
      (fate : Fate) (timeout : ℕ) (k : Clock E)
      → Wait timeout fate k (join_with_timeout fate timeout k)
  unfolding join_with_timeout
  join_with_timeout-Wait (finishes at) timeout k = finishes-Wait at timeout task_timed_out k
  join_with_timeout-Wait (breaks at) timeout k = breaks-Wait at timeout task_failed task_timed_out k
  join_with_timeout-Wait hangs timeout k =
      loud-Wait timeout (k.time + timeout) hangs k task_timed_out (omega arith) (omega arith)
        (λ h. h)

  flushed-time : (r : Result E (Unit {0})) (k : Clock E) → (flushed r k).time ≡ k.time
  flushed-time (ok tt) k = refl
  flushed-time (err e) k = refl

  flushed-lines :
      (r : Result E (Unit {0})) (k : Clock E)
      → ((flushed r k).lines ≡ []) ↔ ((r ≡ ok tt) × (k.lines ≡ []))
  flushed-lines (ok tt) k = (λ h. (refl, h), λ (_, h). h)
  flushed-lines (err e) k = (λ h. elim (snoc-empty k.lines (flush_failed e) h) [ ], λ (h, _). cc)

  -- Whatever becomes of the tasks that it waits for, the shutdown task comes to its flush, and
  -- waits for them at most 30 seconds. If it logs no warning and no error, then all of them have
  -- finished by then and the flush succeeds. If all of them finish by some time within the first
  -- ten seconds, then it waits no longer than that, and what it logs can only be an error of the
  -- flush.
  pub waits_bounded :
      (node_stopped node_task state_update : Fate) (flush : Result E (Unit {0}))
      → let k = wait_and_flush node_stopped node_task state_update flush in
        (k.time ≤ 30000)
        × (k.lines ≡ []
            → (flush ≡ ok tt)
              × FinishedBy k.time node_stopped
              × FinishedBy k.time node_task
              × FinishedBy k.time state_update)
        × ((time : ℕ)
            → time ≤ 10000
            → FinishedBy time node_stopped
            → FinishedBy time node_task
            → FinishedBy time state_update
            → (k.time ≤ time) × ((k.lines ≡ []) ↔ (flush ≡ ok tt)))
  unfolding wait_and_flush
  waits_bounded a b c flush =
      let k₀ : Clock E = record { time = 0; lines = [] } in
      let k₁ = await_with_timeout a shutdown_timeout k₀ in
      let k₂ = join_with_timeout b shutdown_timeout k₁ in
      let k₃ = join_with_timeout c shutdown_timeout k₂ in
      let w₁ = await_with_timeout-Wait a shutdown_timeout k₀ in
      let w₂ = join_with_timeout-Wait b shutdown_timeout k₁ in
      let w₃ = join_with_timeout-Wait c shutdown_timeout k₂ in
      let same = flushed-time flush k₃ in
      let (to, from) = flushed-lines flush k₃ in
      (
        omega (arith, same, w₁.bounded, w₂.bounded, w₃.bounded),
        λ h.
            let (good, h₃) = to h in
            let (h₂, f₃) = w₃.silent h₃ in
            let (h₁, f₂) = w₂.silent h₂ in
            let (_, f₁) = w₁.silent h₁ in
            (
              good,
              FinishedBy-later a k₁.time (flushed flush k₃).time
                  (omega (arith, same, w₂.later, w₃.later)) f₁,
              FinishedBy-later b k₂.time (flushed flush k₃).time (omega (arith, same, w₃.later)) f₂,
              FinishedBy-later c k₃.time (flushed flush k₃).time (omega (arith, same)) f₃,
            ),
        λ time early fa fb fc.
            let (l₁, p₁) = w₁.prompt (FinishedBy-later a time _ (omega arith) fa) in
            let (l₂, p₂) = w₂.prompt (FinishedBy-later b time _ (omega arith) fb) in
            let (l₃, p₃) = w₃.prompt (FinishedBy-later c time _ (omega arith) fc) in
            let t₁ = p₁ time fa (omega arith) in
            let t₂ = p₂ time fb t₁ in
            let t₃ = p₃ time fc t₂ in
            (omega (arith, same, t₃), (λ h. (to h).0, λ good. from (good, l₃ ∙ l₂ ∙ l₁))),
      )
