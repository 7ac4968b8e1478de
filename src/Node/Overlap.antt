-- ===== src/Node/Overlap.antt =====
-- src/node/mod.rs: the action set under calls that overlap in time. A call starts by
-- `track_action` and finishes by `untrack_action`; other calls may come in between.
pub mod Order
use bdk_floresta.Prelude.{
  ◌≢◌, ap, sym, ℕ, suc, ◌-◌, ◌<◌, true, false, List, [], ◌∷◌, ◌++◌, ◌≡◌, refl, ◌↔◌, ite, arith,
}
use bdk_floresta.Prelude.Sets.{contains, insert, contains-insert, contains-remove}
use bdk_floresta.Node.Backend.{Backend}
use bdk_floresta.Node.Types.{Action, action_dec, Node}
use bdk_floresta.Node.Local.{track_action, untrack_action}

pub data CallEvent (B : Backend) : Type 0 where
  start : Action B → CallEvent B
  finish : Action B → CallEvent B

module _ {B : Backend} where
  abbrev pub on_call : CallEvent B → Node B → Node B
  on_call (start a) n = track_action a n
  on_call (finish a) n = untrack_action a n

  -- The node after the starts and finishes of a schedule of calls.
  unfoldable pub run_calls : List (CallEvent B) → Node B → Node B
  unfolding track_action untrack_action
  run_calls [] n = n
  run_calls (e ∷ es) n = run_calls es (on_call e n)

  abbrev count_call : Action B → CallEvent B → ℕ → ℕ
  count_call a (start b) k = ite (action_dec B a b) (suc k) k
  count_call a (finish b) k = ite (action_dec B a b) (k - 1) k

  -- How many calls with this action are in flight after the schedule, from `k` before it.
  unfoldable pub in_flight : Action B → ℕ → List (CallEvent B) → ℕ
  in_flight a k [] = k
  in_flight a k (e ∷ es) = in_flight a (count_call a e k) es

  abbrev MayRun : Action B → ℕ → CallEvent B → Type 0
  MayRun a k (start b) = a ≡ b → k ≡ 0
  MayRun a k (finish b) = Unit {0}

  -- The action is never started while a call with it is in flight.
  abbrev pub NoOverlap : Action B → ℕ → List (CallEvent B) → Type 0
  NoOverlap a k [] = Unit {0}
  NoOverlap a k (e ∷ es) = MayRun a k e × NoOverlap a (count_call a e k) es

  abbrev Agrees : Action B → ℕ → Node B → Type 0
  Agrees a k n =
      (k ≡ 0 → contains (action_dec B) a n.actions ≡ false)
      × (0 < k → (k ≡ 1) × (contains (action_dec B) a n.actions ≡ true))

  on_call-Agrees :
      (a : Action B) (k : ℕ) (e : CallEvent B) (n : Node B)
      → MayRun a k e
      → Agrees a k n
      → Agrees a (count_call a e k) (on_call e n)
  unfolding track_action untrack_action
  on_call-Agrees a k (start b) n m h = ground (arith, contains-insert (action_dec B) a b n.actions)
  on_call-Agrees a k (finish b) n m h = ground (arith, contains-remove (action_dec B) a b n.actions)

  run_calls-Agrees :
      (a : Action B) (k : ℕ) (es : List (CallEvent B)) (n : Node B)
      → NoOverlap a k es
      → Agrees a k n
      → Agrees a (in_flight a k es) (run_calls es n)
  unfolding run_calls in_flight
  run_calls-Agrees a k [] n o h = h
  run_calls-Agrees a k (e ∷ es) n o h =
      run_calls-Agrees a (count_call a e k) es (on_call e n) o.1 (on_call-Agrees a k e n o.0 h)

  -- In any interleaving of calls in which the action is never started while a call with it is in
  -- flight, the set holds the action exactly while one such call is in flight.
  pub actions_track_calls :
      (a : Action B) (es : List (CallEvent B)) (n : Node B)
      → NoOverlap a 0 es
      → contains (action_dec B) a n.actions ≡ false
      → (contains (action_dec B) a (run_calls es n).actions ≡ true) ↔ (0 < in_flight a 0 es)
  actions_track_calls a es n o h =
      let agrees : Agrees a (in_flight a 0 es) (run_calls es n) =
        run_calls-Agrees a 0 es n o (λ _. h, λ k. elim k [ ]) in
      ground arith

  run_calls-append :
      (es fs : List (CallEvent B)) (n : Node B)
      → run_calls (es ++ fs) n ≡ run_calls fs (run_calls es n)
  unfolding run_calls
  run_calls-append [] fs n = refl
  run_calls-append (e ∷ es) fs n = run_calls-append es fs (on_call e n)

  in_flight-append :
      (a : Action B) (k : ℕ) (es fs : List (CallEvent B))
      → in_flight a k (es ++ fs) ≡ in_flight a (in_flight a k es) fs
  unfolding in_flight
  in_flight-append a k [] fs = refl
  in_flight-append a k (e ∷ es) fs = in_flight-append a (count_call a e k) es fs

  -- Two calls with one action that overlap: when the first of them finishes, the action is gone
  -- from the set although the other call is still in flight.
  pub overlap_lost :
      (a : Action B) (es : List (CallEvent B)) (n : Node B)
      → let fs = es ++ start a ∷ start a ∷ finish a ∷ [] in
        (0 < in_flight a 0 fs) × (contains (action_dec B) a (run_calls fs n).actions ≡ false)
  unfolding in_flight run_calls track_action untrack_action
  overlap_lost a es n =
      let twice = start a ∷ start a ∷ finish a ∷ [] in
      let m = run_calls es n in
      let s = insert (action_dec B) a (insert (action_dec B) a m.actions) in
      (
        rw (in_flight-append a 0 es twice) (ground arith),
        rw (run_calls-append es twice n) (ground (arith, contains-remove (action_dec B) a a s)),
      )

  -- No call with the action finishes in the schedule.
  abbrev pub NoFinish : Action B → List (CallEvent B) → Type 0
  NoFinish a [] = Unit {0}
  NoFinish a (e ∷ es) = (e ≢ finish a) × NoFinish a es

  on_call-contains :
      (a : Action B) (e : CallEvent B) (n : Node B)
      → e ≢ finish a
      → contains (action_dec B) a n.actions ≡ true
      → contains (action_dec B) a (on_call e n).actions ≡ true
  unfolding track_action untrack_action
  on_call-contains a (start b) n m h = ground (arith, contains-insert (action_dec B) a b n.actions)
  on_call-contains a (finish b) n m h =
      let other : ¬ (a ≡ b) = λ e. m (ap finish (sym e)) in
      ground (arith, other, contains-remove (action_dec B) a b n.actions)

  pub run_calls-contains :
      (a : Action B) (es : List (CallEvent B)) (n : Node B)
      → NoFinish a es
      → contains (action_dec B) a n.actions ≡ true
      → contains (action_dec B) a (run_calls es n).actions ≡ true
  unfolding run_calls
  run_calls-contains a [] n o h = h
  run_calls-contains a (e ∷ es) n o h =
      run_calls-contains a es (on_call e n) o.1 (on_call-contains a e n o.0 h)
