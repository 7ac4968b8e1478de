-- ===== src/Node/Overlap/Order.antt =====
-- src/node/mod.rs: the action set with its order forgotten, under schedules of calls.
use mathlib.Core.Quot
use mathlib.Core.Quot.{Quot, Quot-set}
use mathlib.Core.Bool.{Bool-set}
use bdk_floresta.Prelude.{
  Bool, true, false, ◌↔◌, List, [], ◌∷◌, ◌≡◌, refl, ap, ◌∙◌, sym, ◌≢◌, ite, arith,
}
use bdk_floresta.Prelude.Sets.{contains, insert, remove, contains-insert, contains-remove}
use bdk_floresta.Node.Backend.{Backend}
use bdk_floresta.Node.Types.{Action, action_dec, Node}
use bdk_floresta.Node.Local.{track_action, untrack_action}
use bdk_floresta.Node.Overlap.{CallEvent, start, finish, run_calls}

module _ {B : Backend} where
  -- Two lists stand for one set.
  abbrev pub SameActions : List (Action B) → List (Action B) → Type 0
  SameActions xs ys = (a : Action B) → contains (action_dec B) a xs ≡ contains (action_dec B) a ys

  abbrev pub action_of : CallEvent B → Action B
  action_of (start a) = a
  action_of (finish a) = a

  abbrev on_list : CallEvent B → List (Action B) → List (Action B)
  on_list (start a) xs = insert (action_dec B) a xs
  on_list (finish a) xs = remove (action_dec B) a xs

  on_list-SameActions :
      (e : CallEvent B) (xs ys : List (Action B))
      → SameActions xs ys
      → SameActions (on_list e xs) (on_list e ys)
  on_list-SameActions (start a) xs ys h b =
      ground
        (arith, h b, contains-insert (action_dec B) b a xs, contains-insert (action_dec B) b a ys)
  on_list-SameActions (finish a) xs ys h b =
      ground
        (arith, h b, contains-remove (action_dec B) b a xs, contains-remove (action_dec B) b a ys)

-- The set of actions, without an order.
abbrev pub ActionSet : Backend → Type 0
ActionSet B = Quot (SameActions {B = B})

module _ {B : Backend} where
  abbrev pub actions_of : Node B → ActionSet B
  actions_of n = Quot.mk n.actions

  on_set : CallEvent B → ActionSet B → ActionSet B
  on_set e =
      Quot.lift Quot-set (λ xs. Quot.mk (on_list e xs))
        (λ xs ys h. Quot.sound (on_list-SameActions e xs ys h))

  -- What an event makes of whether an action is there.
  abbrev effect : CallEvent B → Action B → Bool → Bool
  effect (start b) a there = ite (action_dec B a b) true there
  effect (finish b) a there = ite (action_dec B a b) false there

  contains-on_list :
      (e : CallEvent B) (a : Action B) (xs : List (Action B))
      → contains (action_dec B) a (on_list e xs) ≡ effect e a (contains (action_dec B) a xs)
  contains-on_list (start b) a xs = contains-insert (action_dec B) a b xs
  contains-on_list (finish b) a xs = contains-remove (action_dec B) a b xs

  effect_swap :
      (e f : CallEvent B) (a : Action B) (there : Bool)
      → action_of e ≢ action_of f
      → effect f a (effect e a there) ≡ effect e a (effect f a there)
  effect_swap (start b) (start c) a there h = ground arith
  effect_swap (start b) (finish c) a there h = ground arith
  effect_swap (finish b) (start c) a there h = ground arith
  effect_swap (finish b) (finish c) a there h = ground arith

  on_list_swap :
      (e f : CallEvent B) (xs : List (Action B))
      → action_of e ≢ action_of f
      → SameActions (on_list f (on_list e xs)) (on_list e (on_list f xs))
  on_list_swap e f xs h a =
      rw
        (
          contains-on_list f a (on_list e xs),
          contains-on_list e a (on_list f xs),
          contains-on_list e a xs,
          contains-on_list f a xs,
        )
        (effect_swap e f a (contains (action_dec B) a xs) h)

  on_set_swap :
      (e f : CallEvent B) (s : ActionSet B)
      → action_of e ≢ action_of f
      → on_set f (on_set e s) ≡ on_set e (on_set f s)
  unfolding on_set
  on_set_swap e f s h =
      Quot.ind (λ r. Quot-set (on_set f (on_set e r)) (on_set e (on_set f r)))
        (λ xs. Quot.sound (on_list_swap e f xs h)) s

  -- The same schedule up to the order of events of different actions.
  pub data Reordered : List (CallEvent B) → List (CallEvent B) → Type 0 where
    same : (es : List (CallEvent B)) → Reordered es es
    swap :
        (e f : CallEvent B) (es : List (CallEvent B))
        → action_of e ≢ action_of f
        → Reordered (e ∷ f ∷ es) (f ∷ e ∷ es)
    later :
        (e : CallEvent B) {es fs : List (CallEvent B)}
        → Reordered es fs
        → Reordered (e ∷ es) (e ∷ fs)
    both : {es fs gs : List (CallEvent B)} → Reordered es fs → Reordered fs gs → Reordered es gs

  run_set : List (CallEvent B) → ActionSet B → ActionSet B
  run_set [] s = s
  run_set (e ∷ es) s = run_set es (on_set e s)

  run_calls-run_set :
      (es : List (CallEvent B)) (n : Node B)
      → actions_of (run_calls es n) ≡ run_set es (actions_of n)
  unfolding run_calls run_set on_set track_action untrack_action
  run_calls-run_set [] n = refl
  run_calls-run_set (start a ∷ es) n = run_calls-run_set es (track_action a n)
  run_calls-run_set (finish a ∷ es) n = run_calls-run_set es (untrack_action a n)

  run_set-Reordered :
      {es fs : List (CallEvent B)}
      → Reordered es fs
      → (s : ActionSet B) → run_set es s ≡ run_set fs s
  unfolding run_set
  run_set-Reordered (same es) s = refl
  run_set-Reordered (swap e f es h) s = ap (run_set es) (on_set_swap e f s h)
  run_set-Reordered (later e r) s = run_set-Reordered r (on_set e s)
  run_set-Reordered (both r q) s = run_set-Reordered r s ∙ run_set-Reordered q s

  -- As a set, without an order, the node's actions after a schedule of calls do not depend on the
  -- order of events of different actions: two schedules that differ by exchanges of neighbouring
  -- events of different actions leave the same set.
  pub run_calls-Reordered :
      (es fs : List (CallEvent B)) (n : Node B)
      → Reordered es fs
      → actions_of (run_calls es n) ≡ actions_of (run_calls fs n)
  run_calls-Reordered es fs n r =
      run_calls-run_set es n ∙ run_set-Reordered r (actions_of n) ∙ sym (run_calls-run_set fs n)

module _ {B : Backend} where
  -- Is an action in the set?
  pub in_set : Action B → ActionSet B → Bool
  in_set a = Quot.lift Bool-set (λ xs. contains (action_dec B) a xs) (λ xs ys h. h a)

  -- Two nodes have the same action set exactly if each action is in flight on both or on neither,
  -- so that the set with its order forgotten forgets nothing else.
  pub actions_of_iff :
      (n m : Node B)
      → (actions_of n ≡ actions_of m) ↔ (
          (a : Action B)
          → contains (action_dec B) a n.actions ≡ contains (action_dec B) a m.actions)
  unfolding in_set
  actions_of_iff n m = (λ e a. ap (in_set a) e, λ h. Quot.sound h)
