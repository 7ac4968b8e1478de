-- ===== src/Demo/Lines.antt =====
-- examples/client_regtest.rs and examples/client_signet.rs: the tasks that log the node's states
-- and its actions.
use text.Mathlib.Text.{◌==◌}
use text.Mathlib.TextEquality.{eq_iff}
use bdk_floresta.Prelude.{
  String, ◌<>◌, List, [], ◌∷◌, map, ◌≡◌, refl, ◌≢◌, Bool-cases, inl, inr, arith, sym, subst,
  if◌then◌else◌,
}
use bdk_floresta.Fsm.{State}
use bdk_floresta.Fsm.Display.{show_state}
use bdk_floresta.Node.Backend.{Backend}
use bdk_floresta.Node.{Action}

-- The loop over the states that it is woken for, up to the end of the node, and the state that it
-- begins at.
unfoldable pub log_states : List State → List String
unfolding show_state
log_states [] = []
log_states (state ∷ rest) = ("> NODE STATE: " <> show_state state) ∷ log_states rest

-- `join(", ")`.
abbrev comma_separated : List String → String
comma_separated [] = ""
comma_separated (s ∷ []) = s
comma_separated (s ∷ t ∷ rest) = s <> ", " <> comma_separated (t ∷ rest)

-- The loop over the sets of actions that it is woken for, up to the end of the node: a line is
-- logged if it is not the last one.
unfoldable pub log_changes : (last : String) → List String → List String
log_changes last [] = []
log_changes last (line ∷ rest) =
    let new = log_changes line rest in
    let old = log_changes last rest in if line == last then old else line ∷ new

-- The actions of a set, each by `{:?}`.
abbrev pub line_of : {B : Backend} → (Action B → String) → List (Action B) → String
line_of show actions = comma_separated (map show actions)

unfoldable pub log_actions :
    {B : Backend} → (Action B → String) → List (List (Action B)) → List String
unfolding log_changes
log_actions show seen = log_changes "" (map (λ actions. line_of show actions) seen)

-- The last of some lines.
abbrev pub last_of : String → List String → String
last_of last [] = last
last_of last (line ∷ rest) = last_of line rest

-- No line is the same as the one before it.
abbrev pub Changes : String → List String → Type 0
Changes last [] = Unit {0}
Changes last (line ∷ rest) = (line ≢ last) × Changes line rest

log_changes_lem :
    (last : String) (seen : List String)
    → Changes last (log_changes last seen)
      × (last_of last (log_changes last seen) ≡ last_of last seen)
unfolding log_changes
log_changes_lem last [] = (tt, refl)
log_changes_lem last (line ∷ rest) = elim (Bool-cases (line == last)) [
  | inl same ↦ rw same (
      subst
        (λ l.
          Changes last (log_changes last rest)
          × (last_of last (log_changes last rest) ≡ last_of l rest))
        (sym ((eq_iff line last).0 same)) (log_changes_lem last rest))
  | inr other ↦
      let (changes, ends) = log_changes_lem line rest in
      rw other (((λ e. ground (arith, eq_iff line last)), changes), ends)
]

-- The lines that are logged for a node's sets of actions: each is different from the one before it,
-- and the first one is not empty. The last one logged is that of the last set, or both are empty.
pub log_actions_lem :
    {B : Backend} (show : Action B → String) (seen : List (List (Action B)))
    → Changes "" (log_actions show seen)
      × (last_of "" (log_actions show seen)
          ≡ last_of "" (map (λ actions. line_of show actions) seen))
unfolding log_actions
log_actions_lem show seen = log_changes_lem "" (map (λ actions. line_of show actions) seen)
