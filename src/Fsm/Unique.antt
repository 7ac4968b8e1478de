-- ===== src/Fsm/Unique.antt =====
-- src/node/fsm.rs: there is one transition from each situation, and one way to take it.
use mathlib.Core.HLevel.{¬_prop, Σ_prop_path}
use native.Mathlib.Bridge.{le_prop}
use bdk_floresta.Prelude.{
  ℕ, ◌+◌, ◌^◌, ◌<◌, min, Bool, true, false, not, ℕ_discrete, ◌≡◌, refl, sym, ◌∙◌, arith, ltb, ◌==◌,
  if◌then◌else◌, ◌⊎◌, inl, inr,
}
use bdk_floresta.Fsm.{
  State, inactive, dns_bootstrapping, backfill, shutting_down, operational_tolerance,
  compute_next_state,
}
use bdk_floresta.Fsm.Relation.{
  IsParked, Next, stay, wait, headers, blocks, filters, synced, genesis, compute_next_state_iff,
}

Bool-set : IsSet Bool
Bool-set = hlevel

ℕ-set : IsSet ℕ
ℕ-set = hlevel ℕ_discrete

lt_prop : {m n : ℕ} → IsProp (m < n)
lt_prop = le_prop

State-set : IsSet State
State-set = hlevel ℕ_discrete

IsParked-prop : (s : State) → IsProp (IsParked s)
IsParked-prop inactive = hlevel
IsParked-prop s = hlevel

-- `IsParked` as a test.
abbrev is_parked : State → Bool
is_parked inactive = true
is_parked dns_bootstrapping = true
is_parked backfill = true
is_parked shutting_down = true
is_parked _ = false

is_parked_iff :
    (s : State) → (IsParked s × (is_parked s ≡ true)) ⊎ (¬ IsParked s × (is_parked s ≡ false))
is_parked_iff inactive = inl (tt, refl)
is_parked_iff dns_bootstrapping = inl (tt, refl)
is_parked_iff backfill = inl (tt, refl)
is_parked_iff shutting_down = inl (tt, refl)
is_parked_iff s = inr (λ h. h, refl)

module _ (wire_ready : Bool) (node chain filter : ℕ) where
  -- The number of a transition's constructor.
  abbrev rule : {s t : State} → Next wire_ready node chain filter s t → ℕ
  rule (stay p e) = 0
  rule (wait p w e) = 1
  rule (headers p w n c e) = 2
  rule (blocks p w n c e) = 3
  rule (filters p w n c l e) = 4
  rule (synced p w n c l e) = 5
  rule (genesis p w n c e) = 6

  -- The rule that the situation leaves.
  abbrev only_rule : State → ℕ
  only_rule s =
      if is_parked s
      then 0
      else if not wire_ready
      then 1
      else if node == 0
      then (if chain == 0 then 6 else 2)
      else if ltb (node + operational_tolerance) chain
      then 3
      else if ltb (min filter node) chain
      then 4
      else 5

  rule-only : (s t : State) (n : Next wire_ready node chain filter s t) → rule n ≡ only_rule s
  rule-only s t (stay p e) = ground (arith, is_parked_iff s)
  rule-only s t (wait p w e) = ground (arith, is_parked_iff s)
  rule-only s t (headers p w n c e) = ground (arith, is_parked_iff s)
  rule-only s t (blocks p w n c e) = ground (arith, is_parked_iff s)
  rule-only s t (filters p w n c l e) = ground (arith, is_parked_iff s)
  rule-only s t (synced p w n c l e) = ground (arith, is_parked_iff s)
  rule-only s t (genesis p w n c e) = ground (arith, is_parked_iff s)

  same_rule : (s t : State) (n m : Next wire_ready node chain filter s t) → rule n ≡ rule m → n ≡ m
  same_rule s t (stay p e) (stay q f) h = λ i. stay (IsParked-prop s p q i) (State-set _ _ e f i)
  same_rule s t (wait p w e) (wait q v f) h =
      λ i. wait (¬_prop p q i) (Bool-set _ _ w v i) (State-set _ _ e f i)
  same_rule s t (headers p w n c e) (headers q v m d f) h = λ i.
      headers (¬_prop p q i) (Bool-set _ _ w v i) (ℕ-set _ _ n m i) (lt_prop c d i)
        (State-set _ _ e f i)
  same_rule s t (blocks p w n c e) (blocks q v m d f) h = λ i.
      blocks (¬_prop p q i) (Bool-set _ _ w v i) (lt_prop n m i) (lt_prop c d i)
        (State-set _ _ e f i)
  same_rule s t (filters p w n c l e) (filters q v m d k f) h = λ i.
      filters (¬_prop p q i) (Bool-set _ _ w v i) (lt_prop n m i) (le_prop c d i) (lt_prop l k i)
        (State-set _ _ e f i)
  same_rule s t (synced p w n c l e) (synced q v m d k f) h = λ i.
      synced (¬_prop p q i) (Bool-set _ _ w v i) (lt_prop n m i) (le_prop c d i) (le_prop l k i)
        (State-set _ _ e f i)
  same_rule s t (genesis p w n c e) (genesis q v m d f) h = λ i.
      genesis (¬_prop p q i) (Bool-set _ _ w v i) (ℕ-set _ _ n m i) (ℕ-set _ _ c d i)
        (State-set _ _ e f i)
  same_rule s t _ _ h = cc

  Next-prop : (s t : State) → IsProp (Next wire_ready node chain filter s t)
  Next-prop s t n m = same_rule s t n m (rule-only s t n ∙ sym (rule-only s t m))

  -- While the node height is at least six below the largest `u32`, each situation has exactly one
  -- transition: the pairs of a next state and a transition to it form a type with one element, the
  -- one of the computed state.
  pub Next-unique :
      node + operational_tolerance < 2 ^ 32
      → (s : State)
      → (n : (t : State) × Next wire_ready node chain filter s t) × (n.0
          ≡ compute_next_state wire_ready s node chain filter)
        × ((m : (t : State) × Next wire_ready node chain filter s t) → m ≡ n)
  Next-unique range s =
      let t = compute_next_state wire_ready s node chain filter in
      let lawful = λ (u : State). compute_next_state_iff wire_ready node chain filter range s u in
      ((t, (lawful t).1 refl), refl, λ m. Σ_prop_path (Next-prop s) (sym ((lawful m.0).0 m.1)))
