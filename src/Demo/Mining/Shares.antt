-- ===== src/Demo/Mining/Shares.antt =====
-- examples/client_regtest.rs: how many of the mined blocks go where.
use bdk_floresta.Prelude.{
  ℕ, zero, suc, ◌+◌, ◌≤◌, ◌/◌, ◌%◌, Bool, false, Option, none, some, [], ◌∷◌, ◌++◌, ◌==◌, ◌≡◌, refl,
  ap, subst, Bool-cases, inl, inr, if◌then◌else◌, arith,
}
use bdk_floresta.Node.{Node}
use bdk_floresta.Node.Backend.{Backend}
use bdk_floresta.Client.Monad.{Outcome, done, failed, pending}
use bdk_floresta.Demo.Program.{after}
use bdk_floresta.Demo.Waiting.{Waited, reached, timed_out}
use bdk_floresta.Demo.Mining.{
  Halfin, MiningLine, to_external_address, to_internal_address, to_no_address, did_not_reach, Miner,
  generate_block, waited_for, await_block, mine_block, mine_blocks,
}
use bdk_floresta.Demo.Mining.Tally.{
  count, count-append, is_external, is_internal, is_plain, line_of_round, lines_of_rounds,
  external_share, internal_share, all_shares,
}

-- A part of the branch that logs at most `n` more of these lines, and exactly `n` if it comes to
-- its end.
record Grows {E A : Type 0} {B : Backend} (k : MiningLine → Bool) (n : ℕ) (m : Miner B)
    (r : Outcome E A × Miner B) : Type 0 where
  at_most : count k r.1.lines ≤ count k m.lines + n
  exact : (a : A) → r.0 ≡ done a → count k r.1.lines ≡ count k m.lines + n

module _ {E A C : Type 0} {B : Backend} (k : MiningLine → Bool) where
  after-Grows :
      (n l : ℕ) (m : Miner B) (r : Outcome E A × Miner B) (f : A → Miner B → Outcome E C × Miner B)
      → Grows k n m r
      → ((a : A) (s : Miner B) → Grows k l s (f a s))
      → Grows k (n + l) m (after r f)
  unfolding after
  after-Grows n l m (done a, s) f g h =
      let here = g.exact a refl in
      record {
        at_most = omega (arith, here, (h a s).at_most);
        exact = λ c e. omega (arith, here, (h a s).exact c e);
      }
  after-Grows n l m (failed e, s) f g h = record {
    at_most = omega (arith, g.at_most);
    exact = λ c e. cc;
  }
  after-Grows n l m (pending, s) f g h = record {
    at_most = omega (arith, g.at_most);
    exact = λ c e. cc;
  }

module _ {E A : Type 0} {B : Backend} (k : MiningLine → Bool) where
  -- A part that logs nothing.
  same-Grows : (m : Miner B) (r : Outcome E A × Miner B) → r.1.lines ≡ m.lines → Grows k 0 m r
  same-Grows m r e = record {
    at_most = omega (arith, ap (count k) e);
    exact = λ a d. omega (arith, ap (count k) e);
  }

module _ {B : Backend} {Address : Type 0} (H : Halfin B Address) (k : MiningLine → Bool)
    (kept : (height : ℕ) → k (did_not_reach height) ≡ false) where
  waited_for-Grows :
      (target : ℕ) (o : Option (Waited × Node B)) (m : Miner B)
      → Grows k 0 m (waited_for H target o m)
  waited_for-Grows target none m = same-Grows k m _ refl
  waited_for-Grows target (some (reached, n)) m = same-Grows k m _ refl
  waited_for-Grows target (some (timed_out, n)) m =
      let same : count k (m.lines ++ did_not_reach target ∷ []) ≡ count k m.lines =
        ground (arith, kept target, count-append k m.lines (did_not_reach target ∷ [])) in
      record { at_most = omega (arith, same); exact = λ a d. omega (arith, same) }

  logged-Grows :
      {E A : Type 0} (line : MiningLine) (m : Miner B)
      (f : Unit {0} → Miner B → Outcome E A × Miner B)
      → ((s : Miner B) → (f tt s).1.lines ≡ s.lines)
      → Grows k
          (if k line then 1 else 0)
          m
          (after (done tt, record m { lines = m.lines ++ line ∷ [] }) f)
  unfolding after
  logged-Grows line m f h =
      let s : Miner B = record m { lines = m.lines ++ line ∷ [] } in
      let one : count k (f tt s).1.lines ≡ count k m.lines + (if k line then 1 else 0) =
        omega (arith, ap (count k) (h s), count-append k m.lines (line ∷ [])) in
      record { at_most = omega (arith, one); exact = λ a d. one }

  generate_block-Grows :
      (bitcoind : H.BitcoinD) (external internal : Address) (i : ℕ) (m : Miner B)
      → Grows k
          (if k (line_of_round i) then 1 else 0)
          m
          (generate_block H bitcoind external internal i m)
  unfolding generate_block
  generate_block-Grows bitcoind external internal i m = elim (Bool-cases (i % 5 == 0)) [
    | inl e ↦ rw e (logged-Grows to_external_address m _ (λ s. refl))
    | inr e ↦ elim (Bool-cases (i % 3 == 0)) [
      | inl d ↦ rw (e, d) (logged-Grows to_internal_address m _ (λ s. refl))
      | inr d ↦ rw (e, d) (logged-Grows to_no_address m _ (λ s. refl))
    ]
  ]

  mine_block-Grows :
      (bitcoind : H.BitcoinD) (utreexod : H.UtreexoD) (external internal : Address) (i : ℕ)
      (m : Miner B)
      → Grows k
          ((if k (line_of_round i) then 1 else 0) + 0)
          m
          (mine_block H bitcoind utreexod external internal i m)
  unfolding mine_block await_block
  mine_block-Grows bitcoind utreexod external internal i m =
      after-Grows k _ 0 m _ _ (generate_block-Grows bitcoind external internal i m) λ _ s.
        after-Grows k 0 0 s _ _ (same-Grows k s _ refl) λ target t.
          after-Grows k 0 0 t _ _ (same-Grows k t _ refl) λ _ u.
            after-Grows k 0 0 u _ _ (waited_for-Grows target _ u) λ _ v. same-Grows k v _ refl

  mine_blocks-Grows :
      (bitcoind : H.BitcoinD) (utreexod : H.UtreexoD) (external internal : Address) (rounds i : ℕ)
      (m : Miner B)
      → Grows k
          (count k (lines_of_rounds rounds i))
          m
          (mine_blocks H bitcoind utreexod external internal rounds i m)
  unfolding mine_blocks
  mine_blocks-Grows bitcoind utreexod external internal zero i m = same-Grows k m _ refl
  mine_blocks-Grows bitcoind utreexod external internal (suc rounds) i m =
      let n = if k (line_of_round i) then 1 else 0 in
      let no_more : n + 0 ≡ n = omega arith in
      after-Grows k n (count k (lines_of_rounds rounds (suc i))) m _ _
        (subst (λ l. Grows k l m (mine_block H bitcoind utreexod external internal i m)) no_more
          (mine_block-Grows bitcoind utreexod external internal i m))
        λ _. mine_blocks-Grows bitcoind utreexod external internal rounds (suc i)

module _ {B : Backend} {Address : Type 0} (H : Halfin B Address) where
  -- From a log without lines, a loop over so many blocks that comes to its end has announced a
  -- fifth of them, rounded up, for the external address; of every third block, rounded up, those
  -- that are not among every fifteenth for the internal address; and the rest for neither. A loop
  -- that ends early, by an error or a panic, or that still waits, has announced no more than these
  -- for either address.
  pub mine_shares :
      (bitcoind : H.BitcoinD) (utreexod : H.UtreexoD) (external internal : Address) (blocks : ℕ)
      (m : Miner B)
      → m.lines ≡ []
      → let r = mine_blocks H bitcoind utreexod external internal blocks 0 m in
        (count is_external r.1.lines ≤ (blocks + 4) / 5)
        × (count is_internal r.1.lines + (blocks + 14) / 15 ≤ (blocks + 2) / 3)
        × (r.0 ≡ done tt
            → (count is_external r.1.lines ≡ (blocks + 4) / 5)
              × (count is_internal r.1.lines + (blocks + 14) / 15 ≡ (blocks + 2) / 3)
              × (count is_external r.1.lines
                    + count is_internal r.1.lines
                    + count is_plain r.1.lines
                  ≡ blocks))
  mine_shares bitcoind utreexod external internal blocks m none_yet =
      let grows : (k : MiningLine → Bool)
          → ((h : ℕ) → k (did_not_reach h) ≡ false)
          → Grows k (count k (lines_of_rounds blocks 0)) m
              (mine_blocks H bitcoind utreexod external internal blocks 0 m) =
        λ k kept. mine_blocks-Grows H k kept bitcoind utreexod external internal blocks 0 m in
      let e = grows is_external (λ h. refl) in
      let i = grows is_internal (λ h. refl) in
      let p = grows is_plain (λ h. refl) in
      let zero_of : (k : MiningLine → Bool) → count k m.lines ≡ 0 = λ k. ap (count k) none_yet in
      (
        omega (arith, e.at_most, zero_of is_external, external_share blocks 0),
        omega (arith, i.at_most, zero_of is_internal, internal_share blocks 0),
        λ d. (
          omega (arith, e.exact tt d, zero_of is_external, external_share blocks 0),
          omega (arith, i.exact tt d, zero_of is_internal, internal_share blocks 0),
          omega (
            arith,
            e.exact tt d,
            i.exact tt d,
            p.exact tt d,
            zero_of is_external,
            zero_of is_internal,
            zero_of is_plain,
            all_shares blocks 0,
          ),
        ),
      )
