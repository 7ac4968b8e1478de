-- ===== src/Demo/Mining/Rounds.antt =====
-- examples/client_regtest.rs: the loop over the blocks comes to its end.
use bdk_floresta.Prelude.{
  ℕ, zero, suc, ◌%◌, some, Result, ok, err, ◌==◌, ◌≢◌, sym, subst, Bool-cases, inl, inr,
}
use bdk_floresta.Node.{Node}
use bdk_floresta.Node.Backend.{Backend}
use bdk_floresta.Client.Monad.{Outcome, done, failed, pending}
use bdk_floresta.Client.Scan.Settled.{Settled}
use bdk_floresta.Demo.Program.{after, wrapped}
use bdk_floresta.Demo.Waiting.{Waited, reached, timed_out, poll_interval, wait_for_block_ends}
use bdk_floresta.Demo.Mining.{
  Halfin, Miner, MiningLine, to_external_address, to_internal_address, to_no_address, log_line,
  or_panic, process, unwrapped, generate_block, waited_for, await_block, mine_block, mine_blocks,
}

module _ {S E A C : Type 0} where
  pub after-Settled :
      (r : Outcome E A × S) (f : A → S → Outcome E C × S)
      → Settled r.0
      → ((a : A) (s : S) → Settled (f a s).0)
      → Settled (after r f).0
  unfolding after
  after-Settled (done a, s) f h k = k a s
  after-Settled (failed e, s) f h k = tt
  after-Settled (pending, s) f h k = elim h [ ]

wrapped-Settled : {E F A : Type 0} (f : F → E) (r : Result F A) → Settled (wrapped f r)
wrapped-Settled f (ok a) = tt
wrapped-Settled f (err e) = tt

module _ {B : Backend} {Address : Type 0} (H : Halfin B Address) where
  unwrapped-Settled : {A : Type 0} (r : Result H.HalfinError A) → Settled (unwrapped H r)
  unwrapped-Settled (ok a) = tt
  unwrapped-Settled (err e) = tt

  logged-Settled :
      (line : MiningLine) (f : B.World → Result H.HalfinError (Unit {0}) × B.World) (m : Miner B)
      → Settled (after (log_line H line m) (λ _. or_panic H f)).0
  logged-Settled line f m = after-Settled _ _ tt λ _ s. unwrapped-Settled (f s.node.world).0

  waited_for-Settled :
      (target : ℕ) (a : Waited) (n : Node B) (m : Miner B)
      → Settled (waited_for H target (some (a, n)) m).0
  waited_for-Settled target reached n m = tt
  waited_for-Settled target timed_out n m = tt

  await_block-Settled : (target : ℕ) (m : Miner B) → Settled (await_block H target m).0
  unfolding await_block
  await_block-Settled target m =
      let ((a, n, ends), _) = wait_for_block_ends (H.sleep poll_interval) target m.node in
      subst (λ o. Settled (waited_for H target o m).0) (sym ends) (waited_for-Settled target a n m)

  generate_block-Settled :
      (bitcoind : H.BitcoinD) (external internal : Address) (i : ℕ) (m : Miner B)
      → Settled (generate_block H bitcoind external internal i m).0
  unfolding generate_block
  generate_block-Settled bitcoind external internal i m = elim (Bool-cases (i % 5 == 0)) [
    | inl e ↦
        rw e (logged-Settled to_external_address (H.generate_to_address bitcoind 1 external) m)
    | inr e ↦ elim (Bool-cases (i % 3 == 0)) [
      | inl d ↦
          rw (e, d)
            (logged-Settled to_internal_address (H.generate_to_address bitcoind 1 internal) m)
      | inr d ↦ rw (e, d) (logged-Settled to_no_address (H.generate bitcoind 1) m)
    ]
  ]

  mine_block-Settled :
      (bitcoind : H.BitcoinD) (utreexod : H.UtreexoD) (external internal : Address) (i : ℕ)
      (m : Miner B)
      → Settled (mine_block H bitcoind utreexod external internal i m).0
  unfolding mine_block
  mine_block-Settled bitcoind utreexod external internal i m =
      after-Settled _ _ (generate_block-Settled bitcoind external internal i m) λ _ s.
        after-Settled _ _ (wrapped-Settled process _) λ target t.
          after-Settled _ _ (wrapped-Settled process _)
            λ _ u. after-Settled _ _ (await_block-Settled target u) λ _ v. tt

  pub mine_blocks-Settled :
      (bitcoind : H.BitcoinD) (utreexod : H.UtreexoD) (external internal : Address) (rounds i : ℕ)
      (m : Miner B)
      → Settled (mine_blocks H bitcoind utreexod external internal rounds i m).0
  unfolding mine_blocks
  mine_blocks-Settled bitcoind utreexod external internal zero i m = tt
  mine_blocks-Settled bitcoind utreexod external internal (suc rounds) i m =
      after-Settled _ _ (mine_block-Settled bitcoind utreexod external internal i m)
        λ _. mine_blocks-Settled bitcoind utreexod external internal rounds (suc i)

  -- However long the node takes for a block, the loop over the blocks does not wait for ever, if
  -- the other processes answer: it comes to its end, or it ends early, by an error or a panic.
  pub mine_ends :
      (bitcoind : H.BitcoinD) (utreexod : H.UtreexoD) (external internal : Address) (rounds i : ℕ)
      (m : Miner B)
      → (mine_blocks H bitcoind utreexod external internal rounds i m).0 ≢ pending
  mine_ends bitcoind utreexod external internal rounds i m waits =
      subst Settled waits (mine_blocks-Settled bitcoind utreexod external internal rounds i m)
