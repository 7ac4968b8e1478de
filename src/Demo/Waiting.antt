-- ===== src/Demo/Waiting.antt =====
-- examples/client_regtest.rs: the wait for a mined block to reach the node.
use bdk_floresta.Prelude.{
  ℕ, zero, suc, ◌+◌, ◌*◌, ◌<◌, Option, none, some, Result, ok, err, leb, ◌≡◌, refl, ◌↔◌, arith,
  if◌then◌else◌,
}
use bdk_floresta.Node.{Node, NodeError}
use bdk_floresta.Node.Backend.{Backend}
use bdk_floresta.Node.Local.{get_block_hash}

-- Times in milliseconds.
abbrev pub timeout : ℕ
timeout = 10000

abbrev pub poll_interval : ℕ
poll_interval = 200

pub data Waited : Type 0 where
  reached timed_out : Waited

module _ {E A N : Type 0} where
  -- The rest of the round after a poll that leaves `n`.
  abbrev decided : Result E A → (waited : ℕ) (n : N) → Option (Waited × N) → Option (Waited × N)
  decided (ok _) waited n later = some (reached, n)
  decided (err _) waited n later = if leb timeout waited then some (timed_out, n) else later

-- A wait that ends, and times out exactly under a condition.
record Decided {N : Type 0} (o : Option (Waited × N)) (Missed : Type 0) : Type 0 where
  ends : (a : Waited) × (n : N) × (o ≡ some (a, n))
  times_out : ((n : N) × (o ≡ some (timed_out, n))) ↔ Missed

module _ {E A N : Type 0} where
  ok-Decided :
      (r : Result E A) (a : A) (n : N) (Missed : Type 0)
      → r ≡ ok a
      → Decided (some (reached, n)) (((e : E) × (r ≡ err e)) × Missed)
  ok-Decided r a n Missed h = record {
    ends = (reached, n, refl);
    times_out = (λ (m, k). cc, λ ((e, k), _). cc);
  }

  decided-now :
      (r : Result E A) (waited : ℕ) (n : N) (later : Option (Waited × N))
      → waited ≡ timeout
      → Decided (decided r waited n later) (((e : E) × (r ≡ err e)) × Unit {0})
  decided-now (ok a) waited n later h = ok-Decided (ok a) a n (Unit {0}) refl
  decided-now (err e) waited n later h =
      let now : decided {A = A} (err e) waited n later ≡ some (timed_out, n) = ground arith in
      rw now
        (record { ends = (timed_out, n, refl); times_out = (λ k. ((e, refl), tt), λ k. (n, refl)) })

  decided-later :
      (r : Result E A) (waited : ℕ) (n : N) (later : Option (Waited × N)) (Missed : Type 0)
      → waited < timeout
      → Decided later Missed
      → Decided (decided r waited n later) (((e : E) × (r ≡ err e)) × Missed)
  decided-later (ok a) waited n later Missed h d = ok-Decided (ok a) a n Missed refl
  decided-later (err e) waited n later Missed h d =
      let not_yet : decided {A = A} (err e) waited n later ≡ later = ground arith in
      rw not_yet (record {
        ends = d.ends;
        times_out = (λ k. ((e, refl), d.times_out.0 k), λ (_, k). d.times_out.1 k);
      })

-- `sleep` is what the world makes of the time between two polls.
module _ {B : Backend} (sleep : B.World → B.World) (target : ℕ) where
  abbrev pub rested : Node B → Node B
  rested n = record n { world = sleep n.world }

  -- The loop, with the node that it leaves; `none` is a loop that the fuel does not bring to its
  -- end.
  unfoldable pub wait_loop : ℕ → (waited : ℕ) → Node B → Option (Waited × Node B)
  wait_loop zero waited n = none
  wait_loop (suc fuel) waited n =
      let (r, n') = get_block_hash target n in
      let later = wait_loop fuel (waited + poll_interval) (rested n') in decided r waited n' later

  unfoldable pub wait_for_block : Node B → Option (Waited × Node B)
  unfolding wait_loop
  wait_for_block = wait_loop 51 0

  -- So many polls one after another find no block.
  abbrev pub NeverFound : ℕ → Node B → Type 0
  NeverFound zero n = Unit {0}
  NeverFound (suc polls) n =
      ((e : NodeError B) × ((get_block_hash target n).0 ≡ err e))
      × NeverFound polls (rested (get_block_hash target n).1)

  wait_loop-Decided :
      (fuel waited : ℕ) (n : Node B)
      → waited + fuel * poll_interval ≡ timeout
      → Decided (wait_loop (suc fuel) waited n) (NeverFound (suc fuel) n)
  unfolding wait_loop
  wait_loop-Decided zero waited n h =
      decided-now (get_block_hash target n).0 waited (get_block_hash target n).1 none (omega arith)
  wait_loop-Decided (suc fuel) waited n h =
      let (r, n') = get_block_hash target n in
      decided-later r waited n' _ (NeverFound (suc fuel) (rested n')) (omega arith)
        (wait_loop-Decided fuel (waited + poll_interval) (rested n') (omega arith))

  -- The wait for a block ends, after at most 51 polls. It times out exactly if all 51 polls, with a
  -- sleep after each, fail to get a block's hash at that height.
  pub wait_for_block_ends :
      (n : Node B)
      → ((a : Waited) × (m : Node B) × (wait_for_block n ≡ some (a, m)))
        × (((m : Node B) × (wait_for_block n ≡ some (timed_out, m))) ↔ NeverFound 51 n)
  unfolding wait_for_block
  wait_for_block_ends n = let d = wait_loop-Decided 50 0 n (omega arith) in (d.ends, d.times_out)
