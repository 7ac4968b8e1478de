-- ===== src/Demo/Mining.antt =====
-- examples/client_regtest.rs: the branch of `main` that mines. Of its log calls, the lines on the
-- blocks are kept. The two processes of the crate halfin are a parameter.
pub mod Tally
pub mod Shares
pub mod Rounds
use bdk_floresta.Prelude.{
  ℕ, zero, suc, ◌%◌, String, Option, none, some, List, [], ◌∷◌, ◌++◌, Result, ok, err, ◌==◌,
  if◌then◌else◌,
}
use bdk_floresta.Fsm.{State}
use bdk_floresta.Node.{Node}
use bdk_floresta.Node.Backend.{Backend, SocketAddr}
use bdk_floresta.Node.Local.{is_operational, call, get_state}
use bdk_floresta.Client.Monad.{Outcome, done, failed, pending}
use bdk_floresta.Demo.Program.{◌>>=◌, wrapped, finally}
use bdk_floresta.Demo.Waiting.{Waited, reached, timed_out, poll_interval, wait_for_block}

pub record Halfin (B : Backend) (Address : Type 0) : Type 1 where
  -- `Network::Regtest`
  pub regtest : B.Network
  pub HalfinError : Type 0
  pub BitcoinD : Type 0
  pub UtreexoD : Type 0
  -- each with its directory
  pub new_bitcoind : String → B.World → Result HalfinError BitcoinD × B.World
  pub new_utreexod : String → B.World → Result HalfinError UtreexoD × B.World
  pub connect : BitcoinD → UtreexoD → B.World → Result HalfinError (Unit {0}) × B.World
  pub generate : BitcoinD → ℕ → B.World → Result HalfinError (Unit {0}) × B.World
  pub generate_to_address :
      BitcoinD → ℕ → Address → B.World → Result HalfinError (Unit {0}) × B.World
  pub get_chain_tip : BitcoinD → B.World → Result HalfinError ℕ × B.World
  pub get_filter_tip : BitcoinD → B.World → Result HalfinError ℕ × B.World
  pub wait_for_height : UtreexoD → ℕ → B.World → Result HalfinError (Unit {0}) × B.World
  pub wait_for_filter_height : UtreexoD → ℕ → B.World → Result HalfinError (Unit {0}) × B.World
  pub get_p2p_socket : UtreexoD → SocketAddr
  -- the variable `BLOCKS`, if it is there and is a `u32`
  pub blocks_var : B.World → Option ℕ
  -- what the world makes of so many milliseconds
  pub sleep : ℕ → B.World → B.World

-- What the loop logs.
pub data MiningLine : Type 0 where
  to_external_address to_internal_address to_no_address : MiningLine
  did_not_reach : (height : ℕ) → MiningLine

-- The node that the branch shares with the client, and the lines logged so far.
pub record Miner (B : Backend) : Type 0 where
  pub node : Node B
  pub lines : List MiningLine

abbrev pub pause_time : ℕ
pause_time = 2000

abbrev pub default_blocks : ℕ
default_blocks = 1000

abbrev pub or_default : Option ℕ → ℕ
or_default none = default_blocks
or_default (some blocks) = blocks

-- What ends the branch early: an error of a process or of the watch on the node's state, which it
-- returns, or a panic.
pub data MiningError (F : Type 0) : Type 0 where
  process : F → MiningError F
  watch_closed : MiningError F
  panicked : MiningError F

-- A part of the branch.
abbrev pub Mining : Backend → Type 0 → Type 0 → Type 0
Mining B F A = Miner B → Outcome (MiningError F) A × Miner B

module _ {B : Backend} {Address : Type 0} (H : Halfin B Address) where
  abbrev pub log_line : MiningLine → Mining B H.HalfinError (Unit {0})
  log_line line m = (done tt, record m { lines = m.lines ++ line ∷ [] })

  -- A call of another process, its error through `?`.
  abbrev outside :
      {A : Type 0} → (B.World → Result H.HalfinError A × B.World) → Mining B H.HalfinError A
  outside f m = let (r, n) = call f m.node in (wrapped process r, record m { node = n })

  -- The same with `unwrap`.
  abbrev pub unwrapped :
      {A : Type 0} → Result H.HalfinError A → Outcome (MiningError H.HalfinError) A
  unwrapped (ok a) = done a
  unwrapped (err _) = failed panicked

  abbrev pub or_panic :
      {A : Type 0} → (B.World → Result H.HalfinError A × B.World) → Mining B H.HalfinError A
  or_panic f m = let (r, n) = call f m.node in (unwrapped r, record m { node = n })

  -- The block of a round, for one address, the other, or neither.
  unfoldable pub generate_block :
      H.BitcoinD → (external internal : Address) → ℕ → Mining B H.HalfinError (Unit {0})
  generate_block bitcoind external internal i =
      if i % 5 == 0
      then (do
        _ ← log_line to_external_address
        or_panic (H.generate_to_address bitcoind 1 external))
      else if i % 3 == 0
      then (do
        _ ← log_line to_internal_address
        or_panic (H.generate_to_address bitcoind 1 internal))
      else (do _ ← log_line to_no_address; or_panic (H.generate bitcoind 1))

  -- The end of the wait for the block.
  abbrev waited_for : ℕ → Option (Waited × Node B) → Mining B H.HalfinError (Unit {0})
  waited_for target none m = (pending, m)
  waited_for target (some (reached, n)) m = (done tt, record m { node = n })
  waited_for target (some (timed_out, n)) m =
      log_line (did_not_reach target) (record m { node = n })

  unfoldable pub await_block : ℕ → Mining B H.HalfinError (Unit {0})
  unfolding wait_for_block
  await_block target m = waited_for target (wait_for_block (H.sleep poll_interval) target m.node) m

  abbrev pause : Mining B H.HalfinError (Unit {0})
  pause m =
      let n = m.node in
      (done tt, record m { node = record n { world = H.sleep pause_time n.world } })

  -- A round of the loop.
  unfoldable pub mine_block :
      H.BitcoinD
      → H.UtreexoD
      → (external internal : Address) → ℕ
      → Mining B H.HalfinError (Unit {0})
  mine_block bitcoind utreexod external internal i = do
    _ ← generate_block bitcoind external internal i
    target ← outside (H.get_chain_tip bitcoind)
    _ ← outside (H.wait_for_height utreexod target)
    _ ← await_block target
    pause

  -- The rounds from `i` on.
  unfoldable pub mine_blocks :
      H.BitcoinD
      → H.UtreexoD
      → (external internal : Address) (rounds i : ℕ) → Mining B H.HalfinError (Unit {0})
  mine_blocks bitcoind utreexod external internal zero i = finally tt
  mine_blocks bitcoind utreexod external internal (suc rounds) i = do
    _ ← mine_block bitcoind utreexod external internal i
    mine_blocks bitcoind utreexod external internal rounds (suc i)

  -- The wait for the node: the states that it sends, or that its sender is gone.
  unfoldable pub await_operational : List (Option State) → State → Mining B H.HalfinError (Unit {0})
  await_operational [] s m = (if is_operational s then done tt else pending, m)
  await_operational (wake ∷ wakes) s m =
      if is_operational s
      then (done tt, m)
      else elim wake [ none ↦ (failed watch_closed, m) | some t ↦ await_operational wakes t m ]

  -- The branch.
  unfoldable pub mine :
      H.BitcoinD
      → H.UtreexoD
      → (external internal : Address) → List (Option State)
      → Mining B H.HalfinError (Unit {0})
  unfolding get_state
  mine bitcoind utreexod external internal states m =
      (do
        _ ← await_operational states (get_state m.node).0
        λ m'.
            mine_blocks bitcoind utreexod external internal
              (or_default (H.blocks_var m'.node.world)) 0 m')
        m
