-- ===== src/Client/Run.antt =====
-- src/client/mod.rs: `wait_until_ready`, `scan` and `scan_continuous`. What a task waits for comes
-- as a list of wake-ups; where the list ends before the task does, the task still waits.
pub mod Ready
pub mod Kept
pub mod InStep
pub mod Watch
pub mod Report
pub mod Served
pub mod Following
pub mod Replaced
pub mod Heights
pub mod Channel
pub mod Lookahead
pub mod Gap
pub mod Polled
pub mod Ending
use bdk_floresta.Prelude.{
  ℕ, Bool, true, false, Option, none, some, List, [], ◌∷◌, leb, if◌then◌else◌,
}
use bdk_floresta.Fsm.{State, inactive, operational, shutting_down}
use bdk_floresta.Node.Backend.{Backend}
use bdk_floresta.Node.Local.{get_state}
use bdk_floresta.Client.Types.{
  Forwarding, Client, ClientError, scan_aborted, unresponsive_node, poisoned_lock, ScanKind,
  finished, error, show_client_error,
}
use bdk_floresta.Client.Wallet.{WalletLib}
use bdk_floresta.Client.Monad.{
  Scan, Outcome, done, failed, pending, continue, pure, fail, ◌>>=◌, ◌>>◌,
}
use bdk_floresta.Client.Update.{abort_if_cancelled, send_event, publish, apply_block}
use bdk_floresta.Client.Forward.{on_block, enable, drop_guard}
use bdk_floresta.Client.Scan.{scan_inner}

-- What ends a wait for the node's state: the branch of the `select!` that is taken.
pub data StateWake : Type 0 where
  changed : State → StateWake
  sender_dropped : StateWake
  cancelled : StateWake

-- The `match` on an observed state; `none` is the arm that goes on waiting.
abbrev pub verdict : {B : Backend} → State → Option (Outcome (ClientError B) (Unit {0}))
verdict operational = some (done tt)
verdict shutting_down = some (failed unresponsive_node)
verdict inactive = some (failed unresponsive_node)
verdict _ = none

module _ {B : Backend} {W : WalletLib B} where
  abbrev pub observe : State → Client W → Client W
  observe s c = record c { node = record (c.node) { state = s } }

  -- Nothing wakes a `select!` any more, unless its token is cancelled.
  abbrev pub still_waiting : Scan W (Unit {0})
  still_waiting c = (pending, c)

  unfoldable pub await_change : List StateWake → Scan W (Unit {0})
  await_change [] c = (do abort_if_cancelled; still_waiting) c
  await_change (cancelled ∷ wakes) c = (failed scan_aborted, record c { cancellation_token = true })
  await_change (sender_dropped ∷ wakes) c = (failed unresponsive_node, c)
  await_change (changed s ∷ wakes) c = elim (verdict s) [
    | none ↦ await_change wakes (observe s c)
    | some r ↦ (r, observe s c)
  ]

  unfoldable pub await_ready : List StateWake → State → Scan W (Unit {0})
  await_ready wakes s c = elim (verdict s) [ none ↦ await_change wakes c | some r ↦ (r, c) ]

  unfoldable pub wait_until_ready : List StateWake → Scan W (Unit {0})
  unfolding await_ready await_change get_state
  wait_until_ready wakes c =
      let (s, n) = get_state c.node in await_ready wakes s (record c { node = n })

  -- The final event of a scan goes out before its result is returned.
  unfoldable pub report :
      Bool
      → Outcome (ClientError B) (Unit {0}) × Client W
      → Outcome (ClientError B) (Unit {0}) × Client W
  report keep_going (pending, c) = (pending, c)
  report keep_going (done tt, c) = (do send_event (finished keep_going); pure tt) c
  report keep_going (failed e, c) = (do send_event (error (show_client_error e)); fail e) c

  unfoldable pub scan : List StateWake → ScanKind → Scan W (Unit {0})
  scan wakes kind = do wait_until_ready wakes; λ c. report false (scan_inner kind c)

-- What ends a wait for a block: the branch of the `select!` that is taken.
pub data BlockWake (B : Backend) : Type 0 where
  received : B.Block → ℕ → BlockWake B
  channel_closed : BlockWake B
  cancelled : BlockWake B

module _ {B : Backend} where
  -- What the loop finds, when these are the blocks that the chain validates from the registration
  -- of the sink on: with each of them the sink is called, and then the first block of the channel
  -- is taken, if there is one.
  unfoldable pub forwarded : Forwarding B → List (BlockWake B) → List (BlockWake B)
  forwarded f [] = []
  forwarded f (received block height ∷ wakes) = elim (on_block block height f).queue [
    | [] ↦ forwarded f wakes
    | (b, h) ∷ rest ↦ received b h ∷ forwarded (record f { queue = rest }) wakes
  ]
  forwarded f (channel_closed ∷ wakes) = channel_closed ∷ forwarded f wakes
  forwarded f (BlockWake.cancelled ∷ wakes) = BlockWake.cancelled ∷ forwarded f wakes

module _ {B : Backend} {W : WalletLib B} where
  -- A block of the loop, once it has passed the `select!`.
  unfoldable pub receive_block : B.Block → ℕ → Scan W (Unit {0})
  receive_block block height c =
      if leb height (W.height c.checkpoint)
      then (done tt, c)
      else (do apply_block block height; publish height (B.block_hash block)) c

  -- The loop of `scan_continuous`. The `select!` is biased: a cancelled token comes first.
  unfoldable pub watch_blocks : List (BlockWake B) → Scan W (Unit {0})
  watch_blocks [] c = (do abort_if_cancelled; still_waiting) c
  watch_blocks (BlockWake.cancelled ∷ wakes) c =
      (failed scan_aborted, record c { cancellation_token = true })
  watch_blocks (channel_closed ∷ wakes) c = (do abort_if_cancelled; fail unresponsive_node) c
  watch_blocks (received block height ∷ wakes) c =
      (do abort_if_cancelled; receive_block block height; watch_blocks wakes) c

  -- `enable_block_forwarding`.
  unfoldable pub enable_block_forwarding : Scan W (Unit {0})
  enable_block_forwarding c = elim (enable c.forwarding) [
    | none ↦ (failed poisoned_lock, c)
    | some f ↦ (done tt, record c { forwarding = f })
  ]

  -- The guard is dropped when the body returns, in whatever way.
  unfoldable pub with_guard :
      Outcome (ClientError B) (Unit {0}) × Client W → Outcome (ClientError B) (Unit {0}) × Client W
  with_guard (pending, c) = (pending, c)
  with_guard (done tt, c) = (done tt, record c { forwarding = drop_guard c.forwarding })
  with_guard (failed e, c) = (failed e, record c { forwarding = drop_guard c.forwarding })

  unfoldable pub scan_continuous :
      List StateWake → ScanKind → List (BlockWake B) → Scan W (Unit {0})
  scan_continuous wakes kind blocks = do
    wait_until_ready wakes
    enable_block_forwarding
    λ c.
        let found = forwarded c.forwarding blocks in
        with_guard (continue (report true (scan_inner kind c)) (λ _. watch_blocks found))
