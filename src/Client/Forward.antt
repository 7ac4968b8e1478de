-- ===== src/Client/Forward.antt =====
-- src/client/mod.rs: `BlockSink`, `BlockFwdGuard` and `enable_block_forwarding`.
pub mod Lifetime
use bdk_floresta.Prelude.{ℕ, suc, ◌+◌, Option, none, some, [], ◌∷◌, ◌++◌}
use bdk_floresta.Node.Backend.{Backend}
use bdk_floresta.Client.Types.{BlockTx, poisoned_tx, sender, Forwarding}

abbrev take_sender : BlockTx → BlockTx
take_sender poisoned_tx = poisoned_tx
take_sender (sender _) = sender none

module _ {B : Backend} where
  abbrev forward : B.Block → ℕ → BlockTx → Forwarding B → Forwarding B
  forward block height poisoned_tx f = f
  forward block height (sender none) f = f
  forward block height (sender (some _)) f = record f { queue = f.queue ++ (block, height) ∷ [] }

  -- `on_block`, which the chain calls with each validated block once the sink is registered.
  unfoldable pub on_block : B.Block → ℕ → Forwarding B → Forwarding B
  on_block block height f = elim f.block_sink [ none ↦ f | some tx ↦ forward block height tx f ]

  -- A sink that is there gets the sender of a fresh channel, unless its lock is poisoned.
  abbrev reattach : BlockTx → Forwarding B → Option (Forwarding B)
  reattach poisoned_tx f = none
  reattach (sender _) f = some (record f {
    block_sink = some (sender (some f.channels));
    channels = suc f.channels;
    queue = [];
  })

  -- `Node::block_subscriber`: the chain gets one more consumer of its blocks.
  abbrev block_subscriber : Forwarding B → Forwarding B
  block_subscriber f = record f { subscribed = suc f.subscribed }

  -- `enable_block_forwarding`; `none` is `ClientError::PoisonedLock`.
  unfoldable pub enable : Forwarding B → Option (Forwarding B)
  enable f = elim f.block_sink [
    | none ↦ some (
        block_subscriber (record f {
          block_sink = some (sender (some f.channels));
          channels = suc f.channels;
          queue = [];
        }))
    | some tx ↦ reattach tx f
  ]

  -- `Drop` of `BlockFwdGuard`.
  unfoldable pub drop_guard : Forwarding B → Forwarding B
  drop_guard f = elim f.block_sink [
    | none ↦ f
    | some tx ↦ record f { block_sink = some (take_sender tx) }
  ]
