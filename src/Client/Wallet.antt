-- ===== src/Client/Wallet.antt =====
-- What src/client/mod.rs calls in bdk_wallet and bdk_chain, and what other holders of the client's
-- token and of its event channel do, as one record that the client takes as a parameter.
use bdk_floresta.Prelude.{ℕ, Bool, Option}
use bdk_floresta.Node.Backend.{Backend}

-- `bdk_wallet::KeychainKind`, the two names that the client writes.
pub data KeychainKind : Type 0 where
  external internal : KeychainKind

-- The mutex around the sender of scan events: poisoned, holding no sender, or holding it.
pub data EventTx : Type 0 where
  poisoned taken attached : EventTx

pub record WalletLib (B : Backend) : Type 1 where
  -- checkpoints
  pub CheckPoint : Type 0
  pub height : CheckPoint → ℕ
  pub insert_block : ℕ → B.Hash → CheckPoint → CheckPoint
  -- the keychain index, with its iterators over script pubkeys
  pub Index : Type 0
  pub lookahead : Index → ℕ
  pub last_revealed_index : Index → KeychainKind → Option ℕ
  pub SpkIter : Type 0
  pub unbounded_spk_iter : Index → KeychainKind → Option SpkIter
  pub next_spk : SpkIter → Option ((ℕ × B.Spk) × SpkIter)
  pub LastActive : Type 0
  pub last_used_indices : Index → LastActive
  -- the transaction graph behind the index
  pub Graph : Type 0
  pub TxUpdate : Type 0
  pub tx_update_of : Graph → TxUpdate
  pub IndexedTxGraph : Type 0
  pub new_graph : Index → IndexedTxGraph
  pub graph : IndexedTxGraph → Graph
  pub index : IndexedTxGraph → Index
  pub ChangeSet : Type 0
  pub changes_nothing : ChangeSet → Bool
  pub apply_block_relevant : B.Block → ℕ → IndexedTxGraph → ChangeSet × IndexedTxGraph
  -- the wallet
  pub Wallet : Type 0
  pub wallet_network : Wallet → B.Network
  pub spk_index : Wallet → Index
  pub latest_checkpoint : Wallet → CheckPoint
  -- Has another holder cancelled the client's token by now?
  pub cancelled_by_others : B.World → Bool
  -- What others (the shutdown watcher) have made of the event channel by now.
  pub event_tx_now : B.World → EventTx → EventTx
  -- A cancellation that comes while `fetch_blocks` waits: the world in which its future is dropped.
  pub cancelled_in_flight : B.World → Option B.World
