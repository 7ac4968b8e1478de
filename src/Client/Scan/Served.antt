-- ===== src/Client/Scan/Served.antt =====
-- src/client/mod.rs: what `scan_inner` comes to on a node whose stores and peers answer.
pub mod Calls
use bdk_floresta.Prelude.{
  ℕ, false, none, some, List, [], ◌∷◌, ◌++◌, ok, ◌≡◌, subst, arith, ltb, map, if◌then◌else◌,
}
use bdk_floresta.Fsm.{operational}
use bdk_floresta.Node.{NodeError}
use bdk_floresta.Node.Backend.{Backend}
use bdk_floresta.Node.Local.{get_block_height, get_block_hash}
use bdk_floresta.Client.Types.{Client, ClientError, ScanEvent, wallet_update}
use bdk_floresta.Client.Wallet.{WalletLib, attached}
use bdk_floresta.Client.Monad.{Outcome, done, continue}
use bdk_floresta.Client.Scan.Bind.{continue-of_done}

-- The stores and the peers answer with what they hold, the node stays operational, nobody cancels
-- the client's token, and its channel stays open.
pub record Healthy {B : Backend} (W : WalletLib B) : Type 1 where
  pub tip : ℕ
  pub matches : List B.Spk → ℕ → ℕ → List B.Hash
  pub block_of : B.Hash → B.Block
  pub height_of : B.Hash → ℕ
  pub hash_at : ℕ → B.Hash
  pub filters_known : (w : B.World) → (B.filters_height w).0 ≡ ok tip
  pub matches_known :
      (spks : List B.Spk) (start stop : ℕ) (w : B.World)
      → (B.match_any spks (some start) (some stop) w).0 ≡ ok (matches spks start stop)
  pub block_known :
      (hash : B.Hash) (w : B.World) → (B.get_block hash w).0 ≡ ok (some (block_of hash))
  pub height_known :
      (hash : B.Hash) (w : B.World) → (B.get_block_height hash w).0 ≡ ok (some (height_of hash))
  pub hash_known : (height : ℕ) (w : B.World) → (B.get_block_hash height w).0 ≡ ok (hash_at height)
  pub joined :
      (bs : List B.Block) (w : B.World) → B.try_join_all {E = NodeError B} (map ok bs) w ≡ ok bs
  pub stays_operational : (w : B.World) → B.watched_state w operational ≡ operational
  pub stays_open : (w : B.World) → W.event_tx_now w attached ≡ attached
  pub uncancelled : (w : B.World) → W.cancelled_by_others w ≡ false
  pub not_in_flight : (w : B.World) → W.cancelled_in_flight w ≡ none

-- What the wallet is to see of a client.
pub record View {B : Backend} (W : WalletLib B) : Type 0 where
  pub checkpoint : W.CheckPoint
  pub tx_graph : W.IndexedTxGraph
  pub sent : List (ScanEvent W)

module _ {B : Backend} (W : WalletLib B) where
  abbrev pub view : Client W → View W
  view c = record { checkpoint = c.checkpoint; tx_graph = c.tx_graph; sent = c.sent }

  -- The reference: a new checkpoint, with an update that has it and the transactions seen so far.
  abbrev pub announced : ℕ → B.Hash → View W → View W
  announced height hash v =
      let checkpoint = W.insert_block height hash v.checkpoint in
      record {
        checkpoint = checkpoint;
        tx_graph = W.new_graph (W.index v.tx_graph);
        sent =
            v.sent
            ++ wallet_update (record {
              tx_update = W.tx_update_of (W.graph v.tx_graph);
              last_active_indices = W.last_used_indices (W.index v.tx_graph);
              chain = some checkpoint;
            })
              ∷ [];
      }

  -- The reference: a block is announced exactly if it changes something.
  abbrev pub with_block : ℕ → B.Block → View W → View W
  with_block height block v =
      let (changeset, g) = W.apply_block_relevant block height v.tx_graph in
      let v' = record v { tx_graph = g } in
      if W.changes_nothing changeset then v' else announced height (B.block_hash block) v'

  unfoldable pub with_blocks : (B.Hash → ℕ) → List B.Block → View W → View W
  with_blocks height_of [] v = v
  with_blocks height_of (block ∷ blocks) v =
      with_blocks height_of blocks (with_block (height_of (B.block_hash block)) block v)

  -- The reference: the end of the range is announced if no block at or above it was.
  abbrev pub with_end : ℕ → B.Hash → View W → View W
  with_end stop hash v = if ltb (W.height v.checkpoint) stop then announced stop hash v else v

  -- A client that nobody has cancelled, whose channel is open and whose node is operational.
  abbrev pub Live : Client W → Type 0
  Live c = (c.cancellation_token ≡ false) × (c.event_tx ≡ attached) × (c.node.state ≡ operational)

  -- A call has succeeded with `a`, and has left a live client that is seen as `v`.
  pub record Ends {A : Type 0} (r : Outcome (ClientError B) A × Client W) (a : A) (v : View W)
      : Type 0 where
    pub result : r.0 ≡ done a
    pub live : Live r.1
    pub same : view r.1 ≡ v

  -- What the rest of a chain is known for, the chain is after a call that has succeeded.
  pub then-Gives :
      {A C : Type 0} (Q : Outcome (ClientError B) C × Client W → View W → Type 0)
      (r : Outcome (ClientError B) A × Client W)
      (f : A → Client W → Outcome (ClientError B) C × Client W) (a : A) (v : View W)
      (F : View W → View W)
      → Ends r a v
      → ((d : Client W) → Live d → view d ≡ v → Q (f a d) (F (view d)))
      → Q (continue r f) (F v)
  then-Gives Q r f a v F p k =
      rw (continue-of_done r f a p.result)
        (subst (λ x. Q (f a r.1) (F x)) p.same (k r.1 p.live p.same))

  pub then-Ends :
      {A C : Type 0} (r : Outcome (ClientError B) A × Client W)
      (f : A → Client W → Outcome (ClientError B) C × Client W) (a : A) (b : C) (v : View W)
      (F : View W → View W)
      → Ends r a v
      → ((d : Client W) → Live d → Ends (f a d) b (F (view d)))
      → Ends (continue r f) b (F v)
  then-Ends r f a b v F p k = then-Gives (λ s. Ends s b) r f a v F p (λ d l _. k d l)
