-- ===== src/Node/Requests.antt =====
-- src/node/mod.rs: what a request to the peers leaves behind, and what `fetch_blocks` answers.
use bdk_floresta.Prelude.{
  false, Option, some, List, [], ◌∷◌, map, Result, ok, ◌≡◌, refl, ite, arith, length, sym, subst,
}
use bdk_floresta.Prelude.Sets.{contains, contains-remove-insert}
use bdk_floresta.Node.Backend.{Backend, SocketAddr}
use bdk_floresta.Node.Types.{
  Action, connecting_to_peer, disconnecting_from_peer, removing_peer, pinging, fetching_block,
  fetching_blocks, broadcasting_transaction, action_dec, Node, NodeError,
}
use bdk_floresta.Node.Local.{call, track_action, untrack_action}
use bdk_floresta.Node.Network.{
  block_answer, request_all, fetch_block, fetch_blocks, broadcast_tx, add_peer, disconnect_peer,
  remove_peer, ping,
}

-- A call that ran with `action` in flight is over: the action is gone, every other action is in
-- flight if it was, and the rest of the node is as before, up to the world.
pub record Settled {B : Backend} (action : Action B) (n n' : Node B) : Type 0 where
  pub held :
      (b : Action B)
      → contains (action_dec B) b n'.actions
        ≡ ite (action_dec B b action) false (contains (action_dec B) b n.actions)
  pub rest : n' ≡ record n { actions = n'.actions; world = n'.world }

module _ {B : Backend} where
  settled :
      (action : Action B) (n : Node B) (w : B.World)
      → Settled action n (untrack_action action (record (track_action action n) { world = w }))
  unfolding track_action untrack_action
  settled action n w = record {
    held = λ b. contains-remove-insert (action_dec B) b action n.actions;
    rest = refl;
  }

  request_all_rest :
      (hashes : List B.Hash) (n : Node B)
      → (request_all hashes n).1 ≡ record n { world = (request_all hashes n).1.world }
  unfolding request_all
  request_all_rest [] n = refl
  request_all_rest (hash ∷ hashes) n = request_all_rest hashes (call (B.get_block hash) n).1

  fetch_blocks_settles :
      (hashes : List B.Hash) (n : Node B)
      → Settled (fetching_blocks (length hashes)) n (fetch_blocks hashes n).1
  unfolding fetch_blocks
  fetch_blocks_settles hashes n =
      let action : Action B = fetching_blocks (length hashes) in
      subst (λ m. Settled action n (untrack_action action m))
        (sym (request_all_rest hashes (track_action action n))) (settled action n _)

  -- Every request to the peers, whatever they answer, takes its own action out of flight and leaves
  -- the other actions and the rest of the node as they were.
  pub requests_settle :
      (n : Node B) (hash : B.Hash) (hashes : List B.Hash) (tx : B.Tx) (socket : SocketAddr)
      → Settled (fetching_block hash) n (fetch_block hash n).1
        × Settled (fetching_blocks (length hashes)) n (fetch_blocks hashes n).1
        × Settled (broadcasting_transaction (B.compute_txid tx)) n (broadcast_tx tx n).1
        × Settled (connecting_to_peer socket) n (add_peer socket n).1
        × Settled (disconnecting_from_peer socket) n (disconnect_peer socket n).1
        × Settled (removing_peer socket) n (remove_peer socket n).1
        × Settled pinging n (ping n).1
  unfolding fetch_block fetch_blocks broadcast_tx add_peer disconnect_peer remove_peer ping
  requests_settle n hash hashes tx socket = (
    settled (fetching_block hash) n _,
    fetch_blocks_settles hashes n,
    settled (broadcasting_transaction (B.compute_txid tx)) n _,
    settled (connecting_to_peer socket) n _,
    settled (disconnecting_from_peer socket) n _,
    settled (removing_peer socket) n _,
    settled pinging n _,
  )

  block_answer-ok :
      (hash : B.Hash) (r : Result B.RecvError (Option B.Block)) (b : B.Block)
      → block_answer {B = B} hash r ≡ ok b
      → r ≡ ok (some b)
  block_answer-ok hash r b h = ground arith

  map-block_hash :
      ((hash : B.Hash) (w : B.World) (b : B.Block)
        → (B.get_block hash w).0 ≡ ok (some b)
        → B.block_hash b ≡ hash)
      → (hashes : List B.Hash) (n : Node B) (bs : List B.Block)
      → (request_all hashes n).0 ≡ map ok bs
      → map B.block_hash bs ≡ hashes
  unfolding request_all
  map-block_hash honest [] n [] h = refl
  map-block_hash honest [] n (b ∷ bs) h = cc
  map-block_hash honest (hash ∷ hashes) n [] h = cc
  map-block_hash honest (hash ∷ hashes) n (b ∷ bs) h =
      let r = (B.get_block hash n.world).0 in
      let first : block_answer {B = B} hash r ≡ ok b = cc in
      let same = honest hash n.world b (block_answer-ok hash r b first) in
      let rest = map-block_hash honest hashes (call (B.get_block hash) n).1 bs cc in cc

  -- If every block that a peer sends has the hash that was asked for, and joined futures succeed
  -- only with the values of them all in order, then a successful `fetch_blocks` returns exactly one
  -- block for each hash, in the order of the hashes.
  pub fetch_blocks_in_order :
      ((hash : B.Hash) (w : B.World) (b : B.Block)
        → (B.get_block hash w).0 ≡ ok (some b)
        → B.block_hash b ≡ hash)
      → ((rs : List (Result (NodeError B) B.Block)) (w : B.World) (bs : List B.Block)
          → B.try_join_all rs w ≡ ok bs
          → rs ≡ map ok bs)
      → (hashes : List B.Hash) (n : Node B) (bs : List B.Block) → (fetch_blocks hashes n).0 ≡ ok bs
      → map B.block_hash bs ≡ hashes
  unfolding fetch_blocks
  fetch_blocks_in_order honest joined hashes n bs h =
      let m = track_action (fetching_blocks (length hashes)) n in
      map-block_hash honest hashes m bs (joined (request_all hashes m).0 _ bs h)

  request_all-served :
      ((hash : B.Hash) (w : B.World) → (b : B.Block) × ((B.get_block hash w).0 ≡ ok (some b)))
      → (hashes : List B.Hash) (n : Node B)
      → (bs : List B.Block) × ((request_all hashes n).0 ≡ map ok bs)
  unfolding request_all
  request_all-served served [] n = ([], refl)
  request_all-served served (hash ∷ hashes) n =
      let (b, answer) = served hash n.world in
      let (bs, rest) = request_all-served served hashes (call (B.get_block hash) n).1 in
      (b ∷ bs, ground arith)

  -- If the peers answer every request with a block, and futures that all succeed are joined to
  -- their values in order, then `fetch_blocks` succeeds.
  pub fetch_blocks_served :
      ((hash : B.Hash) (w : B.World) → (b : B.Block) × ((B.get_block hash w).0 ≡ ok (some b)))
      → ((bs : List B.Block) (w : B.World) → B.try_join_all {E = NodeError B} (map ok bs) w ≡ ok bs)
      → (hashes : List B.Hash) (n : Node B)
      → (bs : List B.Block) × ((fetch_blocks hashes n).0 ≡ ok bs)
  unfolding fetch_blocks
  fetch_blocks_served served joined hashes n =
      let m = track_action (fetching_blocks (length hashes)) n in
      let (bs, all) = request_all-served served hashes m in (bs, rw all (joined bs _))
