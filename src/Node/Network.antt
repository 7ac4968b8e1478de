-- ===== src/Node/Network.antt =====
-- src/node/mod.rs: the methods that ask the node's peers, each with its action in flight.
use bdk_floresta.Prelude.{Bool, Option, List, [], ◌∷◌, Result, ok_or, map_err, and_then, length}
use bdk_floresta.Node.Backend.{Backend, IpAddr, v4, v6, SocketAddr}
use bdk_floresta.Node.Types.{
  connecting_to_peer, disconnecting_from_peer, removing_peer, pinging, fetching_block,
  fetching_blocks, broadcasting_transaction, Node, NodeError, unresponsive_node, mempool,
  missing_block,
}
use bdk_floresta.Node.Local.{call, track_action, untrack_action}

module _ (B : Backend) where
  abbrev addr_of_ip : IpAddr → B.AddrV2
  addr_of_ip (v4 ip) = B.addr_ipv4 ip
  addr_of_ip (v6 ip) = B.addr_ipv6 ip

  unfoldable pub to_bitcoin_socket_addr : SocketAddr → B.BitcoinSocketAddr
  to_bitcoin_socket_addr socket = B.bitcoin_socket_addr (addr_of_ip socket.ip) socket.port

module _ {B : Backend} where
  -- What one request for a block comes to.
  abbrev pub block_answer :
      B.Hash → Result B.RecvError (Option B.Block) → Result (NodeError B) B.Block
  block_answer hash r = and_then (map_err unresponsive_node r) (λ o. ok_or o (missing_block hash))

  unfoldable pub fetch_block : B.Hash → Node B → Result (NodeError B) B.Block × Node B
  unfolding track_action untrack_action
  fetch_block hash n =
      let action = fetching_block hash in
      let (r, n') = call (B.get_block hash) (track_action action n) in
      (block_answer hash r, untrack_action action n')

  -- The answers to the requests of `fetch_blocks`, in the order of the hashes.
  unfoldable pub request_all : List B.Hash → Node B → List (Result (NodeError B) B.Block) × Node B
  request_all [] n = ([], n)
  request_all (hash ∷ hashes) n =
      let (r, n₁) = call (B.get_block hash) n in
      let (rs, n₂) = request_all hashes n₁ in (block_answer hash r ∷ rs, n₂)

  -- `fetch_blocks` up to its await, with the rest of it, which a dropped future does not run.
  abbrev pub begin_fetch :
      List B.Hash → Node B → Node B × (Node B → Result (NodeError B) (List B.Block) × Node B)
  begin_fetch hashes n =
      let action = fetching_blocks (length hashes) in
      (
        track_action action n,
        λ m.
            let (rs, n') = request_all hashes m in
            (B.try_join_all rs n'.world, untrack_action action n'),
      )

  unfoldable pub fetch_blocks : List B.Hash → Node B → Result (NodeError B) (List B.Block) × Node B
  unfolding track_action untrack_action request_all
  fetch_blocks hashes n = let (m, rest) = begin_fetch hashes n in rest m

  unfoldable pub broadcast_tx : B.Tx → Node B → Result (NodeError B) B.Txid × Node B
  unfolding track_action untrack_action
  broadcast_tx tx n =
      let action = broadcasting_transaction (B.compute_txid tx) in
      let (r, n') = call (B.broadcast_transaction tx) (track_action action n) in
      (and_then (map_err unresponsive_node r) (map_err mempool), untrack_action action n')

  unfoldable pub add_peer : SocketAddr → Node B → Result (NodeError B) Bool × Node B
  unfolding track_action untrack_action
  add_peer socket n =
      let action = connecting_to_peer socket in
      let (r, n') =
        call (B.add_peer (to_bitcoin_socket_addr B socket) n.config.allow_p2pv1_fallback)
          (track_action action n) in
      (map_err unresponsive_node r, untrack_action action n')

  unfoldable pub disconnect_peer : SocketAddr → Node B → Result (NodeError B) Bool × Node B
  unfolding track_action untrack_action
  disconnect_peer socket n =
      let action = disconnecting_from_peer socket in
      let (r, n') =
        call (B.disconnect_peer (to_bitcoin_socket_addr B socket)) (track_action action n) in
      (map_err unresponsive_node r, untrack_action action n')

  unfoldable pub remove_peer : SocketAddr → Node B → Result (NodeError B) Bool × Node B
  unfolding track_action untrack_action
  remove_peer socket n =
      let action = removing_peer socket in
      let (r, n') =
        call (B.remove_peer (to_bitcoin_socket_addr B socket)) (track_action action n) in
      (map_err unresponsive_node r, untrack_action action n')

  unfoldable pub ping : Node B → Result (NodeError B) Bool × Node B
  unfolding track_action untrack_action
  ping n =
      let (r, n') = call B.ping (track_action pinging n) in
      (map_err unresponsive_node r, untrack_action pinging n')
