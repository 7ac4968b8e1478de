-- ===== src/Examples/Requests.antt =====
-- Requests to the peers, filter scans and overlapping calls.
use bdk_floresta.Prelude.{
  ℕ, ◌≤◌, ◌<◌, true, false, some, List, [], ◌∷◌, ◌++◌, ok, ◌≡◌, refl, ◌↔◌, arith,
}
use bdk_floresta.Prelude.Sets.{contains}
use bdk_floresta.Fsm.{operational}
use bdk_floresta.Node.{
  Node, connecting_to_peer, disconnecting_from_peer, removing_peer, pinging, fetching_block,
  fetching_blocks, broadcasting_transaction, action_dec,
}
use bdk_floresta.Node.Local.{match_filters}
use bdk_floresta.Node.Network.{
  fetch_block, fetch_blocks, broadcast_tx, add_peer, disconnect_peer, remove_peer, ping,
}
use bdk_floresta.Node.Requests.{Settled, requests_settle}
use bdk_floresta.Node.Filters.{match_filters_ok_iff}
use bdk_floresta.Node.Overlap.{
  CallEvent, start, finish, run_calls, in_flight, actions_track_calls, overlap_lost,
}
use bdk_floresta.Examples.Fixture.{crates, ready, peer}

requests_settle_example :
    Settled (fetching_block 7) ready (fetch_block 7 ready).1
    × Settled (fetching_blocks 2) ready (fetch_blocks (7 ∷ 9 ∷ []) ready).1
    × Settled (broadcasting_transaction 5) ready (broadcast_tx 5 ready).1
    × Settled (connecting_to_peer peer) ready (add_peer peer ready).1
    × Settled (disconnecting_from_peer peer) ready (disconnect_peer peer ready).1
    × Settled (removing_peer peer) ready (remove_peer peer ready).1
    × Settled pinging ready (ping ready).1
requests_settle_example = requests_settle ready 7 (7 ∷ 9 ∷ []) 5 peer

fetched : (fetch_blocks (7 ∷ 9 ∷ []) ready).0 ≡ ok (7 ∷ 9 ∷ [])
unfolding fetch_blocks
fetched = refl

match_filters_ok_iff_example : ((match_filters {B = crates} [] 0 8 ready).0 ≡ ok (7 ∷ 9 ∷ [])) ↔ (
    (crates.watched_state 0 operational ≡ operational)
    × ((tip : ℕ) × ((crates.filters_height 0).0 ≡ ok tip)
        × (8 ≤ tip)
        × ((crates.match_any [] (some 0) (some 8) (crates.filters_height 0).1).0
            ≡ ok (7 ∷ 9 ∷ []))))
match_filters_ok_iff_example = match_filters_ok_iff {B = crates} [] 0 8 ready (7 ∷ 9 ∷ [])

abbrev two_blocks : List (CallEvent crates)
two_blocks = start (fetching_block 7) ∷ start (fetching_block 9) ∷ finish (fetching_block 7) ∷ []

absent : contains (action_dec crates) (fetching_block 9) ready.actions ≡ false
unfolding contains
absent = ground arith

actions_track_calls_example :
    (contains (action_dec crates) (fetching_block 9) (run_calls two_blocks ready).actions ≡ true)
    ↔ (0 < in_flight (fetching_block 9) 0 two_blocks)
unfolding in_flight
actions_track_calls_example =
    actions_track_calls (fetching_block 9) two_blocks ready (ground arith) absent

overlap_lost_example :
    let fs = two_blocks ++ start pinging ∷ start pinging ∷ finish pinging ∷ [] in
    (0 < in_flight pinging 0 fs)
    × (contains (action_dec crates) pinging (run_calls fs ready).actions ≡ false)
overlap_lost_example = overlap_lost pinging two_blocks ready

abbrev unused : Node crates
unused = record ready { actions = [] }

abbrev pinged : List (CallEvent crates)
pinged = start pinging ∷ []

abbrev ping_over : List (CallEvent crates)
ping_over = start pinging ∷ finish pinging ∷ []
