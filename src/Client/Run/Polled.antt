-- ===== src/Client/Run/Polled.antt =====
-- src/node/mod.rs and src/client/mod.rs: a round of polling and then a scan.
use bdk_floresta.Prelude.{◌+◌, ◌^◌, ◌≤◌, ◌<◌, true, false, List, ok, ◌≡◌, refl, ◌∙◌, arith}
use bdk_floresta.Fsm.{State, operational, operational_tolerance}
use bdk_floresta.Fsm.Relation.{IsParked}
use bdk_floresta.Node.{Node}
use bdk_floresta.Node.Backend.{Backend}
use bdk_floresta.Node.Poll.{wire_ready, send_if_modified, poll}
use bdk_floresta.Client.Types.{Client, ScanKind}
use bdk_floresta.Client.Wallet.{WalletLib, attached}
use bdk_floresta.Client.Monad.{done}
use bdk_floresta.Client.Scan.{derive_for, kind_start}
use bdk_floresta.Client.Scan.Served.{Healthy, view}
use bdk_floresta.Client.Scan.Served.Calls.{with_range}
use bdk_floresta.Client.Run.{StateWake, scan}
use bdk_floresta.Client.Run.Served.{with_finished, scan-served}
use bdk_floresta.Client.Run.Following.{kind-view}

-- The node has a peer, and its headers, its validated blocks and its filters all reach the same
-- tip.
pub record Synchronised {B : Backend} {W : WalletLib B} (H : Healthy W) : Type 0 where
  pub peers_there : (w : B.World) → wire_ready (B.get_peer_info w).0 ≡ true
  pub best_hash : B.Hash
  pub best_known : (w : B.World) → (B.get_best_block w).0 ≡ ok (H.tip, best_hash)
  pub validated : (w : B.World) → (B.get_validation_index w).0 ≡ ok H.tip
  pub above_genesis : 0 < H.tip
  pub fits : H.tip + operational_tolerance < 2 ^ 32

module _ {B : Backend} (W : WalletLib B) (H : Healthy W) (S : Synchronised H) where
  send_if_modified-operational :
      (s : State) → ¬ IsParked s → (send_if_modified true H.tip H.tip H.tip s).0 ≡ operational
  unfolding send_if_modified
  send_if_modified-operational s p = ground (arith, S.above_genesis, S.fits)

  pub poll-operational : (n : Node B) → ¬ IsParked n.state → (poll n).0.state ≡ operational
  unfolding poll
  poll-operational n p =
      let w₁ = (B.get_peer_info n.world).1 in
      let w₂ = (B.get_best_block w₁).1 in
      let w₃ = (B.get_validation_index w₂).1 in
      ground (
        arith,
        S.peers_there n.world,
        S.best_known w₁,
        S.validated w₂,
        H.filters_known w₃,
        send_if_modified-operational n.state p,
      )

  -- On a node that has a peer, whose headers, validated blocks and filters reach the same tip,
  -- above zero and with room for the tolerance in 32 bits, and that is not in a state that polling
  -- leaves alone: after one round of polling a scan succeeds, if the stores and the peers answer,
  -- the script pubkeys can be derived, the scan starts at most at the tip, nobody cancels the
  -- client, its channel stays open and the node stays operational once it is. The checkpoint and
  -- the events that the scan leaves are those of the reference.
  pub polled-scan :
      (wakes : List StateWake) (kind : ScanKind) (spks : List B.Spk) (c : Client W)
      → ¬ IsParked c.node.state
      → (derive_for kind c).0 ≡ done spks
      → kind_start kind c ≤ H.tip
      → c.cancellation_token ≡ false
      → c.event_tx ≡ attached
      → let (r, d) = scan wakes kind (record c { node = (poll c.node).0 }) in
        (r ≡ done tt)
        × (view W d ≡ with_finished W H false (with_range W H spks (kind_start kind c) (view W c)))
  unfolding derive_for
  polled-scan wakes kind spks c p e h t a =
      let d = record c { node = (poll c.node).0 } in
      let (start, derived) = kind-view W H kind c d refl in
      rw (← start) (
        scan-served W H wakes kind spks d (derived ∙ e) (rw start h)
          (t, a, poll-operational c.node p))
