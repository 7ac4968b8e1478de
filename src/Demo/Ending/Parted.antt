-- ===== src/Demo/Ending/Parted.antt =====
-- examples/client_regtest.rs and examples/client_signet.rs: the client that a program creates, and
-- the wallet that is left when it stops.
use bdk_floresta.Prelude.{
  Bool, true, false, none, [], ◌≡◌, ◌≢◌, sym, Option, arith, ap, ◌∙◌, subst, ap, ◌∙◌, subst,
}
use bdk_floresta.Fsm.{active}
use bdk_floresta.Node.{Node}
use bdk_floresta.Node.Backend.{Backend}
use bdk_floresta.Builder.Platform.{Platform}
use bdk_floresta.Client.Types.{Client, ClientError}
use bdk_floresta.Client.Wallet.{WalletLib, attached}
use bdk_floresta.Client.Monad.{Outcome, done}
use bdk_floresta.Client.Create.{new}
use bdk_floresta.Client.Handle.{ScanHandle}
use bdk_floresta.Demo.Consumer.{App, Consumer, consume}
use bdk_floresta.Demo.Program.{given, finally, after-ensures, Setup, wrapped, after}
use bdk_floresta.Demo.Ending.Left.{stop_and_leave-Left}
use bdk_floresta.Demo.Ending.{stop_and_leave, Ended}

module _ {B : Backend} {W : WalletLib B} where
  -- The client of a wallet, before its scan.
  pub record IsFor (wallet : W.Wallet) (c : Client W) : Type 0 where
    pub nothing_sent : c.sent ≡ []
    pub channel_open : c.event_tx ≡ attached
    pub wallet_checkpoint : W.latest_checkpoint wallet ≡ c.checkpoint
    pub fresh_graph : c.tx_graph ≡ W.new_graph (W.spk_index wallet)
    pub not_cancelled : c.cancellation_token ≡ false
    pub no_sink : c.forwarding.block_sink ≡ none
    pub running : c.node.state ≡ active
    pub same_network : W.wallet_network wallet ≡ c.node.config.network

  pub new-IsFor :
      {E : Type 0} (f : ClientError B → E) (node : Node B) (wallet : W.Wallet) (c : Client W)
      → node.state ≡ active
      → wrapped f (new W node wallet) ≡ done c
      → IsFor wallet c
  unfolding new
  new-IsFor f node wallet c up h = ground arith

  pub given-IsFor :
      {E : Type 0} (f : ClientError B → E) (node : Node B) (wallet : W.Wallet) (w w' : B.World)
      (pair : Client W × W.Wallet)
      → node.state ≡ active
      → after (given f (new W node wallet) w) (λ c. finally (c, wallet)) ≡ (done pair, w')
      → IsFor pair.1 pair.0
  given-IsFor f node wallet w w' pair up =
      after-ensures (λ p. IsFor p.1 p.0) _ _
        (λ d s s' p e h.
          let same : (d, wallet) ≡ p = ground arith in
          subst (λ p. IsFor p.1 p.0) same (new-IsFor f node wallet d up e))
        w' pair

module _ {B : Backend} {W : WalletLib B} (A : App W) where
  -- All is told to stop, and the wallet has had all events of the client, in their order.
  pub record Parted (wallet : W.Wallet) (x : Ended A) : Type 0 where
    pub handle_cancelled : x.handle.token ≡ true
    pub handle_empty : x.handle.inner ≡ false
    pub node_cancelled : x.node.cancellation_token ≡ true
    pub client_cancelled : x.client.cancellation_token ≡ true
    pub channel_closed : x.client.event_tx ≢ attached
    pub consumed : x.consumer ≡ consume A x.client.sent (record { wallet = wallet; lines = [] })

module _ {B : Backend} {W : WalletLib B} {P : Platform B} {S : Setup W} {F : Type 0}
    (A : App W) where
  pub stop_and_leave-Parted :
      (task : Bool → Outcome (ClientError B) (Unit {0}) × Client W) (wallet : W.Wallet)
      (h : ScanHandle) (e : Option (ClientError B)) (x : Ended A)
      → stop_and_leave {P = P} {S = S} {F = F} A task h (record { wallet = wallet; lines = [] }) e
        ≡ done x
      → Parted A wallet x
  stop_and_leave-Parted task wallet h e x eq =
      let k : Consumer A = record { wallet = wallet; lines = [] } in
      let l = stop_and_leave-Left A {P = P} {S = S} {F = F} task h k e x eq in
      record {
        handle_cancelled = l.handle_cancelled;
        handle_empty = l.handle_empty;
        node_cancelled = l.node_cancelled;
        client_cancelled = l.client_cancelled;
        channel_closed = l.channel_closed;
        consumed = l.consumed ∙ ap (λ sent. consume A sent k) (sym l.same_events);
      }
