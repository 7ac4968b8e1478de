-- ===== src/Demo/Ending/Left.antt =====
-- examples/client_regtest.rs and examples/client_signet.rs: what a program that was told to stop
-- leaves.
use bdk_floresta.Prelude.{
  Bool, true, false, ◌⊎◌, Option, ◌≡◌, refl, ◌≢◌, arith, Bool-cases, inl, inr,
}
use bdk_floresta.Node.Backend.{Backend}
use bdk_floresta.Builder.Platform.{Platform}
use bdk_floresta.Client.Types.{Client, ClientError}
use bdk_floresta.Client.Wallet.{WalletLib, attached}
use bdk_floresta.Client.Monad.{Outcome, done, failed, pending}
use bdk_floresta.Client.Create.{drop}
use bdk_floresta.Client.Handle.{ScanHandle, cancel, stop}
use bdk_floresta.Client.Scan.Settled.{Settled}
use bdk_floresta.Node.Lifecycle.Calls.{shutdown}
use bdk_floresta.Demo.Consumer.{App, Consumer, consume}
use bdk_floresta.Demo.Program.{Setup}
use bdk_floresta.Demo.Ending.{client_dropped, Ended, stop_and_leave}

Settled-cases :
    {E A : Type 0} (o : Outcome E A)
    → Settled o
    → ((a : A) × (o ≡ done a)) ⊎ ((e : E) × (o ≡ failed e))
Settled-cases (done a) s = inl (a, refl)
Settled-cases (failed e) s = inr (e, refl)
Settled-cases pending s = elim s [ ]

module _ {B : Backend} {W : WalletLib B} (A : App W) where
  -- Everything is told to stop, and the consumer has had all events.
  pub record Left (c : Client W) (k : Consumer A) (e : Option (ClientError B)) (x : Ended A)
      : Type 0 where
    pub handle_cancelled : x.handle.token ≡ true
    pub handle_empty : x.handle.inner ≡ false
    pub node_cancelled : x.node.cancellation_token ≡ true
    pub client_cancelled : x.client.cancellation_token ≡ true
    pub channel_closed : x.client.event_tx ≢ attached
    pub same_checkpoint : x.client.checkpoint ≡ c.checkpoint
    pub same_events : x.client.sent ≡ c.sent
    pub consumed : x.consumer ≡ consume A c.sent k
    pub same_error : x.scan_error ≡ e

  module _ {P : Platform B} {S : Setup W} {F : Type 0} where
    pub stop_and_leave-Left :
        (task : Bool → Outcome (ClientError B) (Unit {0}) × Client W) (h : ScanHandle)
        (k : Consumer A) (e : Option (ClientError B)) (x : Ended A)
        → stop_and_leave {P = P} {S = S} {F = F} A task h k e ≡ done x
        → Left (task true).1 k e x
    unfolding stop_and_leave stop cancel client_dropped shutdown drop
    stop_and_leave-Left task h k e x eq = ground arith

    pub stop_and_leave-ends :
        (task : Bool → Outcome (ClientError B) (Unit {0}) × Client W) (h : ScanHandle)
        (k : Consumer A) (e : Option (ClientError B))
        → Settled (task true).0
        → (x : Ended A) × (stop_and_leave {P = P} {S = S} {F = F} A task h k e ≡ done x)
    unfolding stop_and_leave stop cancel client_dropped shutdown drop
    stop_and_leave-ends task h k e s = elim (Bool-cases h.inner) [
      | inl i ↦ elim (Settled-cases (task true).0 s) [
        | inl (a, over) ↦ rw (i, over) (_, refl)
        | inr (f, over) ↦ rw (i, over) (_, refl)
      ]
      | inr i ↦ rw i (_, refl)
    ]
