-- ===== src/Client/Create/Following.antt =====
-- src/node/mod.rs and src/client/mod.rs: the shutdown of a node as its clients see it.
use bdk_floresta.Prelude.{◌≡◌, refl, ◌⊎◌, arith}
use bdk_floresta.Node.Backend.{Backend}
use bdk_floresta.Node.Lifecycle.{System, IsFresh, Reach, cancelling, ended}
use bdk_floresta.Node.Lifecycle.Orderly.{Reach-Inv}
use bdk_floresta.Client.Types.{ScanKind}
use bdk_floresta.Client.Wallet.{WalletLib, taken}
use bdk_floresta.Client.Create.{watching, over, Session, SessionReach}
use bdk_floresta.Client.Create.Shutdown.{IsNew, Closed, SessionReach-Closed, watcher_closes}
use bdk_floresta.Client.Scan.{scan_inner}
use bdk_floresta.Client.Scan.Cancel.{Stopped, scan_inner-Stopped}

module _ {B : Backend} (W : WalletLib B) where
  -- Once the node's shutdown task has cancelled the node's token, in whatever order `run`, polling
  -- and shutdown have run from a fresh node, the watcher of a client of that node, if it still
  -- waits, can run on to its end. From there on, in every interleaving, the client's channel has no
  -- sender and gets no further event, and a scan of the client does not succeed and leaves events,
  -- checkpoint and transaction graph as they are.
  pub node_down_closes_clients :
      (x y : System B) (s t : Session W)
      → IsFresh x
      → Reach x y
      → (y.shutdown ≡ cancelling) ⊎ (y.shutdown ≡ ended)
      → IsNew s
      → SessionReach s t
      → t.client.node ≡ y.node
      → t.watcher ≡ watching
      → (u : Session W) × SessionReach t u
        × (u.watcher ≡ over)
        × ((v : Session W) (kind : ScanKind)
            → SessionReach u v
            → (v.client.event_tx ≡ taken)
              × (v.client.sent ≡ u.client.sent)
              × Stopped v.client (scan_inner kind v.client))
  node_down_closes_clients x y s t f r down new q same w =
      let cut = (Reach-Inv x y f r).token_set down in
      let (u, to, ends, cancelled, gone) = watcher_closes s t new q w (ground (arith, cut, same)) in
      let closed : Closed u.client.sent u = record {
        no_sender = gone;
        same_events = refl;
        still_cancelled = cancelled;
      } in
      (
        u,
        to,
        ends,
        λ v kind on.
            let k = SessionReach-Closed u v on closed in
            (k.no_sender, k.same_events, scan_inner-Stopped kind v.client k.still_cancelled),
      )
