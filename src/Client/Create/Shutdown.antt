-- ===== src/Client/Create/Shutdown.antt =====
-- src/client/mod.rs: what the watcher, the tokens and the drop of a client come to.
use bdk_floresta.Prelude.{true, false, List, ◌≡◌, refl, ◌⊎◌, ◌↔◌, arith}
use bdk_floresta.Node.Backend.{Backend}
use bdk_floresta.Client.Types.{ScanEvent}
use bdk_floresta.Client.Wallet.{WalletLib, taken, attached}
use bdk_floresta.Client.Create.{
  take_tx, watching, woken, has_cancelled, over, aborted, Session, drop, SessionStep, wake,
  cancel_client, take_sender, cancel_node, cancel_scans, send, drop_client, SessionReach, here,
  next,
}

module _ {B : Backend} {W : WalletLib B} where
  -- A client as `Client::new` leaves it, with its watcher spawned.
  pub record IsNew (s : Session W) : Type 0 where
    pub open_channel : s.client.event_tx ≡ attached
    pub not_cancelled : s.client.cancellation_token ≡ false
    pub still_watching : s.watcher ≡ watching
    pub alive : s.dropped ≡ false

  -- What holds of every session that a new one reaches.
  pub record SessionInv (s : Session W) : Type 0 where
    pub closed_iff : (s.client.event_tx ≡ taken) ↔ ((s.watcher ≡ over) ⊎ (s.dropped ≡ true))
    pub closed_cancelled : s.client.event_tx ≡ taken → s.client.cancellation_token ≡ true
    pub past_cancelled : s.watcher ≡ has_cancelled → s.client.cancellation_token ≡ true
    pub woken_cancelled :
        (s.watcher ≡ woken) ⊎ (s.watcher ≡ has_cancelled) ⊎ (s.watcher ≡ over)
        → s.client.node.cancellation_token ≡ true
    pub aborted_dropped : s.watcher ≡ aborted → s.dropped ≡ true
    pub never_poisoned : (s.client.event_tx ≡ taken) ⊎ (s.client.event_tx ≡ attached)

  SessionStep-SessionInv : {s t : Session W} → SessionStep s t → SessionInv s → SessionInv t
  unfolding drop
  SessionStep-SessionInv (wake a b e) h = ground arith
  SessionStep-SessionInv (cancel_client a e) h = ground arith
  SessionStep-SessionInv (take_sender a e) h = ground arith
  SessionStep-SessionInv (cancel_node e) h = ground arith
  SessionStep-SessionInv (cancel_scans e) h = ground arith
  SessionStep-SessionInv (send event a b e) h = ground arith
  SessionStep-SessionInv (drop_client a e) h = ground arith

  -- In every interleaving of the watcher, the tokens and the client, the sender of events is gone
  -- exactly when the watcher is over or the client is dropped, and only with the client's token
  -- cancelled; and the watcher wakes only on the node's cancelled token.
  pub SessionReach-SessionInv : (s t : Session W) → IsNew s → SessionReach s t → SessionInv t
  SessionReach-SessionInv s t f here = ground arith
  SessionReach-SessionInv s t f (next {t = u} r step) =
      SessionStep-SessionInv step (SessionReach-SessionInv s u f r)

  pub record Closed (events : List (ScanEvent W)) (s : Session W) : Type 0 where
    pub no_sender : s.client.event_tx ≡ taken
    pub same_events : s.client.sent ≡ events
    pub still_cancelled : s.client.cancellation_token ≡ true

  SessionStep-Closed :
      {events : List (ScanEvent W)} {s t : Session W}
      → SessionStep s t
      → Closed events s
      → Closed events t
  unfolding drop
  SessionStep-Closed (wake a b e) h = ground arith
  SessionStep-Closed (cancel_client a e) h = ground arith
  SessionStep-Closed (take_sender a e) h = ground arith
  SessionStep-Closed (cancel_node e) h = ground arith
  SessionStep-Closed (cancel_scans e) h = ground arith
  SessionStep-Closed (send event a b e) h = ground arith
  SessionStep-Closed (drop_client a e) h = ground arith

  pub SessionReach-Closed :
      {events : List (ScanEvent W)} (s t : Session W)
      → SessionReach s t
      → Closed events s
      → Closed events t
  SessionReach-Closed s t here h = h
  SessionReach-Closed s t (next {t = u} r step) h =
      SessionStep-Closed step (SessionReach-Closed s u r h)

  -- From the drop of a client on, in every interleaving, its receiver gets no further event and its
  -- token stays cancelled.
  pub drop_silences :
      (s t u : Session W)
      → IsNew s
      → SessionReach s t
      → SessionReach (drop t) u
      → (u.client.sent ≡ t.client.sent) × (u.client.cancellation_token ≡ true)
  unfolding drop
  drop_silences s t u f before r =
      let h = SessionReach-SessionInv s t f before in
      let k : Closed t.client.sent u = SessionReach-Closed (drop t) u r (ground arith) in
      (k.same_events, k.still_cancelled)

  -- Once the node's token is cancelled, a watcher that waits can run on to its end, and then the
  -- client's token is cancelled and its sender is gone.
  pub watcher_closes :
      (s t : Session W)
      → IsNew s
      → SessionReach s t
      → t.watcher ≡ watching
      → t.client.node.cancellation_token ≡ true
      → (u : Session W) × SessionReach t u
        × (u.watcher ≡ over)
        × (u.client.cancellation_token ≡ true)
        × (u.client.event_tx ≡ taken)
  watcher_closes s t f before w cut =
      let t₁ : Session W = record t { watcher = woken } in
      let t₂ : Session W = record t₁ {
        watcher = has_cancelled;
        client = record (t₁.client) { cancellation_token = true };
      } in
      let t₃ : Session W = record t₂ {
        watcher = over;
        client = record (t₂.client) { event_tx = take_tx t₂.client.event_tx };
      } in
      let r : SessionReach t t₃ =
        next (next (next here (wake w cut refl)) (cancel_client refl refl))
          (take_sender refl refl) in
      let h = SessionReach-SessionInv s t f before in (t₃, r, refl, refl, ground arith)
