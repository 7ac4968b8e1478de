-- ===== src/Client/Run/Report.antt =====
-- src/client/mod.rs: the event that ends a scan.
use bdk_floresta.Prelude.{Bool, false, List, [], ◌∷◌, ◌++◌, ◌≡◌, sym, ◌∙◌, arith}
use bdk_floresta.Node.Backend.{Backend}
use bdk_floresta.Client.Types.{
  Client, ClientError, ScanKind, ScanEvent, finished, error, show_client_error,
}
use bdk_floresta.Client.Wallet.{WalletLib, attached}
use bdk_floresta.Client.Monad.{Outcome, done, failed, pending, continue}
use bdk_floresta.Client.Update.{send_event}
use bdk_floresta.Client.Scan.{scan_inner}
use bdk_floresta.Client.Scan.Bind.{continue-done, continue-of_done}
use bdk_floresta.Client.Run.{StateWake, wait_until_ready, report, scan}

module _ {B : Backend} (W : WalletLib B) where
  report-done :
      (k : Bool) (r : Outcome (ClientError B) (Unit {0}) × Client W) (c' : Client W)
      → report k r ≡ (done tt, c')
      → c'.event_tx ≡ attached
      → c'.sent ≡ r.1.sent ++ finished k ∷ []
  unfolding report continue send_event
  report-done k (pending, c) c' h a = ground arith
  report-done k (done tt, c) c' h a = ground arith
  report-done k (failed e, c) c' h a = ground arith

  report-failed :
      (k : Bool) (r : Outcome (ClientError B) (Unit {0}) × Client W) (c' : Client W)
      (e : ClientError B)
      → report k r ≡ (failed e, c')
      → c'.event_tx ≡ attached
      → c'.sent ≡ r.1.sent ++ error (show_client_error e) ∷ []
  unfolding report continue send_event
  report-failed k (pending, c) c' e h a = ground arith
  report-failed k (done tt, c) c' e h a = ground arith
  report-failed k (failed f, c) c' e h a = ground arith

  -- A scan that succeeds with its channel still open has sent, as its last event, that it is
  -- finished and does not keep going.
  pub scan_announces_success :
      (wakes : List StateWake) (kind : ScanKind) (c c' : Client W)
      → scan wakes kind c ≡ (done tt, c')
      → c'.event_tx ≡ attached
      → (events : List (ScanEvent W)) × (c'.sent ≡ events ++ finished false ∷ [])
  unfolding scan
  scan_announces_success wakes kind c c' h a =
      let (_, _, k) = continue-done (wait_until_ready wakes c) _ h in
      (_, report-done false (scan_inner kind (wait_until_ready wakes c).1) c' k a)

  -- A scan that fails after the node was ready, with its channel still open, has sent the text of
  -- the error that it returns as its last event.
  pub scan_announces_failure :
      (wakes : List StateWake) (kind : ScanKind) (c c' : Client W) (e : ClientError B)
      → (wait_until_ready wakes c).0 ≡ done tt
      → scan wakes kind c ≡ (failed e, c')
      → c'.event_tx ≡ attached
      → (events : List (ScanEvent W)) × (c'.sent ≡ events ++ error (show_client_error e) ∷ [])
  unfolding scan
  scan_announces_failure wakes kind c c' e ready h a =
      let ran = wait_until_ready wakes c in
      let k = continue-of_done ran (λ _ d. report false (scan_inner kind d)) tt ready in
      (_, report-failed false (scan_inner kind ran.1) c' e (sym k ∙ h) a)
