-- ===== src/Client/Run/Served.antt =====
-- src/client/mod.rs: what `scan` comes to on a node whose stores and peers answer.
use bdk_floresta.Prelude.{◌≤◌, Bool, false, List, [], ◌∷◌, ◌++◌, ◌≡◌, refl, arith}
use bdk_floresta.Node.Backend.{Backend}
use bdk_floresta.Client.Types.{Client, ClientError, ScanKind, finished}
use bdk_floresta.Client.Wallet.{WalletLib}
use bdk_floresta.Client.Monad.{Outcome, done, failed, continue, pure}
use bdk_floresta.Client.Update.{send_event}
use bdk_floresta.Client.Scan.{derive_for, scan_inner, kind_start}
use bdk_floresta.Client.Scan.Served.{Healthy, View, view, Live, Ends, then-Ends}
use bdk_floresta.Client.Scan.Served.Calls.{send_event-Ends, with_range, scan_inner-Ends}
use bdk_floresta.Client.Run.{StateWake, wait_until_ready, report, scan}

module _ {B : Backend} (W : WalletLib B) (H : Healthy W) where
  pub wait_until_ready-Live :
      (wakes : List StateWake) (c : Client W) → Live W c → wait_until_ready wakes c ≡ (done tt, c)
  unfolding wait_until_ready
  wait_until_ready-Live wakes c l = ground (arith, H.stays_operational c.node.world)

  -- The reference: the last event of a scan.
  abbrev pub with_finished : Bool → View W → View W
  with_finished keep_going v = record v { sent = v.sent ++ finished keep_going ∷ [] }

  report-done :
      (keep_going : Bool) (r : Outcome (ClientError B) (Unit {0}) × Client W)
      → r.0 ≡ done tt
      → report keep_going r ≡ continue (send_event (finished keep_going) r.1) (λ _. pure tt)
  unfolding report
  report-done keep_going (done tt, c) h = refl
  report-done keep_going (failed e, c) h = cc
  report-done keep_going (c) h = cc

  pub report-Ends :
      (keep_going : Bool) (r : Outcome (ClientError B) (Unit {0}) × Client W) (v : View W)
      → Ends W r tt v
      → Ends W (report keep_going r) tt (with_finished keep_going v)
  report-Ends keep_going r v p =
      rw (report-done keep_going r p.result, ← p.same)
        (then-Ends W (send_event (finished keep_going) r.1) _ tt tt
          (with_finished keep_going (view W r.1)) (λ x. x)
          (send_event-Ends W H (finished keep_going) r.1 p.live)
          λ d m. record { result = refl; live = m; same = refl })

  -- On a node whose stores and peers answer with what they hold and that is operational and stays
  -- so, and for a client that nobody cancels, whose channel stays open and whose script pubkeys can
  -- be derived: a scan from at most the filters' tip succeeds. The checkpoint and the events that
  -- it leaves are those of the reference: the blocks that match the filters are taken in their
  -- order, each that changes something becomes the checkpoint and is announced by one update, the
  -- tip becomes the checkpoint if the checkpoint is still below, and the last event says that the
  -- scan is finished.
  pub scan-served :
      (wakes : List StateWake) (kind : ScanKind) (spks : List B.Spk) (c : Client W)
      → (derive_for kind c).0 ≡ done spks
      → kind_start kind c ≤ H.tip
      → Live W c
      → ((scan wakes kind c).0 ≡ done tt)
        × (view W (scan wakes kind c).1
            ≡ with_finished false (with_range W H spks (kind_start kind c) (view W c)))
  unfolding scan continue
  scan-served wakes kind spks c e h l =
      let whole = report-Ends false (scan_inner kind c) _ (scan_inner-Ends W H kind spks c e h l) in
      rw (wait_until_ready-Live wakes c l) (whole.result, whole.same)
