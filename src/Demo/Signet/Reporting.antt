-- ===== src/Demo/Signet/Reporting.antt =====
-- examples/client_signet.rs: the error of the scan that `main` logs.
use bdk_floresta.Prelude.{Bool, false, some, [], ◌≡◌, refl, sym, ◌∙◌}
use bdk_floresta.Node.Backend.{Backend}
use bdk_floresta.Builder.Platform.{Platform}
use bdk_floresta.Client.Types.{Client, ClientError}
use bdk_floresta.Client.Wallet.{WalletLib}
use bdk_floresta.Client.Monad.{Outcome, done, failed, pending}
use bdk_floresta.Client.Handle.{new_handle, join}
use bdk_floresta.Client.Run.Ending.{Unfinished, scan_continuous-Unfinished}
use bdk_floresta.Demo.Consumer.{App, Consumer}
use bdk_floresta.Demo.Program.{Setup, Script}
use bdk_floresta.Demo.Ending.{task_end, scan_params, scan_alone, Ended}
use bdk_floresta.Demo.Ending.Left.{stop_and_leave-Left}
use bdk_floresta.Demo.Signet.{after_join, signet_client, signet_scan, signet}
use bdk_floresta.Demo.Signet.Leaving.{signet-scan}

module _ {B : Backend} {W : WalletLib B} {P : Platform B} {S : Setup W} {F : Type 0}
    (A : App W) where
  -- After a join of the scan's task.
  joined-reports :
      (r : Outcome (ClientError B) (Unit {0}) × Client W) (k : Consumer A) (token : Bool)
      (x : Ended A)
      → Unfinished r.0
      → after_join {P = P} {S = S} {F = F} A r k (join (task_end r.0) (new_handle token)) ≡ done x
      → (e : ClientError B) × (r.0 ≡ failed e) × (x.scan_error ≡ some e)
  unfolding join new_handle
  joined-reports (done tt, c) k token x u eq = elim u [ ]
  joined-reports (pending, c) k token x u eq = cc
  joined-reports (failed e, c) k token x u eq =
      (e, refl, (stop_and_leave-Left A {P = P} {S = S} {F = F} _ _ k (some e) x eq).same_error)

  -- If the signet program comes to its scan, and to its end without an error and without a SIGINT,
  -- then its scan has failed, and it has logged the error that the scan failed with.
  pub signet_reports :
      (script : Script B) (w : B.World) (c : Client W) (wallet : W.Wallet) (x : Ended A)
      → (signet_client P S {F = F} w).0 ≡ done (c, wallet)
      → script.interrupted ≡ false
      → (signet {P = P} {S = S} {F = F} A script w).0 ≡ done x
      → (e : ClientError B) × ((scan_alone script c).0 ≡ failed e) × (x.scan_error ≡ some e)
  unfolding signet_scan
  signet_reports script w c wallet x h i over =
      let k : Consumer A = record { wallet = wallet; lines = [] } in
      let r = scan_alone script c in
      let same : signet_scan {P = P} {S = S} {F = F} A script c wallet
          ≡ after_join A r k (join (task_end r.0) (new_handle c.cancellation_token)) =
        rw i refl in
      joined-reports r k c.cancellation_token x
        (scan_continuous-Unfinished script.wakes scan_params script.blocks c)
        (sym same ∙ sym (signet-scan {P = P} {S = S} {F = F} script A w c wallet h) ∙ over)
