-- ===== src/Demo/Signet/Leaving.antt =====
-- examples/client_signet.rs: how `main` ends.
use bdk_floresta.Prelude.{true, Bool-cases, inl, inr, none, some, [], ◌≡◌, arith, ap, ◌∙◌, ap, ◌∙◌}
use bdk_floresta.Node.Backend.{Backend}
use bdk_floresta.Builder.Platform.{Platform}
use bdk_floresta.Client.Types.{Client, ClientError}
use bdk_floresta.Client.Wallet.{WalletLib}
use bdk_floresta.Client.Monad.{Outcome, done, failed, pending}
use bdk_floresta.Client.Handle.{ScanHandle, new_handle, join}
use bdk_floresta.Client.Run.Ending.{scan_continuous_cancelled}
use bdk_floresta.Demo.Consumer.{App, Consumer}
use bdk_floresta.Demo.Program.{after-ensures, ran-active, Setup, MainError, Script, after-of_done}
use bdk_floresta.Demo.Ending.Left.{stop_and_leave-ends}
use bdk_floresta.Demo.Ending.Parted.{IsFor, given-IsFor, Parted, stop_and_leave-Parted}
use bdk_floresta.Demo.Ending.{task_end, scan_params, Ended, scan_alone, spawned_scan}
use bdk_floresta.Demo.Signet.{signet_client, after_join, signet_scan, signet}

module _ {B : Backend} {W : WalletLib B} {P : Platform B} {S : Setup W} {F : Type 0} where
  pub signet_client-IsFor :
      (w w' : B.World) (pair : Client W × W.Wallet)
      → signet_client P S {F = F} w ≡ (done pair, w')
      → IsFor pair.1 pair.0
  unfolding signet_client
  signet_client-IsFor w w' =
      let Q : Client W × W.Wallet → Type 0 = λ p. IsFor p.1 p.0 in
      after-ensures Q _ _
        (λ _ _ w₁ p _.
          after-ensures Q _ _
            (λ _ _ w₂ p₁ _.
              after-ensures Q _ _
                (λ built _ w₃ p₂ _.
                  after-ensures Q _ _
                    (λ n _ w₄ p₃ up.
                      after-ensures Q _ _
                        (λ v w₅ w₆ p₄ _.
                          given-IsFor MainError.client n v w₅ w₆ p₄
                            (ran-active {P = P} {S = S} {F = F} built.0 n up))
                        w₄ p₃)
                    w₃ p₂)
                w₂ p₁)
            w₁ p)
        w'

  -- What `main` comes to once its client is there.
  pub signet-scan :
      (script : Script B) (A : App W) (w : B.World) (c : Client W) (wallet : W.Wallet)
      → (signet_client P S {F = F} w).0 ≡ done (c, wallet)
      → (signet {P = P} {S = S} {F = F} A script w).0
        ≡ signet_scan {P = P} {S = S} {F = F} A script c wallet
  unfolding signet
  signet-scan script A w c wallet h =
      ap (λ r. r.0) (after-of_done (signet_client P S {F = F} w) _ (c, wallet) h)

  -- If the signet program comes to its scan, then a SIGINT that comes while it scans lets it run to
  -- its end without an error, wherever the scan stands.
  pub signet_interrupted :
      (A : App W) (script : Script B) (w : B.World) (c : Client W) (wallet : W.Wallet)
      → (signet_client P S {F = F} w).0 ≡ done (c, wallet)
      → script.interrupted ≡ true
      → (x : Ended A) × ((signet {P = P} {S = S} {F = F} A script w).0 ≡ done x)
  unfolding signet_scan
  signet_interrupted A script w c wallet h i =
      let (e, over) = scan_continuous_cancelled script.wakes scan_params script.blocks c in
      let k : Consumer A = record { wallet = wallet; lines = [] } in
      let (x, ends) =
        stop_and_leave-ends A {P = P} {S = S} {F = F} (spawned_scan script c)
          (new_handle c.cancellation_token) k none (rw over tt) in
      (x, signet-scan script A w c wallet h ∙ rw i ends)

module _ {B : Backend} {W : WalletLib B} {P : Platform B} {S : Setup W} {F : Type 0}
    (A : App W) where
  after_join-Parted :
      (s : Outcome (ClientError B) (Unit {0}) × Client W) (wallet : W.Wallet)
      (r : Outcome (ClientError B) (Unit {0}) × ScanHandle) (x : Ended A)
      → after_join {P = P} {S = S} {F = F} A s (record { wallet = wallet; lines = [] }) r ≡ done x
      → Parted A wallet x
  after_join-Parted s wallet (done _, h) x eq =
      stop_and_leave-Parted {P = P} {S = S} {F = F} A (λ _. s) wallet h none x eq
  after_join-Parted s wallet (failed e, h) x eq =
      stop_and_leave-Parted {P = P} {S = S} {F = F} A (λ _. s) wallet h (some e) x eq
  after_join-Parted s wallet (pending, h) x eq = cc

  signet_scan-Parted :
      (script : Script B) (c : Client W) (wallet : W.Wallet) (x : Ended A)
      → signet_scan {P = P} {S = S} {F = F} A script c wallet ≡ done x
      → Parted A wallet x
  unfolding signet_scan
  signet_scan-Parted script c wallet x eq = elim (Bool-cases script.interrupted) [
    | inl i ↦
        stop_and_leave-Parted {P = P} {S = S} {F = F} A (spawned_scan script c) wallet
          (new_handle c.cancellation_token) none x (ground (arith, i, eq))
    | inr i ↦
        after_join-Parted (scan_alone script c) wallet
          (join (task_end (scan_alone script c).0) (new_handle c.cancellation_token)) x
          (ground (arith, i, eq))
  ]

  -- However the signet program comes to its end without an error, by a SIGINT or by the end of its
  -- scan, it had created its client and wallet; and then the scan's handle is cancelled and empty,
  -- the node's token and the client's are cancelled, the event channel is closed, and the consumer
  -- has had all events that the client sent, in their order, from that wallet on.
  pub signet_leaves :
      (script : Script B) (w : B.World) (x : Ended A)
      → (signet {P = P} {S = S} {F = F} A script w).0 ≡ done x
      → (c : Client W) × (wallet : W.Wallet) × ((signet_client P S {F = F} w).0 ≡ done (c, wallet))
        × Parted A wallet x
  unfolding signet
  signet_leaves script w x over =
      let r = signet {P = P} {S = S} {F = F} A script w in
      let whole : r ≡ (done x, r.1) = ground (arith, over) in
      let Q : Ended A → Type 0 = λ x.
        (c : Client W) × (wallet : W.Wallet) × ((signet_client P S {F = F} w).0 ≡ done (c, wallet))
        × Parted A wallet x in
      after-ensures Q (signet_client P S {F = F} w) _
        (λ (c, wallet) v v' x e h.
          (c, wallet, ground (arith, e), signet_scan-Parted script c wallet x (ground (arith, h))))
        r.1 x whole
