-- ===== src/Demo/Regtest/Running.antt =====
-- examples/client_regtest.rs: `main` does not wait for ever.
use bdk_floresta.Prelude.{
  true, Option, none, List, [], ◌≡◌, ◌≢◌, ◌⊎◌, refl, subst, Bool-cases, inl, inr, arith,
}
use bdk_floresta.Fsm.{State}
use bdk_floresta.Node.Backend.{Backend}
use bdk_floresta.Node.Local.{get_state}
use bdk_floresta.Builder.Platform.{Platform}
use bdk_floresta.Client.Types.{ClientError}
use bdk_floresta.Client.Wallet.{WalletLib}
use bdk_floresta.Client.Monad.{Outcome, done, failed, pending}
use bdk_floresta.Client.Scan.Settled.{Settled}
use bdk_floresta.Client.Handle.{ScanHandle, new_handle, cancel, stop}
use bdk_floresta.Client.Run.Ending.{scan_continuous_cancelled}
use bdk_floresta.Demo.Consumer.{App, Consumer}
use bdk_floresta.Demo.Program.{Setup, Script}
use bdk_floresta.Demo.Ending.{task_end, scan_params, spawned_scan}
use bdk_floresta.Demo.Ending.Left.{stop_and_leave-ends}
use bdk_floresta.Demo.Mining.{
  Halfin, MiningError, process, watch_closed, panicked, Miner, or_default, await_operational, mine,
}
use bdk_floresta.Demo.Mining.Rounds.{after-Settled, mine_blocks-Settled}
use bdk_floresta.Demo.Regtest.{Booted, interrupted_end, after_mining, regtest_scan}

not_pending : {E A : Type 0} (o : Outcome E A) → o ≢ pending → Settled o
not_pending (done a) h = tt
not_pending (failed e) h = tt
not_pending pending h = elim (h refl) [ ]

module _ {B : Backend} {W : WalletLib B} {Address : Type 0} (H : Halfin B Address) where
  -- The stop of a scan whose token it has cancelled.
  stop-Settled :
      (script : Script B) (b : Booted W H) (h : ScanHandle)
      → Settled (stop (λ token. task_end (spawned_scan script b.client token).0) h).0
  unfolding stop cancel
  stop-Settled script b h =
      let (e, over) = scan_continuous_cancelled script.wakes scan_params script.blocks b.client in
      rw over (ground arith)

  -- The branch that mines, once its wait for the node is over.
  mine-Settled :
      (b : Booted W H) (states : List (Option State)) (m : Miner B)
      → Settled (await_operational H states (get_state m.node).0 m).0
      → Settled (mine H b.bitcoind b.utreexod b.external_address b.internal_address states m).0
  unfolding mine
  mine-Settled b states m s = after-Settled _ _ s λ _ n.
      mine_blocks-Settled H b.bitcoind b.utreexod b.external_address b.internal_address
        (or_default (H.blocks_var n.node.world)) 0 n

module _ {B : Backend} {W : WalletLib B} (P : Platform B) (S : Setup W) (H : Halfin B S.Address)
    (A : App W) where
  after_mining-Settled :
      (r : Outcome (MiningError H.HalfinError) (Unit {0}) × Miner B)
      (o : Outcome (ClientError B) (Unit {0}) × ScanHandle)
      → Settled r.0
      → Settled o.0
      → Settled (after_mining {P = P} {S = S} H A r o)
  after_mining-Settled (pending, m) o s t = elim s [ ]
  after_mining-Settled (r, m) (pending, h) s t = elim t [ ]
  after_mining-Settled (failed panicked, m) (done _, h) s t = tt
  after_mining-Settled (failed panicked, m) (failed _, h) s t = tt
  after_mining-Settled (failed (process f), m) (done _, h) s t = tt
  after_mining-Settled (failed (process f), m) (failed _, h) s t = tt
  after_mining-Settled (failed watch_closed, m) (done _, h) s t = tt
  after_mining-Settled (failed watch_closed, m) (failed _, h) s t = tt
  after_mining-Settled (done _, m) (done _, h) s t = tt
  after_mining-Settled (done _, m) (failed _, h) s t = tt

module _ {B : Backend} {W : WalletLib B} {P : Platform B} {S : Setup W} (H : Halfin B S.Address)
    (A : App W) where
  -- Once it has come to its scan, the regtest program does not wait for ever, if a SIGINT comes or
  -- if its wait for the node to be operational ends; each call of the other processes is one that
  -- answers.
  pub regtest_ends :
      (script : Script B) (states : List (Option State)) (b : Booted W H)
      → (script.interrupted ≡ true)
        ⊎ ((await_operational H states
              (get_state b.client.node).0
              (record { node = b.client.node; lines = [] })).0
            ≢ pending)
      → regtest_scan {P = P} {S = S} H A script states b ≢ pending
  unfolding regtest_scan
  regtest_ends script states b h waits =
      let c = b.client in
      let task = spawned_scan script c in
      let handle = new_handle c.cancellation_token in
      let m : Miner B = record { node = c.node; lines = [] } in
      let k : Consumer A = record { wallet = b.wallet; lines = [] } in
      let (e, over) = scan_continuous_cancelled script.wakes scan_params script.blocks c in
      let (x, ends) =
        stop_and_leave-ends A {P = P} {S = S} {F = H.HalfinError} task handle k none (rw over tt) in
      elim (Bool-cases script.interrupted) [
        | inl i ↦
            let finished : regtest_scan {P = P} {S = S} H A script states b
                ≡ done (interrupted_end x) =
              rw (i, ends) refl in
            cc
        | inr i ↦
            let o = (await_operational H states (get_state m.node).0 m).0 in
            let there : o ≢ pending = elim h [ inl j ↦ cc | inr j ↦ j ] in
            subst Settled waits (
              rw i (
                after_mining-Settled P S H A
                  (mine H b.bitcoind b.utreexod b.external_address b.internal_address states m)
                  (stop (λ token. task_end (task token).0) handle)
                  (mine-Settled H b states m (not_pending o there))
                  (stop-Settled H script b handle)))
      ]
