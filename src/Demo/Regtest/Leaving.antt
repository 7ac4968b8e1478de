-- ===== src/Demo/Regtest/Leaving.antt =====
-- examples/client_regtest.rs: how `main` ends.
use bdk_floresta.Prelude.{
  ℕ, ◌+◌, ◌/◌, true, false, Option, none, some, List, [], ◌∷◌, ◌≡◌, refl, subst, ap, ◌∙◌,
  Bool-cases, inl, inr, arith,
}
use bdk_floresta.Fsm.{State}
use bdk_floresta.Node.Backend.{Backend}
use bdk_floresta.Node.Local.{is_operational, get_state}
use bdk_floresta.Builder.Platform.{Platform}
use bdk_floresta.Client.Types.{ClientError}
use bdk_floresta.Client.Wallet.{WalletLib}
use bdk_floresta.Client.Monad.{Outcome, done, failed, pending}
use bdk_floresta.Client.Handle.{ScanHandle, new_handle, cancel, stop}
use bdk_floresta.Demo.Consumer.{App}
use bdk_floresta.Demo.Program.{ran-active, Setup, MainError, Script, after, after-ensures}
use bdk_floresta.Demo.Ending.{task_end, spawned_scan, Ended}
use bdk_floresta.Demo.Ending.Parted.{IsFor, new-IsFor, Parted, stop_and_leave-Parted}
use bdk_floresta.Demo.Mining.{
  Halfin, MiningError, process, watch_closed, panicked, Miner, or_default, await_operational,
  mine_blocks, mine,
}
use bdk_floresta.Demo.Mining.Tally.{count, is_external, is_internal, is_plain}
use bdk_floresta.Demo.Mining.Shares.{mine_shares}
use bdk_floresta.Demo.Regtest.{
  Booted, two_addresses, regtest_client, RegtestEnd, interrupted_end, mined, left, after_stop,
  after_mining, regtest_scan, regtest,
}

done-injective : {E A : Type 0} {a b : A} → ◌≡◌ {A = Outcome E A} (done a) (done b) → a ≡ b
done-injective h = cc

module _ {B : Backend} {Address : Type 0} (H : Halfin B Address) where
  -- So many blocks, all of them announced in their shares.
  abbrev pub Shared : ℕ → Miner B → Type 0
  Shared blocks m =
      (count is_external m.lines ≡ (blocks + 4) / 5)
      × (count is_internal m.lines + (blocks + 14) / 15 ≡ (blocks + 2) / 3)
      × (count is_external m.lines + count is_internal m.lines + count is_plain m.lines ≡ blocks)

  -- As many blocks as `BLOCKS` asks for when it is read.
  abbrev pub AllMined : Miner B → Type 0
  AllMined m = (w : B.World) × Shared (or_default (H.blocks_var w)) m

  await_operational-same :
      (states : List (Option State)) (s : State) (m : Miner B)
      → (await_operational H states s m).1 ≡ m
  unfolding await_operational
  await_operational-same [] s m = refl
  await_operational-same (none ∷ states) s m = elim (Bool-cases (is_operational s)) [
    | inl e ↦ rw e refl
    | inr e ↦ rw e refl
  ]
  await_operational-same (some t ∷ states) s m = elim (Bool-cases (is_operational s)) [
    | inl e ↦ rw e refl
    | inr e ↦ rw e (await_operational-same states t m)
  ]

  waited-AllMined :
      (bitcoind : H.BitcoinD) (utreexod : H.UtreexoD) (external internal : Address)
      (w : Outcome (MiningError H.HalfinError) (Unit {0}) × Miner B)
      → w.1.lines ≡ []
      → let r = after w (λ _ m.
        mine_blocks H bitcoind utreexod external internal
          (or_default (H.blocks_var m.node.world))
          0
          m) in
        r.0 ≡ done tt → AllMined r.1
  unfolding after
  waited-AllMined bitcoind utreexod external internal (done _, m) none_yet over =
      let blocks = or_default (H.blocks_var m.node.world) in
      let (_, _, shares) = mine_shares H bitcoind utreexod external internal blocks m none_yet in
      (m.node.world, shares over)
  waited-AllMined bitcoind utreexod external internal (failed e, m) none_yet over = cc
  waited-AllMined bitcoind utreexod external internal (pending, m) none_yet over = cc

  -- A mining that comes to its end.
  mine-AllMined :
      (bitcoind : H.BitcoinD) (utreexod : H.UtreexoD) (external internal : Address)
      (states : List (Option State)) (m : Miner B)
      → m.lines ≡ []
      → let r = mine H bitcoind utreexod external internal states m in r.0 ≡ done tt → AllMined r.1
  unfolding mine
  mine-AllMined bitcoind utreexod external internal states m none_yet over =
      let s = (get_state m.node).0 in
      waited-AllMined bitcoind utreexod external internal (await_operational H states s m)
        (ap (λ l. l.lines) (await_operational-same states s m) ∙ none_yet) over

module _ {B : Backend} {W : WalletLib B} {Address : Type 0} (H : Halfin B Address) (A : App W) where
  -- What each end of `main` leaves.
  abbrev pub RegtestLeft : W.Wallet → RegtestEnd H A → Type 0
  RegtestLeft wallet (interrupted_end x) = Parted A wallet x
  RegtestLeft wallet (mined h e m) =
      (h.token ≡ true) × (h.inner ≡ false) × (e ≡ none → AllMined H m)

module _ {B : Backend} {W : WalletLib B} {P : Platform B} {S : Setup W} (H : Halfin B S.Address)
    (A : App W) where
  after_stop-RegtestLeft :
      (wallet : W.Wallet) (e : Option (MiningError H.HalfinError)) (m : Miner B)
      (o : Outcome (ClientError B) (Unit {0}) × ScanHandle) (end : RegtestEnd H A)
      → o.1.token ≡ true
      → o.1.inner ≡ false
      → (e ≡ none → AllMined H m)
      → after_stop {P = P} {S = S} H A e m o ≡ done end
      → RegtestLeft H A wallet end
  after_stop-RegtestLeft wallet e m (done _, h) end t i k eq =
      subst (RegtestLeft H A wallet) (done-injective eq) (t, i, k)
  after_stop-RegtestLeft wallet e m (failed f, h) end t i k eq = cc
  after_stop-RegtestLeft wallet e m (pending, h) end t i k eq = cc

  after_mining-RegtestLeft :
      (wallet : W.Wallet) (r : Outcome (MiningError H.HalfinError) (Unit {0}) × Miner B)
      (o : Outcome (ClientError B) (Unit {0}) × ScanHandle) (end : RegtestEnd H A)
      → o.1.token ≡ true
      → o.1.inner ≡ false
      → (r.0 ≡ done tt → AllMined H r.1)
      → after_mining {P = P} {S = S} H A r o ≡ done end
      → RegtestLeft H A wallet end
  after_mining-RegtestLeft wallet (done _, m) o end t i k eq =
      after_stop-RegtestLeft wallet none m o end t i (λ _. k refl) eq
  after_mining-RegtestLeft wallet (failed (process f), m) o end t i k eq =
      after_stop-RegtestLeft wallet (some (process f)) m o end t i (λ e. cc) eq
  after_mining-RegtestLeft wallet (failed watch_closed, m) o end t i k eq =
      after_stop-RegtestLeft wallet (some watch_closed) m o end t i (λ e. cc) eq
  after_mining-RegtestLeft wallet (failed panicked, m) o end t i k eq = cc
  after_mining-RegtestLeft wallet (pending, m) o end t i k eq = cc

  left-Parted :
      (wallet : W.Wallet) (o : Outcome (MainError P S H.HalfinError) (Ended A))
      (end : RegtestEnd H A)
      → ((x : Ended A) → o ≡ done x → Parted A wallet x)
      → left H A o ≡ done end
      → RegtestLeft H A wallet end
  left-Parted wallet (done x) end k eq =
      subst (RegtestLeft H A wallet) (done-injective eq) (k x refl)
  left-Parted wallet (failed e) end k eq = cc
  left-Parted wallet pending end k eq = cc

  regtest_client-IsFor :
      (w w' : B.World) (b : Booted W H)
      → regtest_client P S H w ≡ (done b, w')
      → IsFor b.wallet b.client
  unfolding regtest_client
  regtest_client-IsFor w w' =
      let Q : Booted W H → Type 0 = λ b. IsFor b.wallet b.client in
      after-ensures Q _ _
        (λ _ _ w₁ b₁ _.
          after-ensures Q _ _
            (λ _ _ w₂ b₂ _.
              after-ensures Q _ _
                (λ created _ w₃ b₃ _.
                  after-ensures Q _ _
                    (λ both _ w₄ b₄ _.
                      after-ensures Q _ _
                        (λ built _ w₅ b₅ _.
                          after-ensures Q _ _
                            (λ n _ w₆ b₆ up.
                              after-ensures Q _ _
                                (λ d _ w₇ b₇ e h. subst Q (done-injective (ap (λ r. r.0) h)) (
                                  new-IsFor MainError.client n (two_addresses P S H created).1 d
                                    (ran-active {P = P} {S = S} {F = H.HalfinError} built.0 n up)
                                    e))
                                w₆ b₆)
                            w₅ b₅)
                        w₄ b₄)
                    w₃ b₃)
                w₂ b₂)
            w₁ b₁)
        w'

module _ {B : Backend} {W : WalletLib B} {P : Platform B} {S : Setup W} (H : Halfin B S.Address)
    (A : App W) where
  regtest_scan-RegtestLeft :
      (script : Script B) (states : List (Option State)) (b : Booted W H) (end : RegtestEnd H A)
      → regtest_scan {P = P} {S = S} H A script states b ≡ done end
      → RegtestLeft H A b.wallet end
  unfolding regtest_scan stop cancel
  regtest_scan-RegtestLeft script states b end eq = elim (Bool-cases script.interrupted) [
    | inl i ↦
        left-Parted {P = P} {S = S} H A b.wallet _ end
          (λ x.
            stop_and_leave-Parted {P = P} {S = S} {F = H.HalfinError} A
              (spawned_scan script b.client) b.wallet (new_handle b.client.cancellation_token) none
              x)
          (ground (arith, i, eq))
    | inr i ↦
        let m : Miner B = record { node = b.client.node; lines = [] } in
        after_mining-RegtestLeft {P = P} {S = S} H A b.wallet
          (mine H b.bitcoind b.utreexod b.external_address b.internal_address states m)
          (stop (λ token. task_end (spawned_scan script b.client token).0)
            (new_handle b.client.cancellation_token))
          end refl refl
          (mine-AllMined H b.bitcoind b.utreexod b.external_address b.internal_address states m
            refl)
          (ground (arith, i, eq))
  ]

  -- However the regtest program comes to its end without an error, it had come to its scan, and the
  -- scan's handle is cancelled and empty. After a SIGINT the tokens of node and client are
  -- cancelled too, the event channel is closed, and the consumer has had all events that the client
  -- sent, in their order, from the wallet of the start on. After a mining without an error as many
  -- blocks have been announced as `BLOCKS` asks for, or else the default, each address with its
  -- share of them.
  pub regtest_leaves :
      (script : Script B) (states : List (Option State)) (w : B.World) (end : RegtestEnd H A)
      → (regtest {P = P} {S = S} H A script states w).0 ≡ done end
      → (b : Booted W H) × ((regtest_client P S H w).0 ≡ done b) × RegtestLeft H A b.wallet end
  unfolding regtest
  regtest_leaves script states w end over =
      let r = regtest {P = P} {S = S} H A script states w in
      let whole : r ≡ (done end, r.1) = ground (arith, over) in
      let Q : RegtestEnd H A → Type 0 = λ end.
        (b : Booted W H) × ((regtest_client P S H w).0 ≡ done b) × RegtestLeft H A b.wallet end in
      after-ensures Q (regtest_client P S H w) _
        (λ b v v' end e h.
          (b, ground (arith, e), regtest_scan-RegtestLeft script states b end (ground (arith, h))))
        r.1 end whole
