-- ===== src/Examples/Interrupted.antt =====
-- The signet program on the toy chain, interrupted after it has scanned and has received a block.
use bdk_floresta.Prelude.{ℕ, ◌≤◌, true, List, [], ◌∷◌, ◌≡◌, refl}
use bdk_floresta.Fsm.{operational}
use bdk_floresta.Client.Monad.{done}
use bdk_floresta.Client.Run.{changed, wait_until_ready}
use bdk_floresta.Client.Run.Watch.{all_received}
use bdk_floresta.Client.Run.Replaced.{AllAtMost}
use bdk_floresta.Node.Poll.{poll}
use bdk_floresta.Client.Scan.{derive_for}
use bdk_floresta.Client.Spks.{derive_spks_with_custom_lookahead, take_spks}
use bdk_floresta.Node.Lifecycle.Calls.{run}
use bdk_floresta.Demo.Consumer.{consume}
use bdk_floresta.Demo.Program.{Script}
use bdk_floresta.Demo.Ending.{scan_params, Ended}
use bdk_floresta.Demo.Signet.{signet}
use bdk_floresta.Demo.Signet.CatchUp.{signet_catches_up}
use bdk_floresta.Demo.Signet.Serving.{first_view, scanned, signet_serves}
use bdk_floresta.Examples.Fixture.{crates, library}
use bdk_floresta.Examples.Building.{machine}
use bdk_floresta.Examples.Programs.{app, app-follows, app-AllApplied}
use bdk_floresta.Examples.Serving.{healthy, synchronised}
use bdk_floresta.Examples.Scans.{insert_above}
use bdk_floresta.Examples.Mains.{setup, waiting, signet_client-created}

abbrev all_spks : List ℕ
all_spks = take_spks library 1003 100

waits_over : (wait_until_ready (changed operational ∷ []) waiting).0 ≡ done tt
unfolding wait_until_ready run
waits_over = refl

all_derived : (derive_for scan_params waiting).0 ≡ done all_spks
unfolding derive_for derive_spks_with_custom_lookahead take_spks
all_derived = refl

abbrev interrupted : Script crates
interrupted = record {
  wakes = changed operational ∷ [];
  blocks = all_received ((11, 11) ∷ []);
  interrupted = true;
}

signet_serves_example :
    (x : Ended app) × ((signet {P = machine} {S = setup} {F = ⊥} app interrupted 0).0 ≡ done x)
    × (x.client.checkpoint
        ≡ (scanned healthy all_spks ((11, 11) ∷ []) (first_view healthy 1)).checkpoint)
    × (x.client.sent ≡ (scanned healthy all_spks ((11, 11) ∷ []) (first_view healthy 1)).sent)
    × (x.consumer
        ≡ consume app
            (scanned healthy all_spks ((11, 11) ∷ []) (first_view healthy 1)).sent
            (record { wallet = 1; lines = [] }))
signet_serves_example =
    signet_serves {P = machine} {S = setup} {F = ⊥} app healthy (changed operational ∷ [])
      ((11, 11) ∷ []) all_spks 0 waiting 1 signet_client-created waits_over all_derived

-- The program is woken by a round of polling.
abbrev polled : Script crates
polled = record {
  wakes = changed (poll waiting.node).0.state ∷ [];
  blocks = all_received ((11, 11) ∷ []);
  interrupted = true;
}

signet_catches_up_example :
    (x : Ended app) × ((signet {P = machine} {S = setup} {F = ⊥} app polled 0).0 ≡ done x)
    × (10 ≤ x.consumer.wallet)
    × AllAtMost {A = ℕ} x.consumer.wallet ((11, 11) ∷ [])
signet_catches_up_example =
    signet_catches_up {P = machine} {S = setup} {F = ⊥} app app-follows insert_above healthy
      synchronised ((11, 11) ∷ []) all_spks 0 waiting 1 signet_client-created refl all_derived
      (app-AllApplied (scanned healthy all_spks ((11, 11) ∷ []) (first_view healthy 1)).sent
        (record { wallet = 1; lines = [] }))
