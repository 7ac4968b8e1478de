-- ===== src/Examples/Programs.antt =====
-- The tasks of the example programs on the toy chain.
use bdk_floresta.Prelude.{ap, sym, ℕ, none, some, String, List, [], ◌∷◌, ok, ◌≡◌, refl}
use bdk_floresta.Fsm.{active, operational}
use bdk_floresta.Node.{Action, pinging, matching_filters}
use bdk_floresta.Client.Types.{Update, custom}
use bdk_floresta.Client.Run.{scan_continuous}
use bdk_floresta.Client.Run.Watch.{all_received}
use bdk_floresta.Demo.Consumer.{WalletEvent, App, Consumer, chain_tip_changed, consume}
use bdk_floresta.Client.Types.{ScanEvent, wallet_update, finished, error}
use bdk_floresta.Demo.Consumer.Follow.{AllApplied, consumer_follows}
use bdk_floresta.Demo.Lines.{log_states, log_changes, log_actions}
use bdk_floresta.Examples.Fixture.{crates, library, client}

-- The toy wallet is the height of its checkpoint.
abbrev taken_over : Update library → ℕ → ℕ
taken_over update wallet = elim update.chain [ none ↦ wallet | some cp ↦ cp ]

abbrev pub app : App library
app = record {
  ApplyError = Unit {0};
  apply_update_events = λ update wallet.
      (ok (chain_tip_changed (taken_over update wallet) 0 ∷ []), taken_over update wallet);
  total_balance = λ wallet. 0;
}

abbrev consumer : Consumer app
consumer = record { wallet = 0; lines = [] }

pub app-follows :
    (u : Update library) (wallet wallet' : ℕ) (events : List (WalletEvent crates))
    → app.apply_update_events u wallet ≡ (ok events, wallet')
    → wallet' ≡ taken_over u wallet
app-follows u wallet wallet' events e = sym (ap (λ r. r.1) e)

pub app-AllApplied : (es : List (ScanEvent library)) (k : Consumer app) → AllApplied app es k
app-AllApplied [] k = tt
app-AllApplied (wallet_update u ∷ es) k = ((_, _, refl), app-AllApplied es _)
app-AllApplied (finished _ ∷ es) k = app-AllApplied es _
app-AllApplied (error _ ∷ es) k = tt

consumer_follows_example :
    (consume app
      (scan_continuous [] (custom 0 5) (all_received ((11, 11) ∷ (4, 4) ∷ [])) client).1.sent
      consumer).wallet
    ≡ (scan_continuous [] (custom 0 5) (all_received ((11, 11) ∷ (4, 4) ∷ [])) client).1.checkpoint
consumer_follows_example =
    consumer_follows app app-follows (λ w. refl) consumer [] (custom 0 5)
      (all_received ((11, 11) ∷ (4, 4) ∷ [])) client refl refl refl
      (app-AllApplied
        (scan_continuous [] (custom 0 5) (all_received ((11, 11) ∷ (4, 4) ∷ [])) client).1.sent
        consumer)

abbrev show : Action crates → String
show pinging = "Pinging"
show _ = "Other"

abbrev seen : List (List (Action crates))
seen = [] ∷ (pinging ∷ []) ∷ (pinging ∷ []) ∷ (pinging ∷ matching_filters ∷ []) ∷ []

log_actions_test : log_actions show seen ≡ "Pinging" ∷ "Pinging, Other" ∷ []
unfolding log_actions log_changes
log_actions_test = refl

log_states_test :
    log_states (active ∷ operational ∷ [])
    ≡ "> NODE STATE: Active" ∷ "> NODE STATE: Operational" ∷ []
unfolding log_states
log_states_test = refl
