-- ===== src/Client/Run/Ending.antt =====
-- src/client/mod.rs: a continuous scan whose token is cancelled, wherever it stands.
use bdk_floresta.Prelude.{
  ap, ◌⊎◌, ◌≢◌, ℕ, Bool, some, true, List, [], ◌∷◌, ◌++◌, ◌≡◌, refl, leb, Bool-cases, Option-cases,
  inl, inr, arith,
}
use bdk_floresta.Fsm.{State}
use bdk_floresta.Node.Backend.{Backend}
use bdk_floresta.Node.Local.{get_state}
use bdk_floresta.Client.Types.{Forwarding, Client, ClientError, ScanKind}
use bdk_floresta.Client.Wallet.{WalletLib}
use bdk_floresta.Client.Monad.{continue, Outcome, done, failed, pending}
use bdk_floresta.Client.Update.{abort_if_cancelled, cancelled_now, send_event, apply_block}
use bdk_floresta.Client.Forward.{on_block, enable}
use bdk_floresta.Client.Scan.{scan_inner}
use bdk_floresta.Client.Scan.Settled.{
  Settled, HasFailed, Settles, continue-Settled, continue-HasFailed, abort_if_cancelled-Settles,
  send_event-Settles, publish-Settles, scan_inner-Settles,
}
use bdk_floresta.Client.Run.{
  forwarded, still_waiting, StateWake, changed, sender_dropped, verdict, observe, await_change,
  await_ready, wait_until_ready, report, BlockWake, received, channel_closed, receive_block,
  watch_blocks, enable_block_forwarding, with_guard, scan_continuous,
}

-- The wake-ups of the wait for the node, and of the wait for blocks, with a cancelled token behind
-- them.
abbrev pub then_cancelled : List StateWake → List StateWake
then_cancelled wakes = wakes ++ StateWake.cancelled ∷ []

abbrev pub blocks_then_cancelled : {B : Backend} → List (BlockWake B) → List (BlockWake B)
blocks_then_cancelled blocks = blocks ++ BlockWake.cancelled ∷ []

List-cases :
    {A : Type 0} (as' : List A) → (as' ≡ []) ⊎ ((a : A) × (rest : List A) × (as' ≡ a ∷ rest))
List-cases [] = inl refl
List-cases (a ∷ rest) = inr (a, rest, refl)

of_HasFailed : {E A : Type 0} (o : Outcome E A) → HasFailed o → (e : E) × (o ≡ failed e)
of_HasFailed (done a) h = elim h [ ]
of_HasFailed (failed e) h = (e, refl)
of_HasFailed pending h = elim h [ ]

verdict-Settled :
    {B : Backend} (r : Outcome (ClientError B) (Unit {0})) (s : State)
    → verdict {B = B} s ≡ some r
    → Settled r
verdict-Settled r s h = ground arith

module _ {B : Backend} where
  -- The sink passes a cancelled token behind the blocks on.
  forwarded-cancelled :
      (blocks : List (BlockWake B)) (f : Forwarding B)
      → (found : List (BlockWake B)) × (forwarded f (blocks_then_cancelled blocks)
          ≡ blocks_then_cancelled found)
  unfolding forwarded
  forwarded-cancelled [] f = ([], refl)
  forwarded-cancelled (BlockWake.cancelled ∷ blocks) f =
      let (found, e) = forwarded-cancelled blocks f in
      (BlockWake.cancelled ∷ found, ap (λ ws. BlockWake.cancelled ∷ ws) e)
  forwarded-cancelled (channel_closed ∷ blocks) f =
      let (found, e) = forwarded-cancelled blocks f in
      (channel_closed ∷ found, ap (λ ws. channel_closed ∷ ws) e)
  forwarded-cancelled (received block height ∷ blocks) f =
      elim (List-cases (on_block block height f).queue) [
        | inl e ↦ rw (e, forwarded) (forwarded-cancelled blocks f)
        | inr ((b, h), rest, e) ↦
            let (found, g) = forwarded-cancelled blocks (record f { queue = rest }) in
            rw (e, forwarded) (received b h ∷ found, ap (λ ws. received b h ∷ ws) g)
      ]

module _ {B : Backend} {W : WalletLib B} where
  report-Settled :
      (keep_going : Bool) (r : Outcome (ClientError B) (Unit {0}) × Client W)
      → Settled r.0
      → Settled (report keep_going r).0
  unfolding report
  report-Settled keep_going (pending, c) h = elim h [ ]
  report-Settled keep_going (done tt, c) h =
      continue-Settled (send_event _ c) _ (send_event-Settles _ c) λ _ d. tt
  report-Settled keep_going (failed e, c) h =
      continue-Settled (send_event _ c) _ (send_event-Settles _ c) λ _ d. tt

  await_change-Settles :
      (wakes : List StateWake) → Settles {W = W} (await_change (then_cancelled wakes))
  unfolding await_change
  await_change-Settles [] c = tt
  await_change-Settles (StateWake.cancelled ∷ wakes) c = tt
  await_change-Settles (sender_dropped ∷ wakes) c = tt
  await_change-Settles (changed s ∷ wakes) c = elim (Option-cases (verdict {B = B} s)) [
    | inl e ↦ rw (e, await_change) (await_change-Settles wakes (observe s c))
    | inr (r, e) ↦ rw (e, await_change) (verdict-Settled r s e)
  ]

  wait_until_ready-Settles :
      (wakes : List StateWake) → Settles {W = W} (wait_until_ready (then_cancelled wakes))
  unfolding wait_until_ready
  wait_until_ready-Settles wakes c =
      let (s, n) = get_state c.node in
      elim (Option-cases (verdict {B = B} s)) [
        | inl e ↦ rw (e, await_ready) (await_change-Settles wakes (record c { node = n }))
        | inr (r, e) ↦ rw (e, await_ready) (verdict-Settled r s e)
      ]

  still_waiting-not_done :
      (c : Client W) → (continue (abort_if_cancelled c) (λ _. still_waiting)).0 ≢ done tt
  unfolding abort_if_cancelled continue
  still_waiting-not_done c h = elim (Bool-cases (cancelled_now c)) [
    | inl e ↦ cc (rw e at h)
    | inr e ↦ cc (rw e at h)
  ]

  await_change-then_cancelled :
      (wakes : List StateWake) (c : Client W)
      → (await_change wakes c).0 ≡ done tt
      → await_change (then_cancelled wakes) c ≡ await_change wakes c
  unfolding await_change
  await_change-then_cancelled [] c h = elim (still_waiting-not_done c h) [ ]
  await_change-then_cancelled (StateWake.cancelled ∷ wakes) c h = refl
  await_change-then_cancelled (sender_dropped ∷ wakes) c h = refl
  await_change-then_cancelled (changed s ∷ wakes) c h = elim (Option-cases (verdict {B = B} s)) [
    | inl e ↦
        rw (e, await_change)
          (await_change-then_cancelled wakes (observe s c) (rw (e, await_change) at h))
    | inr (r, e) ↦ rw (e, await_change)
  ]

  -- A cancellation that comes after a wait is over changes nothing of it.
  pub wait_until_ready-then_cancelled :
      (wakes : List StateWake) (c : Client W)
      → (wait_until_ready wakes c).0 ≡ done tt
      → wait_until_ready (then_cancelled wakes) c ≡ wait_until_ready wakes c
  unfolding wait_until_ready
  wait_until_ready-then_cancelled wakes c h =
      let (s, n) = get_state c.node in
      elim (Option-cases (verdict {B = B} s)) [
        | inl e ↦
            rw (e, await_ready)
              (await_change-then_cancelled wakes (record c { node = n }) (rw (e, await_ready) at h))
        | inr (r, e) ↦ rw (e, await_ready)
      ]

  receive_block-Settles :
      (block : B.Block) (height : ℕ) → Settles {W = W} (receive_block block height)
  unfolding receive_block apply_block
  receive_block-Settles block height c = elim (Bool-cases (leb height (W.height c.checkpoint))) [
    | inl known ↦ rw known tt
    | inr new ↦ rw new (
        continue-Settled (apply_block block height c) _ tt
          λ _. publish-Settles height (B.block_hash block))
  ]

  watch_blocks-HasFailed :
      (blocks : List (BlockWake B)) (c : Client W)
      → HasFailed (watch_blocks (blocks_then_cancelled blocks) c).0
  unfolding watch_blocks
  watch_blocks-HasFailed [] c = tt
  watch_blocks-HasFailed (BlockWake.cancelled ∷ blocks) c = tt
  watch_blocks-HasFailed (channel_closed ∷ blocks) c =
      continue-HasFailed (abort_if_cancelled c) _ (abort_if_cancelled-Settles c) λ _ d. tt
  watch_blocks-HasFailed (received block height ∷ blocks) c =
      continue-HasFailed (abort_if_cancelled c) _ (abort_if_cancelled-Settles c) λ _ d.
        continue-HasFailed (receive_block block height d) _ (receive_block-Settles block height d)
          λ _. watch_blocks-HasFailed blocks

  enable_block_forwarding-Settles : Settles {W = W} enable_block_forwarding
  unfolding enable_block_forwarding
  enable_block_forwarding-Settles c = elim (Option-cases (enable c.forwarding)) [
    | inl e ↦ rw (e, enable_block_forwarding) tt
    | inr (f, e) ↦ rw (e, enable_block_forwarding) tt
  ]

  with_guard-HasFailed :
      (r : Outcome (ClientError B) (Unit {0}) × Client W)
      → HasFailed r.0
      → HasFailed (with_guard r).0
  unfolding with_guard
  with_guard-HasFailed (pending, c) h = elim h [ ]
  with_guard-HasFailed (done tt, c) h = elim h [ ]
  with_guard-HasFailed (failed e, c) h = tt

  -- A continuous scan whose token is cancelled after whatever states and blocks have come ends, and
  -- it ends in an error, also if it has not got past its wait for the node or its first scan.
  pub scan_continuous_cancelled :
      (wakes : List StateWake) (kind : ScanKind) (blocks : List (BlockWake B)) (c : Client W)
      → (e : ClientError B) × ((scan_continuous
            (then_cancelled wakes)
            kind
            (blocks_then_cancelled blocks)
            c).0
          ≡ failed e)
  unfolding scan_continuous
  scan_continuous_cancelled wakes kind blocks c = of_HasFailed _ (
      continue-HasFailed (wait_until_ready (then_cancelled wakes) c) _
        (wait_until_ready-Settles wakes c)
        λ _ d.
          continue-HasFailed (enable_block_forwarding d) _ (enable_block_forwarding-Settles d)
            λ _ e. with_guard-HasFailed _ (
              continue-HasFailed (report true (scan_inner kind e)) _
                (report-Settled true (scan_inner kind e) (scan_inner-Settles kind e))
                λ _.
                  let (found, same) = forwarded-cancelled blocks e.forwarding in
                  rw same (watch_blocks-HasFailed found)))

-- The call has not succeeded.
abbrev pub Unfinished : {E A : Type 0} → Outcome E A → Type 0
Unfinished (done _) = ⊥
Unfinished (failed _) = Unit {0}
Unfinished pending = Unit {0}

module _ {B : Backend} {W : WalletLib B} where
  -- A chain does not succeed if its rest never does.
  continue-Unfinished :
      {A C : Type 0} (r : Outcome (ClientError B) A × Client W)
      (f : A → Client W → Outcome (ClientError B) C × Client W)
      → ((a : A) (c : Client W) → Unfinished (f a c).0)
      → Unfinished (continue r f).0
  unfolding continue
  continue-Unfinished (done a, c) f k = k a c
  continue-Unfinished (failed e, c) f k = tt
  continue-Unfinished (pending, c) f k = tt

  watch_blocks-Unfinished :
      (blocks : List (BlockWake B)) (c : Client W) → Unfinished (watch_blocks blocks c).0
  unfolding watch_blocks
  watch_blocks-Unfinished [] c =
      continue-Unfinished (abort_if_cancelled c) (λ _. still_waiting) λ _ d. tt
  watch_blocks-Unfinished (BlockWake.cancelled ∷ blocks) c = tt
  watch_blocks-Unfinished (channel_closed ∷ blocks) c =
      continue-Unfinished (abort_if_cancelled c) _ λ _ d. tt
  watch_blocks-Unfinished (received block height ∷ blocks) c =
      continue-Unfinished (abort_if_cancelled c) _ λ _ d.
        continue-Unfinished (receive_block block height d) _ λ _. watch_blocks-Unfinished blocks

  with_guard-Unfinished :
      (r : Outcome (ClientError B) (Unit {0}) × Client W)
      → Unfinished r.0
      → Unfinished (with_guard r).0
  unfolding with_guard
  with_guard-Unfinished (pending, c) h = tt
  with_guard-Unfinished (done tt, c) h = elim h [ ]
  with_guard-Unfinished (failed e, c) h = tt

  -- A continuous scan never succeeds: it goes on, or it fails.
  pub scan_continuous-Unfinished :
      (wakes : List StateWake) (kind : ScanKind) (blocks : List (BlockWake B)) (c : Client W)
      → Unfinished (scan_continuous wakes kind blocks c).0
  unfolding scan_continuous
  scan_continuous-Unfinished wakes kind blocks c =
      continue-Unfinished (wait_until_ready wakes c) _ λ _ d.
        continue-Unfinished (enable_block_forwarding d) _ λ _ e. with_guard-Unfinished _ (
          continue-Unfinished (report true (scan_inner kind e)) _
            λ _. watch_blocks-Unfinished (forwarded e.forwarding blocks))
