-- ===== src/Demo/Consumer/Follow.antt =====
-- examples/client_regtest.rs, examples/client_signet.rs and src/client/mod.rs: the wallet that
-- consumes a scan's events, and the client's checkpoint.
use bdk_floresta.Prelude.{
  ℕ, true, String, none, some, List, [], ◌∷◌, ◌++◌, ok, ◌≡◌, refl, ap, ◌∙◌, sym, subst, Bool,
}
use bdk_floresta.Node.Backend.{Backend}
use bdk_floresta.Client.Types.{
  Client, ClientError, ScanKind, ScanEvent, Update, wallet_update, finished, error,
  show_client_error,
}
use bdk_floresta.Client.Wallet.{WalletLib, attached}
use bdk_floresta.Client.Monad.{Outcome, done, failed, pending, continue}
use bdk_floresta.Client.Update.{publish, finish_update}
use bdk_floresta.Client.Scan.{scan_inner}
use bdk_floresta.Client.Scan.Bind.{continue-leads}
use bdk_floresta.Client.Scan.Kept.{Keeps, Stable, scan_inner-Keeps}
use bdk_floresta.Client.Scan.InStep.{
  wallet_tip, InStep, InStep-Stable, send_event-attached, wallet_tip-append,
}
use bdk_floresta.Client.Run.{
  forwarded, StateWake, BlockWake, report, wait_until_ready, enable_block_forwarding, with_guard,
  watch_blocks, scan_continuous,
}
use bdk_floresta.Client.Run.Kept.{
  wait_until_ready-Keeps, enable_block_forwarding-Keeps, watch_blocks-Keeps,
}
use bdk_floresta.Demo.Consumer.{
  WalletEvent, App, Consumer, applied, log, scanned_up_to_tip, consume,
}

module _ {B : Backend} (W : WalletLib B) where
  -- No event is an error.
  abbrev NoErrors : List (ScanEvent W) → Type 0
  NoErrors [] = Unit {0}
  NoErrors (wallet_update _ ∷ events) = NoErrors events
  NoErrors (finished _ ∷ events) = NoErrors events
  NoErrors (error _ ∷ events) = ⊥

  NoErrors-append : (es fs : List (ScanEvent W)) → NoErrors es → NoErrors fs → NoErrors (es ++ fs)
  NoErrors-append [] fs h k = k
  NoErrors-append (wallet_update _ ∷ es) fs h k = NoErrors-append es fs h k
  NoErrors-append (finished _ ∷ es) fs h k = NoErrors-append es fs h k
  NoErrors-append (error _ ∷ es) fs h k = elim h [ ]

module _ {B : Backend} (W : WalletLib B) (tip : W.CheckPoint)
    (stays : (w : B.World) → W.event_tx_now w attached ≡ attached) where
  -- Client and wallet are in step, and no error was sent.
  abbrev Clean : Client W → Type 0
  Clean c = InStep W tip c × NoErrors W c.sent

  publish-Clean : (height : ℕ) (hash : B.Hash) → Keeps W Clean (publish height hash)
  unfolding publish finish_update
  publish-Clean height hash c s =
      let S = InStep-Stable W tip stays in
      let (u, d) =
        finish_update (record c { checkpoint = W.insert_block height hash c.checkpoint }) in
      let sends = send_event-attached W tip stays (wallet_update u) d s.0.1 in
      (
        S.publish_kept height hash c s.0,
        subst (λ r. NoErrors W r.1.sent) (sym sends)
            (NoErrors-append W c.sent (wallet_update u ∷ []) s.1 tt),
      )

  -- The event of a finished scan.
  abbrev pub noted : ScanEvent W → Client W → Client W
  noted event c = record c { event_tx = attached; sent = c.sent ++ event ∷ [] }

  finished-Clean :
      (keep_going : Bool) (c : Client W) → Clean c → Clean (noted (finished keep_going) c)
  finished-Clean keep_going c s = (
    (wallet_tip-append W tip c.sent (finished keep_going ∷ []) ∙ s.0.0, refl),
    NoErrors-append W c.sent (finished keep_going ∷ []) s.1 tt,
  )

  Clean-Stable : Stable W Clean
  Clean-Stable = record { free = λ c d a b e s. rw (a, b, e) s; publish_kept = publish-Clean }

module _ {B : Backend} {W : WalletLib B} (A : App W) where
  -- Each update up to the first error is applied to the wallet without an error.
  abbrev pub AllApplied : List (ScanEvent W) → Consumer A → Type 0
  AllApplied [] k = Unit {0}
  AllApplied (wallet_update u ∷ events) k =
      ((ws : List (WalletEvent B)) × (wallet : W.Wallet) × (A.apply_update_events u k.wallet
          ≡ (ok ws, wallet)))
      × AllApplied events (applied A (A.apply_update_events u k.wallet) k)
  AllApplied (finished _ ∷ events) k = AllApplied events (log A (scanned_up_to_tip ∷ []) k)
  AllApplied (error _ ∷ events) k = Unit {0}

module _ {B : Backend} {W : WalletLib B} (A : App W)
    (follows : (u : Update W) (wallet wallet' : W.Wallet) (events : List (WalletEvent B))
      → A.apply_update_events u wallet ≡ (ok events, wallet')
      → W.latest_checkpoint wallet'
        ≡ elim u.chain [ none ↦ W.latest_checkpoint wallet | some cp ↦ cp ]) where
  consume-tip :
      (es : List (ScanEvent W)) (k : Consumer A)
      → NoErrors W es
      → AllApplied A es k
      → W.latest_checkpoint (consume A es k).wallet ≡ wallet_tip W (W.latest_checkpoint k.wallet) es
  unfolding consume
  consume-tip [] k h l = refl
  consume-tip (wallet_update u ∷ es) k h ((events, wallet, e), l) =
      let r = A.apply_update_events u k.wallet in
      let at : (applied A r k).wallet ≡ wallet = rw e refl in
      consume-tip es (applied A r k) h l
      ∙ ap (λ t. wallet_tip W t es) (ap W.latest_checkpoint at ∙ follows u k.wallet wallet events e)
  consume-tip (finished _ ∷ es) k h l = consume-tip es (log A (scanned_up_to_tip ∷ []) k) h l
  consume-tip (error _ ∷ es) k h l = elim h [ ]

  AllApplied-init :
      (es : List (ScanEvent W)) (e : String) (k : Consumer A)
      → NoErrors W es
      → AllApplied A (es ++ error e ∷ []) k
      → AllApplied A es k
  AllApplied-init [] e k h l = tt
  AllApplied-init (wallet_update u ∷ es) e k h (a, l) =
      (a, AllApplied-init es e (applied A (A.apply_update_events u k.wallet) k) h l)
  AllApplied-init (finished _ ∷ es) e k h l =
      AllApplied-init es e (log A (scanned_up_to_tip ∷ []) k) h l
  AllApplied-init (error _ ∷ es) e k h l = elim h [ ]

  -- An error that is sent last changes no wallet.
  consume-error :
      (es : List (ScanEvent W)) (e : String) (k : Consumer A)
      → NoErrors W es
      → (consume A (es ++ error e ∷ []) k).wallet ≡ (consume A es k).wallet
  unfolding consume
  consume-error [] e k h = refl
  consume-error (wallet_update u ∷ es) e k h =
      consume-error es e (applied A (A.apply_update_events u k.wallet) k) h
  consume-error (finished _ ∷ es) e k h = consume-error es e (log A (scanned_up_to_tip ∷ []) k) h
  consume-error (error _ ∷ es) e k h = elim h [ ]

  module _ (stays : (w : B.World) → W.event_tx_now w attached ≡ attached) (k : Consumer A) where
    -- The wallet that has consumed all events has the client's checkpoint.
    abbrev Follows : Client W → Type 0
    Follows c =
        AllApplied A c.sent k → W.latest_checkpoint (consume A c.sent k).wallet ≡ c.checkpoint

    Clean-Follows : (c : Client W) → Clean W (W.latest_checkpoint k.wallet) stays c → Follows c
    Clean-Follows c s l = consume-tip c.sent k s.1 l ∙ s.0.0

    report-Follows :
        (r : Outcome (ClientError B) (Unit {0}) × Client W) (blocks : List (BlockWake B))
        → Clean W (W.latest_checkpoint k.wallet) stays r.1
        → Follows (continue (report true r) (λ _. watch_blocks blocks)).1
    unfolding report continue
    report-Follows (pending, c) blocks s = Clean-Follows c s
    report-Follows (done tt, c) blocks s =
        let tip = W.latest_checkpoint k.wallet in
        rw (send_event-attached W tip stays (finished true) c s.0.1) (
          Clean-Follows (watch_blocks blocks (noted W tip stays (finished true) c)).1 (
            watch_blocks-Keeps W (Clean W tip stays) (Clean-Stable W tip stays) blocks
              (noted W tip stays (finished true) c) (finished-Clean W tip stays true c s)))
    report-Follows (failed e, c) blocks s =
        let tip = W.latest_checkpoint k.wallet in
        rw (send_event-attached W tip stays (error (show_client_error e)) c s.0.1) (λ l.
          ap W.latest_checkpoint (consume-error c.sent (show_client_error e) k s.1)
          ∙ Clean-Follows c s (AllApplied-init c.sent (show_client_error e) k s.1 l))

    with_guard-Follows :
        (r : Outcome (ClientError B) (Unit {0}) × Client W) → Follows r.1 → Follows (with_guard r).1
    unfolding with_guard
    with_guard-Follows (pending, c) s = s
    with_guard-Follows (done tt, c) s = s
    with_guard-Follows (failed e, c) s = s

    -- Whatever a continuous scan comes to, also when it fails, is aborted or goes on to wait: a
    -- wallet that takes over the checkpoint of each update that it applies without an error, and
    -- that began at the client's checkpoint, has the client's checkpoint once the program has
    -- consumed all events, if each update among them was applied without an error, the client had
    -- sent none before, its channel was open, and nobody closes the channel or poisons its lock.
    pub consumer_follows :
        (wakes : List StateWake) (kind : ScanKind) (blocks : List (BlockWake B)) (c : Client W)
        → c.sent ≡ []
        → c.event_tx ≡ attached
        → W.latest_checkpoint k.wallet ≡ c.checkpoint
        → AllApplied A (scan_continuous wakes kind blocks c).1.sent k
        → let d = (scan_continuous wakes kind blocks c).1 in
          W.latest_checkpoint (consume A d.sent k).wallet ≡ d.checkpoint
    unfolding scan_continuous
    consumer_follows wakes kind blocks c none_sent attached_tx same all =
        let tip = W.latest_checkpoint k.wallet in
        let P = Clean W tip stays in
        let S = Clean-Stable W tip stays in
        let holds : Follows (scan_continuous wakes kind blocks c).1 =
          continue-leads P Follows (wait_until_ready wakes c) _
            (wait_until_ready-Keeps W P S wakes c
              ((rw none_sent same, attached_tx), subst (NoErrors W) (sym none_sent) tt))
            Clean-Follows
            λ _ d p.
              continue-leads P Follows (enable_block_forwarding d) _
                (enable_block_forwarding-Keeps W P S d p) Clean-Follows
                λ _ e q. with_guard-Follows _ (
                  report-Follows (scan_inner kind e) (forwarded e.forwarding blocks)
                    (scan_inner-Keeps W P S kind e q)) in
        holds all
