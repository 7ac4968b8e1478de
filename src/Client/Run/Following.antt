-- ===== src/Client/Run/Following.antt =====
-- src/client/mod.rs: what `scan_continuous` comes to on a node whose stores and peers answer.
use mathlib.Core.List.{append-nil}
use bdk_floresta.Prelude.{
  ℕ, ◌≤◌, true, false, some, List, [], ◌∷◌, ◌++◌, ◌≡◌, refl, sym, subst, ap, ◌∙◌, arith, leb,
  Bool-cases, inl, inr, if◌then◌else◌,
}
use bdk_floresta.Node.Backend.{Backend}
use bdk_floresta.Client.Types.{
  Forwarding, sender, Client, ClientError, ScanKind, sync, full_scan, custom, poisoned_tx,
}
use bdk_floresta.Client.Wallet.{WalletLib, attached}
use bdk_floresta.Client.Monad.{Scan, Outcome, done, failed, pending, continue}
use bdk_floresta.Client.Update.{abort_if_cancelled, apply_block}
use bdk_floresta.Client.Forward.{on_block, enable}
use bdk_floresta.Client.Forward.Lifetime.{on_block-attached, enable-fresh}
use bdk_floresta.Client.Scan.{derive_for, scan_inner, kind_start}
use bdk_floresta.Client.Scan.Served.{Healthy, View, view, announced, Live, Ends, then-Gives}
use bdk_floresta.Client.Scan.Served.Calls.{abort-Ends, publish-Ends, with_range, scan_inner-Ends}
use bdk_floresta.Client.Run.{
  forwarded, received, StateWake, BlockWake, wait_until_ready, report, receive_block, watch_blocks,
  enable_block_forwarding, with_guard, scan_continuous, still_waiting,
}
use bdk_floresta.Client.Scan.Bind.{continue-of_done}
use bdk_floresta.Client.Run.Ready.{wait_until_ready-done}
use bdk_floresta.Client.Run.Watch.{all_received}
use bdk_floresta.Client.Run.Served.{wait_until_ready-Live, with_finished, report-Ends}

module _ {B : Backend} (W : WalletLib B) where
  -- The reference: a block above the checkpoint is announced, whether it changes something or not.
  abbrev pub with_new : B.Block → ℕ → View W → View W
  with_new block height v =
      if leb height (W.height v.checkpoint)
      then v
      else announced W height (B.block_hash block)
          (record v { tx_graph = (W.apply_block_relevant block height v.tx_graph).1 })

  unfoldable pub with_all_new : List (B.Block × ℕ) → View W → View W
  with_all_new [] v = v
  with_all_new ((block, height) ∷ bs) v = with_all_new bs (with_new block height v)

module _ {B : Backend} (W : WalletLib B) (H : Healthy W) where
  pub receive_block-Ends :
      (block : B.Block) (height : ℕ) (c : Client W)
      → Live W c
      → Ends W (receive_block block height c) tt (with_new W block height (view W c))
  unfolding receive_block apply_block continue
  receive_block-Ends block height c l = elim (Bool-cases (leb height (W.height c.checkpoint))) [
    | inl known ↦ rw known (record { result = refl; live = l; same = refl })
    | inr new ↦ rw new (
        publish-Ends W H height (B.block_hash block)
          (record c { tx_graph = (W.apply_block_relevant block height c.tx_graph).1 }) l)
  ]

  -- A call that comes to `o`, at a client that is seen as `v`.
  abbrev pub Comes :
      Outcome (ClientError B) (Unit {0})
      → Outcome (ClientError B) (Unit {0}) × Client W
      → View W
      → Type 0
  Comes o r v = (r.0 ≡ o) × (view W r.1 ≡ v)

  with_guard-Comes :
      (o : Outcome (ClientError B) (Unit {0})) (r : Outcome (ClientError B) (Unit {0}) × Client W)
      (v : View W)
      → Comes o r v
      → Comes o (with_guard r) v
  unfolding with_guard
  with_guard-Comes o (pending, c) v h = h
  with_guard-Comes o (done tt, c) v h = h
  with_guard-Comes o (failed e, c) v h = h

  enable-Ends :
      (c : Client W)
      → Live W c
      → ¬ (c.forwarding.block_sink ≡ some poisoned_tx)
      → Ends W (enable_block_forwarding c) tt (view W c)
  unfolding enable_block_forwarding enable
  enable-Ends c l h = ground arith

  -- What a scan is to do depends on what the client is seen as.
  pub kind-view :
      (kind : ScanKind) (c d : Client W)
      → view W d ≡ view W c
      → (kind_start kind d ≡ kind_start kind c) × ((derive_for kind d).0 ≡ (derive_for kind c).0)
  unfolding derive_for
  kind-view kind c d e =
      let at_checkpoint : kind_start kind d ≡ kind_start kind c =
        elim kind as (λ k. kind_start k d ≡ kind_start k c) [
          | sync ↦ ap (λ v. W.height v.checkpoint) e
          | full_scan lookahead ↦ refl
          | custom start lookahead ↦ refl
        ] in
      (at_checkpoint, ap (λ v. (derive_for kind (record c { tx_graph = v.tx_graph })).0) e)

  -- The loop comes to `o` with what wakes it at the end, and changes nothing of the view there.
  module _ (o : Outcome (ClientError B) (Unit {0})) (wakes_after : List (BlockWake B))
      (nothing_forwarded : (f : Forwarding B) → forwarded f wakes_after ≡ wakes_after)
      (last : (c : Client W) → Live W c → Comes o (watch_blocks wakes_after c) (view W c)) where
    watch_blocks-Comes :
        (bs : List (B.Block × ℕ)) (c : Client W)
        → Live W c
        → Comes o (watch_blocks (all_received bs ++ wakes_after) c) (with_all_new W bs (view W c))
    unfolding watch_blocks with_all_new
    watch_blocks-Comes [] c l = last c l
    watch_blocks-Comes ((block, height) ∷ bs) c l =
        then-Gives W (Comes o) (abort_if_cancelled c) _ tt (view W c)
          (with_all_new W ((block, height) ∷ bs)) (abort-Ends W H c l)
          λ d m _.
            then-Gives W (Comes o) (receive_block block height d) _ tt
              (with_new W block height (view W d)) (with_all_new W bs)
              (receive_block-Ends block height d m) λ e k _. watch_blocks-Comes bs e k

    -- The scan and then the loop, past the registration of the sink.
    follow-Comes :
        (kind : ScanKind) (bs : List (B.Block × ℕ)) (spks : List B.Spk) (c : Client W)
        → (derive_for kind c).0 ≡ done spks
        → kind_start kind c ≤ H.tip
        → Live W c
        → Comes o
            (with_guard (
              continue
                (report true (scan_inner kind c))
                (λ _. watch_blocks (all_received bs ++ wakes_after))))
            (with_all_new W bs
              (with_finished W H true (with_range W H spks (kind_start kind c) (view W c))))
    follow-Comes kind bs spks c e h l =
        let scanned =
          report-Ends W H true (scan_inner kind c) _ (scan_inner-Ends W H kind spks c e h l) in
        with_guard-Comes o _ _ (
          then-Gives W (Comes o) (report true (scan_inner kind c)) _ tt _ (with_all_new W bs)
            scanned λ d m _. watch_blocks-Comes bs d m)

    -- A fresh channel passes each block on as it comes.
    forwarded-fresh :
        (bs : List (B.Block × ℕ)) (k : ℕ) (f : Forwarding B)
        → f.block_sink ≡ some (sender (some k))
        → f.queue ≡ []
        → forwarded f (all_received bs ++ wakes_after) ≡ all_received bs ++ wakes_after
    unfolding forwarded
    forwarded-fresh [] k f sink empty = nothing_forwarded f
    forwarded-fresh ((block, height) ∷ bs) k f sink empty =
        let q : (on_block block height f).queue ≡ (block, height) ∷ [] =
          ap (λ g. g.queue) (on_block-attached block height k f sink)
          ∙ ap (λ q. q ++ (block, height) ∷ []) empty in
        rw (q, forwarded)
          (ap (λ ws. received block height ∷ ws)
            (forwarded-fresh bs k (record f { queue = [] }) sink refl))

    enabled-forwards :
        (c : Client W)
        → ¬ (c.forwarding.block_sink ≡ some poisoned_tx)
        → (bs : List (B.Block × ℕ))
        → forwarded (enable_block_forwarding c).1.forwarding (all_received bs ++ wakes_after)
          ≡ all_received bs ++ wakes_after
    unfolding enable_block_forwarding
    enabled-forwards c sound bs =
        let (f, k, e, sink, empty) = enable-fresh c.forwarding sound in
        rw (e, enable_block_forwarding) (forwarded-fresh bs k f sink empty)

    -- A continuous scan whose wait for the node ends well.
    pub scan_continuous-Comes :
        (wakes : List StateWake) (kind : ScanKind) (bs : List (B.Block × ℕ)) (spks : List B.Spk)
        (c : Client W)
        → (wait_until_ready wakes c).0 ≡ done tt
        → (derive_for kind c).0 ≡ done spks
        → kind_start kind c ≤ H.tip
        → c.cancellation_token ≡ false
        → c.event_tx ≡ attached
        → ¬ (c.forwarding.block_sink ≡ some poisoned_tx)
        → Comes o (scan_continuous wakes kind (all_received bs ++ wakes_after) c) (
            with_all_new W bs
              (with_finished W H true (with_range W H spks (kind_start kind c) (view W c))))
    unfolding scan_continuous
    scan_continuous-Comes wakes kind bs spks c ready e h t a g =
        let F : View W → View W = λ v.
          with_all_new W bs (with_finished W H true (with_range W H spks (kind_start kind c) v)) in
        let d = (wait_until_ready wakes c).1 in
        let (up, found) = wait_until_ready-done W wakes c d (ground (arith, ready)) in
        let same : view W d ≡ view W c = ap (view W) found in
        let live : Live W d =
          (ap (λ x. x.cancellation_token) found ∙ t, ap (λ x. x.event_tx) found ∙ a, up) in
        let loop : Unit {0} → Scan W (Unit {0}) = λ _ x. with_guard (
          continue (report true (scan_inner kind x))
            (λ _. watch_blocks (forwarded x.forwarding (all_received bs ++ wakes_after)))) in
        let rest : Unit {0} → Scan W (Unit {0}) =
          λ _ d. continue (enable_block_forwarding d) loop in
        let sound : ¬ (d.forwarding.block_sink ≡ some poisoned_tx) =
          λ p. g (sym (ap (λ x. x.forwarding.block_sink) found) ∙ p) in
        let ends = enable-Ends d live sound in
        let x = (enable_block_forwarding d).1 in
        let passes = enabled-forwards d sound bs in
        let (start, derived) = kind-view kind c x (ends.same ∙ same) in
        let looped : Comes o (loop tt x) (F (view W x)) =
          rw (passes, ← start) (follow-Comes kind bs spks x (derived ∙ e) (rw start h) ends.live) in
        let follows : Comes o (rest tt d) (F (view W d)) =
          subst (λ r. Comes o r (F (view W d)))
            (sym (continue-of_done (enable_block_forwarding d) loop tt ends.result))
            (subst (λ v. Comes o (loop tt x) (F v)) ends.same looped) in
        subst (λ r. Comes o r (F (view W c)))
          (sym (continue-of_done (wait_until_ready wakes c) rest tt ready))
          (subst (λ v. Comes o (rest tt d) (F v)) same follows)

  -- On a node whose stores and peers answer with what they hold and that is operational and stays
  -- so, for a client that nobody cancels, whose channel stays open, whose block sink's lock is not
  -- poisoned and whose script pubkeys can be derived: a continuous scan from at most the filters'
  -- tip still waits for more when it has taken the blocks of `bs`. Its checkpoint and its events
  -- are then those of the reference: those of a finished scan, and after that, for each block above
  -- the checkpoint, that block as the checkpoint and one update.
  pub scan_continuous-served :
      (wakes : List StateWake) (kind : ScanKind) (bs : List (B.Block × ℕ)) (spks : List B.Spk)
      (c : Client W)
      → (derive_for kind c).0 ≡ done spks
      → kind_start kind c ≤ H.tip
      → Live W c
      → ¬ (c.forwarding.block_sink ≡ some poisoned_tx)
      → ((scan_continuous wakes kind (all_received bs) c).0 ≡ pending)
        × (view W (scan_continuous wakes kind (all_received bs) c).1
            ≡ with_all_new W bs
                (with_finished W H true (with_range W H spks (kind_start kind c) (view W c))))
  unfolding watch_blocks forwarded
  scan_continuous-served wakes kind bs spks c e h l g =
      let ready = ap (λ r. r.0) (wait_until_ready-Live W H wakes c l) in
      rw (← append-nil (all_received {B = B} bs)) (
        scan_continuous-Comes pending [] (λ f. refl)
          (λ d m.
            then-Gives W (Comes pending) (abort_if_cancelled d) (λ _. still_waiting) tt (view W d)
              (λ v. v) (abort-Ends W H d m) λ x _ same. (refl, refl))
          wakes kind bs spks c ready e h l.0 l.1 g)
