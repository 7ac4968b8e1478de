-- ===== src/Client/Run/Replaced.antt =====
-- src/client/mod.rs: blocks that come to a continuous scan at or below its checkpoint, such as
-- those that replace others in a reorganisation of the chain.
use bdk_floresta.Prelude.{
  ℕ, ◌≤◌, true, some, List, [], ◌∷◌, ◌++◌, ◌≡◌, refl, sym, ap, ◌∙◌, arith, leb,
}
use bdk_floresta.Node.Backend.{Backend}
use bdk_floresta.Client.Types.{Client, ScanKind, poisoned_tx}
use bdk_floresta.Client.Wallet.{WalletLib}
use bdk_floresta.Client.Monad.{done}
use bdk_floresta.Client.Scan.{derive_for, kind_start}
use bdk_floresta.Client.Scan.Served.{Healthy, View, view, Live}
use bdk_floresta.Client.Run.{StateWake, scan_continuous}
use bdk_floresta.Client.Run.Watch.{all_received}
use bdk_floresta.Client.Run.Following.{with_all_new, scan_continuous-served}

-- No block is above the height.
abbrev pub AllAtMost : {A : Type 0} → ℕ → List (A × ℕ) → Type 0
AllAtMost h [] = Unit {0}
AllAtMost h ((_, height) ∷ bs) = (height ≤ h) × AllAtMost h bs

module _ {B : Backend} (W : WalletLib B) where
  pub with_all_new-append :
      (bs cs : List (B.Block × ℕ)) (v : View W)
      → with_all_new W (bs ++ cs) v ≡ with_all_new W cs (with_all_new W bs v)
  unfolding with_all_new
  with_all_new-append [] cs v = refl
  with_all_new-append ((block, height) ∷ bs) cs v = with_all_new-append bs cs _

  with_all_new-known :
      (bs : List (B.Block × ℕ)) (v : View W)
      → AllAtMost (W.height v.checkpoint) bs
      → with_all_new W bs v ≡ v
  unfolding with_all_new
  with_all_new-known [] v h = refl
  with_all_new-known ((block, height) ∷ bs) v (low, rest) =
      let known : leb height (W.height v.checkpoint) ≡ true = ground arith in
      rw known (with_all_new-known bs v rest)

  without_known :
      (bs known cs : List (B.Block × ℕ)) (v : View W)
      → AllAtMost (W.height (with_all_new W bs v).checkpoint) known
      → with_all_new W (bs ++ known ++ cs) v ≡ with_all_new W (bs ++ cs) v
  without_known bs known cs v h =
      with_all_new-append (bs ++ known) cs v
      ∙ ap (with_all_new W cs)
          (with_all_new-append bs known v ∙ with_all_new-known known (with_all_new W bs v) h)
      ∙ sym (with_all_new-append bs cs v)

module _ {B : Backend} (W : WalletLib B) (H : Healthy W) where
  -- On a node whose stores and peers answer with what they hold and that is operational and stays
  -- so, for a client that nobody cancels, whose channel stays open, whose block sink's lock is not
  -- poisoned and whose script pubkeys can be derived: blocks that a continuous scan receives when
  -- its checkpoint is at their heights or above leave no trace, whatever they hold and whether or
  -- not the wallet has seen them. Checkpoint, transaction graph and events are at each later time
  -- those of a scan that has not received these blocks.
  pub known_heights_skipped :
      (wakes : List StateWake) (kind : ScanKind) (bs replaced cs : List (B.Block × ℕ))
      (spks : List B.Spk) (c : Client W)
      → (derive_for kind c).0 ≡ done spks
      → kind_start kind c ≤ H.tip
      → Live W c
      → ¬ (c.forwarding.block_sink ≡ some poisoned_tx)
      → AllAtMost
          (W.height (view W (scan_continuous wakes kind (all_received bs) c).1).checkpoint)
          replaced
      → view W (scan_continuous wakes kind (all_received (bs ++ replaced ++ cs)) c).1
        ≡ view W (scan_continuous wakes kind (all_received (bs ++ cs)) c).1
  known_heights_skipped wakes kind bs replaced cs spks c e h l g low =
      let served =
        λ (ds : List (B.Block × ℕ)). (scan_continuous-served W H wakes kind ds spks c e h l g).1 in
      served (bs ++ replaced ++ cs)
      ∙ without_known W bs replaced cs _ (rw (← served bs) low)
      ∙ sym (served (bs ++ cs))
