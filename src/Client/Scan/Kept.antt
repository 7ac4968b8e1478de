-- ===== src/Client/Scan/Kept.antt =====
-- src/client/mod.rs: what `scan_inner` keeps if its updates keep it.
use bdk_floresta.Prelude.{
  if◌then◌else◌, ℕ, true, false, List, [], ◌∷◌, ◌≡◌, refl, ltb, Bool-cases, Option-cases, inl, inr,
}
use bdk_floresta.Node.{Node, NodeError}
use bdk_floresta.Prelude.{Result}
use bdk_floresta.Node.Backend.{Backend}
use bdk_floresta.Node.Local.{get_filter_height, get_block_height, get_block_hash, match_filters}
use bdk_floresta.Client.Types.{Client, ClientError, ScanKind}
use bdk_floresta.Client.Wallet.{WalletLib}
use bdk_floresta.Client.Monad.{Outcome, ask, continue, pure}
use bdk_floresta.Node.Network.{fetch_blocks}
use bdk_floresta.Client.Update.{cancelled_now, abort_if_cancelled, publish, apply_block}
use bdk_floresta.Client.Scan.{
  derive_for, check_range, fetch_or_abort, fetch_matched, scan_block, scan_blocks, finish_range,
  scan_range, scan_inner, kind_start,
}
use bdk_floresta.Client.Scan.Bind.{continue-keeps}

module _ {B : Backend} (W : WalletLib B) (P : Client W → Type 0) where
  -- Such a call keeps the property, whatever it comes to.
  abbrev pub Keeps : {A : Type 0} → (Client W → Outcome (ClientError B) A × Client W) → Type 0
  Keeps m = (c : Client W) → P c → P (m c).1

  pub then-Keeps :
      {A C : Type 0} (m : Client W → Outcome (ClientError B) A × Client W)
      (f : A → Client W → Outcome (ClientError B) C × Client W)
      → Keeps m
      → ((a : A) → Keeps (f a))
      → Keeps (λ c. continue (m c) f)
  then-Keeps m f km kf c s = continue-keeps P (m c) f (km c s) kf

  -- The property is about the checkpoint and the channel only, and an update keeps it.
  pub record Stable : Type 0 where
    pub free :
        (c d : Client W)
        → d.checkpoint ≡ c.checkpoint
        → d.sent ≡ c.sent
        → d.event_tx ≡ c.event_tx
        → P c
        → P d
    pub publish_kept : (height : ℕ) (hash : B.Hash) → Keeps (publish height hash)

module _ {B : Backend} (W : WalletLib B) (P : Client W → Type 0) (S : Stable W P) where
  pub abort_if_cancelled-Keeps : Keeps W P abort_if_cancelled
  unfolding abort_if_cancelled
  abort_if_cancelled-Keeps c s = elim (Bool-cases (cancelled_now c)) [
    | inl e ↦ rw e (S.free c (record c { cancellation_token = true }) refl refl refl s)
    | inr e ↦ rw e (S.free c (record c { cancellation_token = false }) refl refl refl s)
  ]

  pub ask-Keeps :
      {A C : Type 0} (g : Node B → Result (NodeError B) A × Node B)
      (f : A → Client W → Outcome (ClientError B) C × Client W)
      → ((a : A) → Keeps W P (f a))
      → Keeps W P (λ c. continue (ask g c) f)
  ask-Keeps g f kf = then-Keeps W P (ask g) f (λ c s. S.free c (ask g c).1 refl refl refl s) kf

  pub apply_block-Keeps : (block : B.Block) (height : ℕ) → Keeps W P (apply_block block height)
  unfolding apply_block
  apply_block-Keeps block height c s = S.free c (apply_block block height c).1 refl refl refl s

  derive_for-Keeps : (kind : ScanKind) → Keeps W P (derive_for kind)
  unfolding derive_for
  derive_for-Keeps kind c s = s

  check_range-Keeps : (start stop : ℕ) → Keeps W P (check_range start stop)
  unfolding check_range
  check_range-Keeps start stop c s = elim (Bool-cases (ltb stop start)) [
    | inl e ↦ rw e s
    | inr e ↦ rw e s
  ]

  fetch_matched-Keeps : (hashes : List B.Hash) → Keeps W P (fetch_matched hashes)
  unfolding fetch_matched fetch_or_abort
  fetch_matched-Keeps [] = λ c s. s
  fetch_matched-Keeps (hash ∷ hashes) =
      then-Keeps W P abort_if_cancelled (λ _. fetch_or_abort (hash ∷ hashes))
        abort_if_cancelled-Keeps
        λ _ c s. elim (Option-cases (W.cancelled_in_flight c.node.world)) [
          | inl e ↦
              rw (e, fetch_or_abort)
                (S.free c (ask (fetch_blocks (hash ∷ hashes)) c).1 refl refl refl s)
          | inr (w, e) ↦ rw (e, fetch_or_abort) (S.free c _ refl refl refl s)
        ]

  scan_block-Keeps : (block : B.Block) → Keeps W P (scan_block block)
  unfolding scan_block
  scan_block-Keeps block = then-Keeps W P abort_if_cancelled _ abort_if_cancelled-Keeps λ _.
      ask-Keeps (get_block_height (B.block_hash block)) _ λ height.
        then-Keeps W P (apply_block block height) _ (apply_block-Keeps block height) λ is_empty.
          elim is_empty
            as (λ b. Keeps W P (if b then pure tt else publish height (B.block_hash block))) [
              | true ↦ λ c s. s
              | false ↦ S.publish_kept height (B.block_hash block)
            ]

  scan_blocks-Keeps : (blocks : List B.Block) → Keeps W P (scan_blocks blocks)
  unfolding scan_blocks
  scan_blocks-Keeps [] = λ c s. s
  scan_blocks-Keeps (block ∷ blocks) =
      then-Keeps W P (scan_block block) _ (scan_block-Keeps block) λ _. scan_blocks-Keeps blocks

  finish_range-Keeps : (stop : ℕ) → Keeps W P (finish_range stop)
  unfolding finish_range
  finish_range-Keeps stop c s = elim (Bool-cases (ltb (W.height c.checkpoint) stop)) [
    | inl below ↦
        rw below (ask-Keeps (get_block_hash stop) (publish stop) (S.publish_kept stop) c s)
    | inr above ↦ rw above s
  ]

  scan_range-Keeps : (spks : List B.Spk) (start stop : ℕ) → Keeps W P (scan_range spks start stop)
  unfolding scan_range
  scan_range-Keeps spks start stop =
      then-Keeps W P (check_range start stop) _ (check_range-Keeps start stop) λ _.
        then-Keeps W P abort_if_cancelled _ abort_if_cancelled-Keeps λ _.
          ask-Keeps (match_filters spks start stop) _ λ hashes.
            then-Keeps W P abort_if_cancelled _ abort_if_cancelled-Keeps λ _.
              then-Keeps W P (fetch_matched hashes) _ (fetch_matched-Keeps hashes) λ blocks.
                then-Keeps W P (scan_blocks blocks) _ (scan_blocks-Keeps blocks)
                  λ _. finish_range-Keeps stop

  pub scan_inner-Keeps : (kind : ScanKind) → Keeps W P (scan_inner kind)
  unfolding scan_inner
  scan_inner-Keeps kind c =
      then-Keeps W P (derive_for kind) _ (derive_for-Keeps kind)
        (λ spks.
          ask-Keeps get_filter_height _ λ stop. scan_range-Keeps spks (kind_start kind c) stop)
        c
