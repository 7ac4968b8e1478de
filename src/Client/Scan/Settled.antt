-- ===== src/Client/Scan/Settled.antt =====
-- src/client/mod.rs: which calls of a client are over as soon as they return: all but the waits.
use bdk_floresta.Prelude.{
  ℕ, false, if◌then◌else◌, true, List, [], ◌∷◌, Result, ltb, Bool-cases, Option-cases, inl, inr,
  arith,
}
use bdk_floresta.Node.{Node, NodeError}
use bdk_floresta.Node.Backend.{Backend}
use bdk_floresta.Node.Local.{get_filter_height, get_block_height, get_block_hash, match_filters}
use bdk_floresta.Node.Network.{fetch_blocks}
use bdk_floresta.Client.Types.{Client, ClientError, ScanKind, ScanEvent}
use bdk_floresta.Client.Wallet.{WalletLib}
use bdk_floresta.Client.Monad.{Outcome, done, failed, pending, continue, ask, pure}
use bdk_floresta.Client.Update.{
  cancelled_now, abort_if_cancelled, send_event, finish_update, publish, apply_block,
}
use bdk_floresta.Client.Scan.{
  derive_for, check_range, fetch_or_abort, fetch_matched, scan_block, scan_blocks, finish_range,
  scan_range, scan_inner,
}

-- The call is over.
abbrev pub Settled : {E A : Type 0} → Outcome E A → Type 0
Settled (done _) = Unit {0}
Settled (failed _) = Unit {0}
Settled pending = ⊥

-- The call has failed.
abbrev pub HasFailed : {E A : Type 0} → Outcome E A → Type 0
HasFailed (done _) = ⊥
HasFailed (failed _) = Unit {0}
HasFailed pending = ⊥

module _ {B : Backend} {W : WalletLib B} {A : Type 0} where
  -- The call is over wherever it starts.
  abbrev pub Settles : (Client W → Outcome (ClientError B) A × Client W) → Type 0
  Settles m = (c : Client W) → Settled (m c).0

module _ {B : Backend} {W : WalletLib B} {A C : Type 0} where
  pub continue-Settled :
      (r : Outcome (ClientError B) A × Client W)
      (f : A → Client W → Outcome (ClientError B) C × Client W)
      → Settled r.0
      → ((a : A) (c : Client W) → Settled (f a c).0)
      → Settled (continue r f).0
  unfolding continue
  continue-Settled (done a, c) f h k = k a c
  continue-Settled (failed e, c) f h k = tt
  continue-Settled (pending, c) f h k = elim h [ ]

  pub continue-HasFailed :
      (r : Outcome (ClientError B) A × Client W)
      (f : A → Client W → Outcome (ClientError B) C × Client W)
      → Settled r.0
      → ((a : A) (c : Client W) → HasFailed (f a c).0)
      → HasFailed (continue r f).0
  unfolding continue
  continue-HasFailed (done a, c) f h k = k a c
  continue-HasFailed (failed e, c) f h k = tt
  continue-HasFailed (pending, c) f h k = elim h [ ]

module _ {B : Backend} {W : WalletLib B} where
  ask-Settles :
      {A : Type 0} (g : Node B → Result (NodeError B) A × Node B) → Settles {W = W} (ask g)
  ask-Settles g c = ground arith

  after_ask :
      {A C : Type 0} (g : Node B → Result (NodeError B) A × Node B)
      (f : A → Client W → Outcome (ClientError B) C × Client W) (c : Client W)
      → ((a : A) → Settles (f a))
      → Settled (continue (ask g c) f).0
  after_ask g f c k = continue-Settled (ask g c) f (ask-Settles g c) k

  pub abort_if_cancelled-Settles : Settles {W = W} abort_if_cancelled
  unfolding abort_if_cancelled
  abort_if_cancelled-Settles c = elim (Bool-cases (cancelled_now c)) [
    | inl e ↦ rw e tt
    | inr e ↦ rw e tt
  ]

  pub send_event-Settles : (event : ScanEvent W) → Settles {W = W} (send_event event)
  unfolding send_event
  send_event-Settles event c = ground arith

  pub publish-Settles : (height : ℕ) (hash : B.Hash) → Settles {W = W} (publish height hash)
  unfolding publish finish_update
  publish-Settles height hash c = send_event-Settles _ _

  derive_for-Settles : (kind : ScanKind) → Settles {W = W} (derive_for kind)
  unfolding derive_for
  derive_for-Settles kind c = ground arith

  check_range-Settles : (start stop : ℕ) → Settles {W = W} (check_range start stop)
  unfolding check_range
  check_range-Settles start stop c = elim (Bool-cases (ltb stop start)) [
    | inl e ↦ rw e tt
    | inr e ↦ rw e tt
  ]

  fetch_matched-Settles : (hashes : List B.Hash) → Settles {W = W} (fetch_matched hashes)
  unfolding fetch_matched fetch_or_abort
  fetch_matched-Settles [] c = tt
  fetch_matched-Settles (hash ∷ hashes) c =
      continue-Settled (abort_if_cancelled c) _ (abort_if_cancelled-Settles c) λ _ d.
        elim (Option-cases (W.cancelled_in_flight d.node.world)) [
          | inl e ↦ rw (e, fetch_or_abort) (ask-Settles (fetch_blocks (hash ∷ hashes)) d)
          | inr (w, e) ↦ rw (e, fetch_or_abort) tt
        ]

  scan_block-Settles : (block : B.Block) → Settles {W = W} (scan_block block)
  unfolding scan_block apply_block
  scan_block-Settles block c =
      continue-Settled (abort_if_cancelled c) _ (abort_if_cancelled-Settles c) λ _ d.
        after_ask (get_block_height (B.block_hash block)) _ d λ height e.
          continue-Settled (apply_block block height e) _ tt λ is_empty.
            elim is_empty
              as (λ b.
                Settles {W = W} (if b then pure tt else publish height (B.block_hash block))) [
                  | true ↦ λ f. tt
                  | false ↦ publish-Settles height (B.block_hash block)
                ]

  scan_blocks-Settles : (blocks : List B.Block) → Settles {W = W} (scan_blocks blocks)
  unfolding scan_blocks
  scan_blocks-Settles [] c = tt
  scan_blocks-Settles (block ∷ blocks) c =
      continue-Settled (scan_block block c) _ (scan_block-Settles block c)
        λ _. scan_blocks-Settles blocks

  finish_range-Settles : (stop : ℕ) → Settles {W = W} (finish_range stop)
  unfolding finish_range
  finish_range-Settles stop c = elim (Bool-cases (ltb (W.height c.checkpoint) stop)) [
    | inl below ↦ rw below (after_ask (get_block_hash stop) _ c (publish-Settles stop))
    | inr above ↦ rw above tt
  ]

  scan_range-Settles :
      (spks : List B.Spk) (start stop : ℕ) → Settles {W = W} (scan_range spks start stop)
  unfolding scan_range
  scan_range-Settles spks start stop c =
      continue-Settled (check_range start stop c) _ (check_range-Settles start stop c) λ _ d.
        continue-Settled (abort_if_cancelled d) _ (abort_if_cancelled-Settles d) λ _ e.
          after_ask (match_filters spks start stop) _ e λ hashes f.
            continue-Settled (abort_if_cancelled f) _ (abort_if_cancelled-Settles f) λ _ g.
              continue-Settled (fetch_matched hashes g) _ (fetch_matched-Settles hashes g)
                λ blocks h.
                  continue-Settled (scan_blocks blocks h) _ (scan_blocks-Settles blocks h)
                    λ _. finish_range-Settles stop

  pub scan_inner-Settles : (kind : ScanKind) → Settles {W = W} (scan_inner kind)
  unfolding scan_inner
  scan_inner-Settles kind c =
      continue-Settled (derive_for kind c) _ (derive_for-Settles kind c)
        λ spks d. after_ask get_filter_height _ d λ stop. scan_range-Settles spks _ stop
