-- ===== src/Client/Scan/Errors/InRange.antt =====
-- src/client/mod.rs: a scan whose range is in order fails with an abort, a poisoned lock or a
-- node's error.
use bdk_floresta.Prelude.{
  ℕ, true, false, List, [], ◌∷◌, Result, ◌≡◌, refl, inl, inr, subst, arith, ltb, Bool-cases,
  Option-cases, if◌then◌else◌,
}
use bdk_floresta.Node.{Node, NodeError}
use bdk_floresta.Node.Backend.{Backend}
use bdk_floresta.Node.Local.{get_block_height, get_block_hash, match_filters}
use bdk_floresta.Node.Network.{fetch_blocks}
use bdk_floresta.Client.Types.{Client, ClientError, scan_aborted, invalid_range, poisoned_lock}
use bdk_floresta.Client.Wallet.{WalletLib}
use bdk_floresta.Client.Monad.{Outcome, done, failed, pending, continue, ask, pure}
use bdk_floresta.Client.Update.{
  cancelled_now, abort_if_cancelled, send_event, finish_update, publish, apply_block,
}
use bdk_floresta.Client.Scan.{
  check_range, fetch_or_abort, fetch_matched, scan_block, scan_blocks, finish_range, scan_range,
}

module _ {B : Backend} where
  -- The errors of a scan whose range is in order.
  abbrev pub Later : ClientError B → Type 0
  Later scan_aborted = Unit {0}
  Later poisoned_lock = Unit {0}
  Later (ClientError.node _) = Unit {0}
  Later _ = ⊥

  abbrev pub FailsLater : {A : Type 0} → Outcome (ClientError B) A → Type 0
  FailsLater (failed e) = Later e
  FailsLater (done _) = Unit {0}
  FailsLater pending = Unit {0}

  pub failed-Later :
      {r : Outcome (ClientError B) (Unit {0})} {e : ClientError B}
      → FailsLater r
      → r ≡ failed e
      → Later e
  failed-Later later h = subst FailsLater h later

module _ {B : Backend} {W : WalletLib B} where
  abbrev pub AllLater : {A : Type 0} → (Client W → Outcome (ClientError B) A × Client W) → Type 0
  AllLater m = (c : Client W) → FailsLater (m c).0

  continue-Later :
      {A C : Type 0} (r : Outcome (ClientError B) A × Client W)
      (f : A → Client W → Outcome (ClientError B) C × Client W)
      → FailsLater r.0
      → ((a : A) → AllLater (f a))
      → FailsLater (continue r f).0
  unfolding continue
  continue-Later (done a, c) f h k = k a c
  continue-Later (failed e, c) f h k = h
  continue-Later (pending, c) f h k = tt

  ask-Later : {A : Type 0} (g : Node B → Result (NodeError B) A × Node B) → AllLater (ask g)
  ask-Later g c = ground arith

  pub after_ask :
      {A C : Type 0} (g : Node B → Result (NodeError B) A × Node B)
      (f : A → Client W → Outcome (ClientError B) C × Client W) (c : Client W)
      → ((a : A) → AllLater (f a))
      → FailsLater (continue (ask g c) f).0
  after_ask g f c = continue-Later (ask g c) f (ask-Later g c)

  abort_if_cancelled-Later : AllLater abort_if_cancelled
  unfolding abort_if_cancelled
  abort_if_cancelled-Later c = elim (Bool-cases (cancelled_now c)) [
    | inl e ↦ rw e tt
    | inr e ↦ rw e tt
  ]

  publish-Later : (height : ℕ) (hash : B.Hash) → AllLater (publish height hash)
  unfolding publish finish_update send_event
  publish-Later height hash c = ground arith

  fetch_matched-Later : (hashes : List B.Hash) → AllLater (fetch_matched hashes)
  unfolding fetch_matched fetch_or_abort
  fetch_matched-Later [] c = tt
  fetch_matched-Later (hash ∷ hashes) c =
      continue-Later (abort_if_cancelled c) _ (abort_if_cancelled-Later c) λ _ d.
        elim (Option-cases (W.cancelled_in_flight d.node.world)) [
          | inl e ↦ rw (e, fetch_or_abort) (ask-Later (fetch_blocks (hash ∷ hashes)) d)
          | inr (w, e) ↦ rw (e, fetch_or_abort) tt
        ]

  scan_block-Later : (block : B.Block) → AllLater (scan_block block)
  unfolding scan_block apply_block
  scan_block-Later block c =
      continue-Later (abort_if_cancelled c) _ (abort_if_cancelled-Later c) λ _ d.
        after_ask (get_block_height (B.block_hash block)) _ d λ height e.
          continue-Later (apply_block block height e) _ tt λ is_empty.
            elim is_empty
              as (λ b. AllLater (if b then pure tt else publish height (B.block_hash block))) [
                | true ↦ λ f. tt
                | false ↦ publish-Later height (B.block_hash block)
              ]

  scan_blocks-Later : (blocks : List B.Block) → AllLater (scan_blocks blocks)
  unfolding scan_blocks
  scan_blocks-Later [] c = tt
  scan_blocks-Later (block ∷ blocks) c =
      continue-Later (scan_block block c) _ (scan_block-Later block c) λ _. scan_blocks-Later blocks

  finish_range-Later : (stop : ℕ) → AllLater (finish_range stop)
  unfolding finish_range
  finish_range-Later stop c = elim (Bool-cases (ltb (W.height c.checkpoint) stop)) [
    | inl below ↦ rw below (after_ask (get_block_hash stop) _ c (publish-Later stop))
    | inr above ↦ rw above tt
  ]

  pub scan_range-Later :
      (spks : List B.Spk) (start stop : ℕ)
      → ltb stop start ≡ false
      → AllLater (scan_range spks start stop)
  unfolding scan_range check_range continue
  scan_range-Later spks start stop above c = rw above (
      continue-Later (abort_if_cancelled c) _ (abort_if_cancelled-Later c) λ _ d.
        after_ask (match_filters spks start stop) _ d λ hashes e.
          continue-Later (abort_if_cancelled e) _ (abort_if_cancelled-Later e) λ _ f.
            continue-Later (fetch_matched hashes f) _ (fetch_matched-Later hashes f) λ blocks g.
              continue-Later (scan_blocks blocks g) _ (scan_blocks-Later blocks g)
                λ _. finish_range-Later stop)

  pub scan_range-below :
      (spks : List B.Spk) (start stop : ℕ) (c : Client W)
      → ltb stop start ≡ true
      → (scan_range spks start stop c).0 ≡ failed (invalid_range start stop)
  unfolding scan_range check_range continue
  scan_range-below spks start stop c below = rw below refl
