-- ===== src/Client/Scan/Cancel.antt =====
-- src/client/mod.rs: what a cancelled token stops, and what it leaves behind.
use bdk_floresta.Prelude.{Result, ℕ, true, false, some, List, ◌∷◌, ◌≡◌, ◌≢◌, arith, length}
use bdk_floresta.Prelude.Sets.{contains, contains-insert}
use bdk_floresta.Node.{Node, NodeError, fetching_blocks, action_dec}
use bdk_floresta.Node.Backend.{Backend}
use bdk_floresta.Node.Local.{get_filter_height, track_action}
use bdk_floresta.Node.Overlap.{CallEvent, run_calls, NoFinish, run_calls-contains}
use bdk_floresta.Client.Types.{Client, ClientError, scan_aborted, ScanKind}
use bdk_floresta.Client.Wallet.{WalletLib}
use bdk_floresta.Client.Monad.{Outcome, done, failed, pending, ask, continue}
use bdk_floresta.Client.Update.{abort_if_cancelled, cancelled_now}
use bdk_floresta.Client.Scan.{
  derive_for, check_range, fetch_or_abort, fetch_matched, scan_range, scan_inner, kind_start,
}

module _ {B : Backend} {W : WalletLib B} where
  -- A call of a client whose token was cancelled came to no success, and the client has sent
  -- nothing, and has the checkpoint and the transactions that it had.
  pub record Stopped {A : Type 0} (c : Client W) (r : Outcome (ClientError B) A × Client W)
      : Type 0 where
    pub no_success : (a : A) → r.0 ≢ done a
    pub same_events : r.1.sent ≡ c.sent
    pub same_checkpoint : r.1.checkpoint ≡ c.checkpoint
    pub same_graph : r.1.tx_graph ≡ c.tx_graph

  -- A call before the first check of the token.
  record Quiet (c d : Client W) : Type 0 where
    still_cancelled : d.cancellation_token ≡ true
    same_events : d.sent ≡ c.sent
    same_checkpoint : d.checkpoint ≡ c.checkpoint
    same_graph : d.tx_graph ≡ c.tx_graph

  Quiet-Stopped :
      {A : Type 0} (c d : Client W) (r : Outcome (ClientError B) A)
      → Quiet c d
      → ((a : A) → r ≢ done a)
      → Stopped c (r, d)
  Quiet-Stopped c d r q n = record {
    no_success = n;
    same_events = q.same_events;
    same_checkpoint = q.same_checkpoint;
    same_graph = q.same_graph;
  }

  Stopped-continue :
      {A C : Type 0} (c : Client W) (r : Outcome (ClientError B) A × Client W)
      (f : A → Client W → Outcome (ClientError B) C × Client W)
      → Quiet c r.1
      → ((a : A) (d : Client W) → Quiet c d → Stopped c (f a d))
      → Stopped c (continue r f)
  unfolding continue
  Stopped-continue c (done a, d) f q k = k a d q
  Stopped-continue c (failed e, d) f q k = Quiet-Stopped c d (failed e) q (λ a h. cc)
  Stopped-continue c (pending, d) f q k = Quiet-Stopped c d pending q (λ a h. cc)

  abort_if_cancelled-eq :
      (d : Client W)
      → d.cancellation_token ≡ true
      → abort_if_cancelled d ≡ (failed scan_aborted, record d { cancellation_token = true })
  unfolding abort_if_cancelled
  abort_if_cancelled-eq d t = ground arith

  abort_if_cancelled-Stopped :
      {C : Type 0} (c d : Client W) (f : Unit {0} → Client W → Outcome (ClientError B) C × Client W)
      → Quiet c d
      → Stopped c (continue (abort_if_cancelled d) f)
  unfolding continue
  abort_if_cancelled-Stopped c d f q =
      let e : Client W = record d { cancellation_token = true } in
      rw (abort_if_cancelled-eq d q.still_cancelled)
        (Quiet-Stopped c e (failed scan_aborted) (ground arith) (λ a h. cc))

  Quiet-check_range :
      (start stop : ℕ) (c d : Client W) → Quiet c d → Quiet c (check_range start stop d).1
  unfolding check_range
  Quiet-check_range start stop c d q = ground arith

  Quiet-ask :
      {A : Type 0} (g : Node B → Result (NodeError B) A × Node B) (c d : Client W)
      → Quiet c d
      → Quiet c (ask g d).1
  Quiet-ask g c d q = record {
    still_cancelled = q.still_cancelled;
    same_events = q.same_events;
    same_checkpoint = q.same_checkpoint;
    same_graph = q.same_graph;
  }

  -- A scan on a cancelled token does not succeed, sends nothing, and leaves the checkpoint and
  -- the transaction graph alone.
  pub scan_inner-Stopped :
      (kind : ScanKind) (c : Client W) → c.cancellation_token ≡ true → Stopped c (scan_inner kind c)
  unfolding scan_inner scan_range derive_for
  scan_inner-Stopped kind c t =
      let q : Quiet c c = ground arith in
      Stopped-continue c (derive_for kind c) _ q λ spks d p.
        Stopped-continue c (ask get_filter_height d) _ (Quiet-ask get_filter_height c d p)
          λ stop e p.
            Stopped-continue c (check_range (kind_start kind c) stop e) _
              (Quiet-check_range (kind_start kind c) stop c e p)
              λ _ g p. abort_if_cancelled-Stopped c g _ p

  aborted-contains :
      (hash : B.Hash) (hashes : List B.Hash) (c : Client W) (w : B.World)
      → cancelled_now c ≡ false
      → W.cancelled_in_flight c.node.world ≡ some w
      → let (r, c') = fetch_matched (hash ∷ hashes) c in
        (r ≡ failed scan_aborted)
        × (contains (action_dec B) (fetching_blocks (length (hash ∷ hashes))) c'.node.actions
            ≡ true)
  unfolding fetch_matched fetch_or_abort abort_if_cancelled continue track_action
  aborted-contains hash hashes c w running cut = ground (
    arith,
    contains-insert (action_dec B) (fetching_blocks (length (hash ∷ hashes)))
        (fetching_blocks (length (hash ∷ hashes))) c.node.actions,
  )

  -- A scan that is not cancelled before it fetches its matched blocks, but while it does, is
  -- aborted, and its action stays in the node's set: after whatever calls start and finish from
  -- then on, until another call with the same action finishes.
  pub abort_leaves_action :
      (hash : B.Hash) (hashes : List B.Hash) (c : Client W) (w : B.World) (es : List (CallEvent B))
      → cancelled_now c ≡ false
      → W.cancelled_in_flight c.node.world ≡ some w
      → NoFinish (fetching_blocks (length (hash ∷ hashes))) es
      → let (r, c') = fetch_matched (hash ∷ hashes) c in
        (r ≡ failed scan_aborted)
        × (contains
              (action_dec B)
              (fetching_blocks (length (hash ∷ hashes)))
              (run_calls es c'.node).actions
            ≡ true)
  abort_leaves_action hash hashes c w es running cut none_over =
      let (aborted, left) = aborted-contains hash hashes c w running cut in
      (aborted, run_calls-contains _ es (fetch_matched (hash ∷ hashes) c).1.node none_over left)
