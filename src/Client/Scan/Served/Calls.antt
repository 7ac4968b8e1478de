-- ===== src/Client/Scan/Served/Calls.antt =====
-- src/client/mod.rs: `scan_inner`, one call after another, on a node whose stores and peers answer.
use bdk_floresta.Prelude.{
  ℕ, ◌≤◌, List, [], ◌∷◌, ◌++◌, ok, ◌≡◌, refl, arith, ltb, map, length, Bool-cases, inl, inr,
  if◌then◌else◌, Result,
}
use bdk_floresta.Fsm.{operational}
use bdk_floresta.Node.{Node, NodeError, fetching_blocks}
use bdk_floresta.Node.Backend.{Backend}
use bdk_floresta.Node.Local.{get_filter_height, get_block_height, get_block_hash, match_filters}
use bdk_floresta.Node.Local.{call, track_action}
use bdk_floresta.Node.Network.{request_all, fetch_blocks}
use bdk_floresta.Client.Types.{Client, ScanKind, ScanEvent, wallet_update}
use bdk_floresta.Client.Wallet.{WalletLib}
use bdk_floresta.Client.Monad.{done, ask, continue, pure}
use bdk_floresta.Client.Update.{abort_if_cancelled, send_event, finish_update, publish, apply_block}
use bdk_floresta.Client.Scan.{
  derive_for, check_range, fetch_or_abort, fetch_matched, scan_block, scan_blocks, finish_range,
  scan_range, scan_inner, kind_start,
}
use bdk_floresta.Client.Scan.Served.{
  Healthy, View, view, announced, with_block, with_blocks, with_end, Live, Ends, then-Ends,
}

module _ {B : Backend} (W : WalletLib B) (H : Healthy W) where
  pub abort-Ends : (c : Client W) → Live W c → Ends W (abort_if_cancelled c) tt (view W c)
  unfolding abort_if_cancelled
  abort-Ends c l = ground (arith, H.uncancelled c.node.world)

  -- A method of the node answers so while the node is operational, and leaves it operational.
  abbrev Answers : {A : Type 0} → (Node B → Result (NodeError B) A × Node B) → A → Type 0
  Answers g a =
      (n : Node B) → n.state ≡ operational → ((g n).0 ≡ ok a) × ((g n).1.state ≡ operational)

  ask-Ends :
      {A : Type 0} (g : Node B → Result (NodeError B) A × Node B) (a : A) (c : Client W)
      → Live W c
      → Answers g a
      → Ends W (ask g c) a (view W c)
  ask-Ends g a c l e = ground (arith, e c.node)

  pub send_event-Ends :
      (event : ScanEvent W) (c : Client W)
      → Live W c
      → Ends W (send_event event c) tt (record (view W c) { sent = c.sent ++ event ∷ [] })
  unfolding send_event
  send_event-Ends event c l = ground (arith, H.stays_open c.node.world)

  pub publish-Ends :
      (height : ℕ) (hash : B.Hash) (c : Client W)
      → Live W c
      → Ends W (publish height hash c) tt (announced W height hash (view W c))
  unfolding publish finish_update
  publish-Ends height hash c l =
      let (u, d) =
        finish_update (record c { checkpoint = W.insert_block height hash c.checkpoint }) in
      send_event-Ends (wallet_update u) d l

  apply-Ends :
      (block : B.Block) (height : ℕ) (c : Client W)
      → Live W c
      → Ends W
          (continue
            (apply_block block height c)
            (λ is_empty. if is_empty then pure tt else publish height (B.block_hash block)))
          tt
          (with_block W height block (view W c))
  unfolding apply_block continue
  apply-Ends block height c l =
      let (changeset, g) = W.apply_block_relevant block height c.tx_graph in
      elim (Bool-cases (W.changes_nothing changeset)) [
        | inl e ↦ rw e (record { result = refl; live = l; same = refl })
        | inr e ↦ rw e (publish-Ends height (B.block_hash block) (record c { tx_graph = g }) l)
      ]

  block_height-Answers : (hash : B.Hash) → Answers (get_block_height hash) (H.height_of hash)
  unfolding get_block_height
  block_height-Answers hash n s = ground (arith, H.height_known hash n.world)

  scan_block-Ends :
      (block : B.Block) (c : Client W)
      → Live W c
      → Ends W
          (scan_block block c)
          tt
          (with_block W (H.height_of (B.block_hash block)) block (view W c))
  unfolding scan_block
  scan_block-Ends block c l =
      let hash = B.block_hash block in
      let height = H.height_of hash in
      let F = with_block W height block in
      then-Ends W (abort_if_cancelled c) _ tt tt (view W c) F (abort-Ends c l) λ d m.
        then-Ends W (ask (get_block_height hash) d) _ height tt (view W d) F
          (ask-Ends (get_block_height hash) height d m (block_height-Answers hash))
          λ e k. apply-Ends block height e k

  scan_blocks-Ends :
      (blocks : List B.Block) (c : Client W)
      → Live W c
      → Ends W (scan_blocks blocks c) tt (with_blocks W H.height_of blocks (view W c))
  unfolding scan_blocks with_blocks
  scan_blocks-Ends [] c l = record { result = refl; live = l; same = refl }
  scan_blocks-Ends (block ∷ blocks) c l =
      let height = H.height_of (B.block_hash block) in
      then-Ends W (scan_block block c) _ tt tt (with_block W height block (view W c))
        (with_blocks W H.height_of blocks) (scan_block-Ends block c l)
        λ d m. scan_blocks-Ends blocks d m

  block_hash-Answers : (height : ℕ) → Answers (get_block_hash height) (H.hash_at height)
  unfolding get_block_hash
  block_hash-Answers height n s = ground (arith, H.hash_known height n.world)

  finish_range-Ends :
      (stop : ℕ) (c : Client W)
      → Live W c
      → Ends W (finish_range stop c) tt (with_end W stop (H.hash_at stop) (view W c))
  unfolding finish_range
  finish_range-Ends stop c l = elim (Bool-cases (ltb (W.height c.checkpoint) stop)) [
    | inl below ↦ rw below (
        then-Ends W (ask (get_block_hash stop) c) _ (H.hash_at stop) tt (view W c)
          (announced W stop (H.hash_at stop))
          (ask-Ends (get_block_hash stop) (H.hash_at stop) c l (block_hash-Answers stop))
          λ d m. publish-Ends stop (H.hash_at stop) d m)
    | inr above ↦ rw above (record { result = refl; live = l; same = refl })
  ]

  matches-Answers :
      (spks : List B.Spk) (start : ℕ)
      → Answers (match_filters spks start H.tip) (H.matches spks start H.tip)
  unfolding match_filters
  matches-Answers spks start n s = ground (
    arith,
    H.stays_operational n.world,
    H.filters_known n.world,
    H.matches_known spks start H.tip (B.filters_height n.world).1,
  )

  request_all-known :
      (hashes : List B.Hash) (n : Node B)
      → ((request_all hashes n).0 ≡ map ok (map H.block_of hashes))
        × ((request_all hashes n).1.state ≡ n.state)
  unfolding request_all
  request_all-known [] n = (refl, refl)
  request_all-known (hash ∷ hashes) n =
      ground
        (arith, H.block_known hash n.world, request_all-known hashes (call (B.get_block hash) n).1)

  fetch_blocks-Answers :
      (hashes : List B.Hash) → Answers (fetch_blocks hashes) (map H.block_of hashes)
  unfolding fetch_blocks track_action
  fetch_blocks-Answers hashes n s =
      let (all, same) =
        request_all-known hashes (track_action (fetching_blocks (length hashes)) n) in
      (rw all (H.joined (map H.block_of hashes) _), rw same s)

  fetch_matched-Ends :
      (hashes : List B.Hash) (c : Client W)
      → Live W c
      → Ends W (fetch_matched hashes c) (map H.block_of hashes) (view W c)
  unfolding fetch_matched fetch_or_abort
  fetch_matched-Ends [] c l = record { result = refl; live = l; same = refl }
  fetch_matched-Ends (hash ∷ hashes) c l =
      let all = hash ∷ hashes in
      let blocks = map H.block_of all in
      then-Ends W (abort_if_cancelled c) (λ _. fetch_or_abort all) tt blocks (view W c) (λ v. v)
        (abort-Ends c l)
        λ d m.
          rw (H.not_in_flight d.node.world, fetch_or_abort)
            (ask-Ends (fetch_blocks all) blocks d m (fetch_blocks-Answers all))

  -- The reference for a whole scan from one height to the filters' tip.
  abbrev pub with_range : List B.Spk → ℕ → View W → View W
  with_range spks start v =
      with_end W H.tip (H.hash_at H.tip)
        (with_blocks W H.height_of (map H.block_of (H.matches spks start H.tip)) v)

  scan_range-Ends :
      (spks : List B.Spk) (start : ℕ) (c : Client W)
      → start ≤ H.tip
      → Live W c
      → Ends W (scan_range spks start H.tip c) tt (with_range spks start (view W c))
  unfolding scan_range check_range
  scan_range-Ends spks start c h l =
      let F = with_range spks start in
      let hashes = H.matches spks start H.tip in
      let blocks = map H.block_of hashes in
      then-Ends W (check_range start H.tip c) _ tt tt (view W c) F (ground arith) λ c₁ l₁.
        then-Ends W (abort_if_cancelled c₁) _ tt tt (view W c₁) F (abort-Ends c₁ l₁) λ c₂ l₂.
          then-Ends W (ask (match_filters spks start H.tip) c₂) _ hashes tt (view W c₂) F
            (ask-Ends (match_filters spks start H.tip) hashes c₂ l₂ (matches-Answers spks start))
            λ c₃ l₃.
              then-Ends W (abort_if_cancelled c₃) _ tt tt (view W c₃) F (abort-Ends c₃ l₃) λ c₄ l₄.
                then-Ends W (fetch_matched hashes c₄) _ blocks tt (view W c₄) F
                  (fetch_matched-Ends hashes c₄ l₄)
                  λ c₅ l₅.
                    then-Ends W (scan_blocks blocks c₅) _ tt tt
                      (with_blocks W H.height_of blocks (view W c₅))
                      (with_end W H.tip (H.hash_at H.tip)) (scan_blocks-Ends blocks c₅ l₅)
                      λ c₆ l₆. finish_range-Ends H.tip c₆ l₆

  filter_height-Answers : Answers get_filter_height H.tip
  unfolding get_filter_height
  filter_height-Answers n s = ground (arith, H.filters_known n.world)

  pub scan_inner-Ends :
      (kind : ScanKind) (spks : List B.Spk) (c : Client W)
      → (derive_for kind c).0 ≡ done spks
      → kind_start kind c ≤ H.tip
      → Live W c
      → Ends W (scan_inner kind c) tt (with_range spks (kind_start kind c) (view W c))
  unfolding scan_inner derive_for
  scan_inner-Ends kind spks c e h l =
      let F = with_range spks (kind_start kind c) in
      then-Ends W (derive_for kind c) _ spks tt (view W c) F
        (record { result = e; live = l; same = refl })
        λ d m.
          then-Ends W (ask get_filter_height d) _ H.tip tt (view W d) F
            (ask-Ends get_filter_height H.tip d m filter_height-Answers)
            λ d₂ m₂. scan_range-Ends spks (kind_start kind c) d₂ h m₂
