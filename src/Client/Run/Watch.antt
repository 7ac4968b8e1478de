-- ===== src/Client/Run/Watch.antt =====
-- src/client/mod.rs: how the loop of `scan_continuous` follows the blocks that it receives.
use bdk_floresta.Prelude.{
  ℕ, ◌+◌, ◌≤◌, false, List, [], ◌∷◌, ◌≡◌, ap, ◌∙◌, arith, leb, length, length-append, if◌then◌else◌,
}
use bdk_floresta.Node.Backend.{Backend}
use bdk_floresta.Client.Types.{Client, ClientError, ScanEvent, wallet_update}
use bdk_floresta.Client.Wallet.{WalletLib, attached}
use bdk_floresta.Client.Monad.{Outcome, done, pending, continue}
use bdk_floresta.Client.Update.{abort_if_cancelled, send_event, finish_update, publish, apply_block}
use bdk_floresta.Client.Scan.Bind.{continue-of_done}
use bdk_floresta.Client.Run.{still_waiting, BlockWake, received, receive_block, watch_blocks}

module _ {B : Backend} where
  -- The blocks arrive one after another.
  abbrev pub all_received : List (B.Block × ℕ) → List (BlockWake B)
  all_received [] = []
  all_received ((block, height) ∷ bs) = received block height ∷ all_received bs

module _ {A : Type 0} where
  -- The height that a watch which stands at `h` comes to.
  unfoldable pub top_height : ℕ → List (A × ℕ) → ℕ
  top_height h [] = h
  top_height h ((_, height) ∷ bs) = top_height (if leb height h then h else height) bs

  -- How many of the blocks are higher than all that came before them.
  unfoldable pub count_new : ℕ → List (A × ℕ) → ℕ
  count_new h [] = 0
  count_new h ((_, height) ∷ bs) =
      (if leb height h then 0 else 1) + count_new (if leb height h then h else height) bs

module _ {B : Backend} (W : WalletLib B)
    (insert_above : (h : ℕ) (hash : B.Hash) (cp : W.CheckPoint)
      → W.height cp ≤ h
      → W.height (W.insert_block h hash cp) ≡ h)
    (stays : (w : B.World) → W.event_tx_now w attached ≡ attached)
    (uncancelled : (w : B.World) → W.cancelled_by_others w ≡ false) where
  -- A client that nobody has cancelled and whose channel is open.
  record Watching (c : Client W) : Type 0 where
    not_cancelled : c.cancellation_token ≡ false
    open_channel : c.event_tx ≡ attached

  -- One round of the loop.
  record Round (height : ℕ) (c d : Client W) : Type 0 where
    watching : Watching d
    moved :
        W.height d.checkpoint
        ≡ (if leb height (W.height c.checkpoint) then W.height c.checkpoint else height)
    counted : length d.sent ≡ length c.sent + (if leb height (W.height c.checkpoint) then 0 else 1)

  -- An event is sent: the call succeeds, and nothing else of the client changes.
  record OneMore (c : Client W) (r : Outcome (ClientError B) (Unit {0}) × Client W) : Type 0 where
    sends : r.0 ≡ done tt
    one_more : length r.1.sent ≡ length c.sent + 1
    same_checkpoint : r.1.checkpoint ≡ c.checkpoint
    same_token : r.1.cancellation_token ≡ c.cancellation_token
    still_open : r.1.event_tx ≡ attached

  send_event-OneMore :
      (event : ScanEvent W) (c : Client W) → c.event_tx ≡ attached → OneMore c (send_event event c)
  unfolding send_event
  send_event-OneMore event c a =
      ground (arith, stays c.node.world, length-append c.sent (event ∷ []))

  publish-OneMore :
      (height : ℕ) (hash : B.Hash) (c : Client W)
      → c.event_tx ≡ attached
      → OneMore
          (record c { checkpoint = W.insert_block height hash c.checkpoint })
          (publish height hash c)
  unfolding publish finish_update
  publish-OneMore height hash c a =
      let (u, d) =
        finish_update (record c { checkpoint = W.insert_block height hash c.checkpoint }) in
      let o = send_event-OneMore (wallet_update u) d a in
      record {
        sends = o.sends;
        one_more = o.one_more;
        same_checkpoint = o.same_checkpoint;
        same_token = o.same_token;
        still_open = o.still_open;
      }

  receive_block-Round :
      (block : B.Block) (height : ℕ) (c : Client W)
      → Watching c
      → ((receive_block block height c).0 ≡ done tt)
        × Round height c (receive_block block height c).1
  unfolding receive_block apply_block continue
  receive_block-Round block height c v = ground (
    arith,
    insert_above height (B.block_hash block) c.checkpoint,
    publish-OneMore height (B.block_hash block) (apply_block block height c).1,
  )

  abort-Watching : (c : Client W) → Watching c → abort_if_cancelled c ≡ (done tt, c)
  unfolding abort_if_cancelled
  abort-Watching c v = ground (arith, uncancelled c.node.world)

  watch_blocks-round :
      (block : B.Block) (height : ℕ) (wakes : List (BlockWake B)) (c : Client W)
      → Watching c
      → watch_blocks (received block height ∷ wakes) c
        ≡ watch_blocks wakes (receive_block block height c).1
  unfolding watch_blocks
  watch_blocks-round block height wakes c v =
      continue-of_done (abort_if_cancelled c) _ tt (ap (λ r. r.0) (abort-Watching c v))
      ∙ ap (λ r. continue (receive_block block height r.1) (λ _. watch_blocks wakes))
          (abort-Watching c v)
      ∙ continue-of_done (receive_block block height c) _ tt
          (receive_block-Round block height c v).0

  -- If nobody cancels, the channel stays open and a block at or above the checkpoint's height moves
  -- the checkpoint there, the loop takes all blocks and waits for more. Its checkpoint is then at
  -- the greatest height, and it has sent one event for each block that was higher than all before
  -- it.
  pub watch_blocks_lem :
      (bs : List (B.Block × ℕ)) (c : Client W)
      → c.cancellation_token ≡ false
      → c.event_tx ≡ attached
      → let (r, d) = watch_blocks (all_received bs) c in
        (r ≡ pending)
        × (W.height d.checkpoint ≡ top_height (W.height c.checkpoint) bs)
        × (length d.sent ≡ length c.sent + count_new (W.height c.checkpoint) bs)
  unfolding watch_blocks top_height count_new
  watch_blocks_lem [] c t a =
      let v : Watching c = record { not_cancelled = t; open_channel = a } in
      let same =
        continue-of_done (abort_if_cancelled c) (λ _. still_waiting) tt
          (ap (λ r. r.0) (abort-Watching c v))
        ∙ ap (λ r. still_waiting r.1) (abort-Watching c v) in
      rw same (ground arith)
  watch_blocks_lem ((block, height) ∷ bs) c t a =
      let v : Watching c = record { not_cancelled = t; open_channel = a } in
      let (fine, round) = receive_block-Round block height c v in
      let rest =
        watch_blocks_lem bs (receive_block block height c).1 round.watching.not_cancelled
          round.watching.open_channel in
      rw (watch_blocks-round block height (all_received bs) c v, ← round.moved)
        (rest.0, rest.1, omega (arith, rest.2, round.counted))
