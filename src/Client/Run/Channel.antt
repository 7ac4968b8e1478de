-- ===== src/Client/Run/Channel.antt =====
-- src/client/mod.rs: the loop of `scan_continuous` and the chain that validates blocks, as two
-- sides of the block channel that make their steps in any order.
use mathlib.Core.List.{append_assoc, append-nil}
use bdk_floresta.Prelude.{ℕ, some, List, [], ◌∷◌, ◌++◌, ◌≡◌, refl, sym, ap, ◌∙◌, subst, arith}
use bdk_floresta.Node.Backend.{Backend}
use bdk_floresta.Client.Types.{Client, sender}
use bdk_floresta.Client.Wallet.{WalletLib}
use bdk_floresta.Client.Monad.{Scan, done, ◌>>◌, continue}
use bdk_floresta.Client.Update.{abort_if_cancelled, send_event, finish_update, publish, apply_block}
use bdk_floresta.Client.Forward.{on_block}
use bdk_floresta.Client.Forward.Lifetime.{on_block-attached}
use bdk_floresta.Client.Scan.Served.{Healthy, View, view, Live, Ends, then-Ends}
use bdk_floresta.Client.Scan.Served.Calls.{abort-Ends}
use bdk_floresta.Client.Run.{receive_block}
use bdk_floresta.Client.Run.Following.{with_new, with_all_new, receive_block-Ends}
use bdk_floresta.Client.Run.Replaced.{with_all_new-append}

module _ {B : Backend} {W : WalletLib B} where
  -- A round of the loop, with a block that it has taken from the channel.
  abbrev pub round : B.Block → ℕ → Scan W (Unit {0})
  round block height = do abort_if_cancelled; receive_block block height

  abbrev pub with_queue : List (B.Block × ℕ) → Client W → Client W
  with_queue q c = record c { forwarding = record (c.forwarding) { queue = q } }

  -- The client `d` is reached from `c`, while the chain has validated the blocks `bs`, in this
  -- order.
  pub data Followed (c : Client W) : List (B.Block × ℕ) → Client W → Type 0 where
    here : Followed c [] c
    -- the chain calls the sink
    validated :
        {bs cs : List (B.Block × ℕ)} {d e : Client W}
        → Followed c bs d
        → (block : B.Block) (height : ℕ) → cs ≡ bs ++ (block, height) ∷ []
        → e ≡ record d { forwarding = on_block block height d.forwarding }
        → Followed c cs e
    -- the loop takes the first block of the channel, and its round succeeds
    taken :
        {bs : List (B.Block × ℕ)} {d e : Client W}
        → Followed c bs d
        → (block : B.Block) (height : ℕ) (rest : List (B.Block × ℕ))
        → d.forwarding.queue ≡ (block, height) ∷ rest
        → round block height (with_queue rest d) ≡ (done tt, e)
        → Followed c bs e

  round-forwarding :
      (block : B.Block) (height : ℕ) (c : Client W)
      → (round block height c).1.forwarding ≡ c.forwarding
  unfolding abort_if_cancelled receive_block apply_block publish finish_update send_event continue
  round-forwarding block height c = ground arith

module _ {B : Backend} (W : WalletLib B) (H : Healthy W) where
  round-Ends :
      (block : B.Block) (height : ℕ) (c : Client W)
      → Live W c
      → Ends W (round block height c) tt (with_new W block height (view W c))
  round-Ends block height c l =
      then-Ends W (abort_if_cancelled c) _ tt tt (view W c) (with_new W block height)
        (abort-Ends W H c l) (receive_block-Ends W H block height)

  -- What is still in the channel makes up for what the loop has not done yet.
  record Tracks (k : ℕ) (v : View W) (bs : List (B.Block × ℕ)) (d : Client W) : Type 0 where
    live : Live W d
    attached_sink : d.forwarding.block_sink ≡ some (sender (some k))
    in_step : with_all_new W d.forwarding.queue (view W d) ≡ with_all_new W bs v

  validated-Tracks :
      (k : ℕ) (v : View W) (bs : List (B.Block × ℕ)) (d : Client W) (block : B.Block) (height : ℕ)
      → Tracks k v bs d
      → Tracks k v
          (bs ++ (block, height) ∷ [])
          (record d { forwarding = on_block block height d.forwarding })
  validated-Tracks k v bs d block height t =
      rw (on_block-attached block height k d.forwarding t.attached_sink) (record {
        live = t.live;
        attached_sink = t.attached_sink;
        in_step =
            with_all_new-append W d.forwarding.queue ((block, height) ∷ []) (view W d)
            ∙ ap (with_all_new W ((block, height) ∷ [])) t.in_step
            ∙ sym (with_all_new-append W bs ((block, height) ∷ []) v);
      })

  taken-Tracks :
      (k : ℕ) (v : View W) (bs : List (B.Block × ℕ)) (d : Client W) (block : B.Block) (height : ℕ)
      (rest : List (B.Block × ℕ))
      → Tracks k v bs d
      → d.forwarding.queue ≡ (block, height) ∷ rest
      → Tracks k v bs (round block height (with_queue rest d)).1
  unfolding with_all_new
  taken-Tracks k v bs d block height rest t q =
      let done_so = round-Ends block height (with_queue rest d) t.live in
      let same = round-forwarding block height (with_queue rest d) in
      record {
        live = done_so.live;
        attached_sink = ap (λ f. f.block_sink) same ∙ t.attached_sink;
        in_step =
            ap (λ f. with_all_new W f.queue (view W (round block height (with_queue rest d)).1))
              same
            ∙ ap (with_all_new W rest) done_so.same
            ∙ sym (ap (λ r. with_all_new W r (view W d)) q)
            ∙ t.in_step;
      }

  Followed-Tracks :
      (k : ℕ) (v : View W) (qs : List (B.Block × ℕ)) (c : Client W) {bs : List (B.Block × ℕ)}
      {d : Client W}
      → Tracks k v qs c
      → Followed c bs d
      → Tracks k v (qs ++ bs) d
  Followed-Tracks k v qs c t here = rw (append-nil qs) t
  Followed-Tracks k v qs c t (validated {bs} {cs} {d} r block height more e) =
      rw (e, more, ← append_assoc qs bs ((block, height) ∷ []))
        (validated-Tracks k v (qs ++ bs) d block height (Followed-Tracks k v qs c t r))
  Followed-Tracks k v qs c t (taken {bs} {d} r block height rest q e) =
      subst (λ x. Tracks k v (qs ++ bs) x) (ap (λ x. x.1) e)
        (taken-Tracks k v (qs ++ bs) d block height rest (Followed-Tracks k v qs c t r) q)

  -- The loop can go on until the channel is empty.
  drains :
      (k : ℕ) (v : View W) (ts : List (B.Block × ℕ)) (c : Client W) (bs q : List (B.Block × ℕ))
      (d : Client W)
      → Tracks k v ts d
      → Followed c bs d
      → d.forwarding.queue ≡ q
      → (e : Client W) × Followed c bs e × (e.forwarding.queue ≡ []) × Tracks k v ts e
  drains k v ts c bs [] d t r empty = (d, r, empty, t)
  drains k v ts c bs ((block, height) ∷ rest) d t r q =
      let e = (round block height (with_queue rest d)).1 in
      let over = (round-Ends block height (with_queue rest d) t.live).result in
      drains k v ts c bs rest e (taken-Tracks k v ts d block height rest t q)
        (taken r block height rest q (ground (arith, over)))
        (ap (λ f. f.queue) (round-forwarding block height (with_queue rest d)))

  -- On a node that answers, with a client that nobody cancels, whose channel of events stays open
  -- and whose sink holds a sender: in whatever order the chain validates blocks and the loop takes
  -- them, no block is lost, doubled or moved. What the loop has done, with the blocks still in the
  -- channel to come, is the reference over those that were in the channel at the start and those
  -- validated since, in their order. Without further blocks the loop can go on until the channel is
  -- empty, and then checkpoint, transaction graph and events are those of this reference.
  pub validated_blocks_arrive :
      (k : ℕ) (c d : Client W) (bs : List (B.Block × ℕ))
      → Live W c
      → c.forwarding.block_sink ≡ some (sender (some k))
      → Followed c bs d
      → let all = with_all_new W (c.forwarding.queue ++ bs) (view W c) in
        (with_all_new W d.forwarding.queue (view W d) ≡ all)
        × ((e : Client W) × Followed c bs e × (e.forwarding.queue ≡ []) × (view W e ≡ all))
  unfolding with_all_new
  validated_blocks_arrive k c d bs l a r =
      let q = c.forwarding.queue in
      let begun : Tracks k (view W c) q c = record {
        live = l;
        attached_sink = a;
        in_step = refl;
      } in
      let t = Followed-Tracks k (view W c) q c begun r in
      let (e, more, empty, u) = drains k (view W c) (q ++ bs) c bs d.forwarding.queue d t r refl in
      let all = with_all_new W (q ++ bs) (view W c) in
      let same = subst (λ left. with_all_new W left (view W e) ≡ all) empty u.in_step in
      (t.in_step, (e, more, empty, same))
