-- ===== src/Client/Run/Gap/Quiet.antt =====
-- src/client/mod.rs: at which heights the references of the scans announce updates.
use bdk_floresta.Prelude.{
  ℕ, ◌+◌, ◌≤◌, ◌<◌, none, some, List, [], ◌∷◌, ◌++◌, ◌≡◌, ◌≢◌, refl, sym, subst, arith, ltb, leb,
  Bool-cases, inl, inr,
}
use bdk_floresta.Node.Backend.{Backend}
use bdk_floresta.Client.Types.{ScanEvent, wallet_update, finished, error}
use bdk_floresta.Client.Wallet.{WalletLib}
use bdk_floresta.Client.Scan.Served.{View, announced, with_block, with_blocks, with_end}
use bdk_floresta.Client.Run.Following.{with_new, with_all_new}

-- Every block is above the height.
abbrev pub AllAbove : {A : Type 0} → ℕ → List (A × ℕ) → Type 0
AllAbove h [] = Unit {0}
AllAbove h ((_, height) ∷ bs) = (h < height) × AllAbove h bs

module _ {B : Backend} (W : WalletLib B) where
  -- The event is no update to a checkpoint of the height.
  abbrev pub NotAt : ℕ → ScanEvent W → Type 0
  NotAt h (wallet_update u) = elim u.chain [ none ↦ Unit {0} | some cp ↦ W.height cp ≢ h ]
  NotAt h (finished _) = Unit {0}
  NotAt h (error _) = Unit {0}

  abbrev pub NoneAt : ℕ → List (ScanEvent W) → Type 0
  NoneAt h [] = Unit {0}
  NoneAt h (event ∷ events) = NotAt h event × NoneAt h events

  pub NoneAt-append :
      (h : ℕ) (es : List (ScanEvent W)) (e : ScanEvent W)
      → NoneAt h es
      → NotAt h e
      → NoneAt h (es ++ e ∷ [])
  NoneAt-append h [] e k n = (n, tt)
  NoneAt-append h (x ∷ es) e (m, k) n = (m, NoneAt-append h es e k n)

  abbrev pub BlocksAtMost : (B.Hash → ℕ) → ℕ → List B.Block → Type 0
  BlocksAtMost height_of h [] = Unit {0}
  BlocksAtMost height_of h (block ∷ blocks) =
      (height_of (B.block_hash block) ≤ h) × BlocksAtMost height_of h blocks

module _ {B : Backend} (W : WalletLib B)
    (insert_above : (h : ℕ) (hash : B.Hash) (cp : W.CheckPoint)
      → W.height cp ≤ h
      → W.height (W.insert_block h hash cp) ≡ h)
    (insert_below : (h : ℕ) (hash : B.Hash) (cp : W.CheckPoint)
      → h ≤ W.height cp
      → W.height (W.insert_block h hash cp) ≤ W.height cp) where
  -- The checkpoint is at the height `tip` or below, and nothing right above it has been announced.
  pub record Low (tip : ℕ) (v : View W) : Type 0 where
    pub low : W.height v.checkpoint ≤ tip
    pub none_above : NoneAt W (tip + 1) v.sent

  pub announced-Low :
      (tip height : ℕ) (hash : B.Hash) (v : View W)
      → height ≤ tip
      → Low tip v
      → Low tip (announced W height hash v)
  announced-Low tip height hash v h l =
      let at : W.height (W.insert_block height hash v.checkpoint) ≤ tip = ground (
        arith,
        l.low,
        insert_above height hash v.checkpoint,
        insert_below height hash v.checkpoint,
      ) in
      record {
        low = at;
        none_above = NoneAt-append W (tip + 1) v.sent _ l.none_above (λ e. omega (arith, at, e));
      }

  with_block-Low :
      (tip height : ℕ) (block : B.Block) (v : View W)
      → height ≤ tip
      → Low tip v
      → Low tip (with_block W height block v)
  with_block-Low tip height block v h l =
      let (changeset, g) = W.apply_block_relevant block height v.tx_graph in
      let u : View W = record v { tx_graph = g } in
      let m : Low tip u = record { low = l.low; none_above = l.none_above } in
      elim (Bool-cases (W.changes_nothing changeset)) [
        | inl nothing ↦ rw nothing m
        | inr something ↦ rw something (announced-Low tip height (B.block_hash block) u h m)
      ]

  pub with_blocks-Low :
      (tip : ℕ) (height_of : B.Hash → ℕ) (blocks : List B.Block) (v : View W)
      → BlocksAtMost W height_of tip blocks
      → Low tip v
      → Low tip (with_blocks W height_of blocks v)
  unfolding with_blocks
  with_blocks-Low tip height_of [] v h l = l
  with_blocks-Low tip height_of (block ∷ blocks) v (h, hs) l =
      with_blocks-Low tip height_of blocks _ hs
        (with_block-Low tip (height_of (B.block_hash block)) block v h l)

  pub with_end-Low :
      (tip : ℕ) (hash : B.Hash) (v : View W) → Low tip v → Low tip (with_end W tip hash v)
  with_end-Low tip hash v l = elim (Bool-cases (ltb (W.height v.checkpoint) tip)) [
    | inl below ↦ rw below (announced-Low tip tip hash v (omega arith) l)
    | inr above ↦ rw above l
  ]

  -- A block higher than that is announced at its own height.
  with_new-NoneAt :
      (h height : ℕ) (block : B.Block) (v : View W)
      → h < height
      → NoneAt W h v.sent
      → NoneAt W h (with_new W block height v).sent
  with_new-NoneAt h height block v above n =
      let hash = B.block_hash block in
      let g = (W.apply_block_relevant block height v.tx_graph).1 in
      let told = announced W height hash (record v { tx_graph = g }) in
      elim (Bool-cases (leb height (W.height v.checkpoint))) [
        | inl known ↦
            let same : with_new W block height v ≡ v = rw known refl in
            subst (λ x. NoneAt W h x.sent) (sym same) n
        | inr new ↦
            let at : W.height (W.insert_block height hash v.checkpoint) ≡ height =
              insert_above height hash v.checkpoint (ground (arith, new)) in
            let same : with_new W block height v ≡ told = rw new refl in
            subst (λ x. NoneAt W h x.sent) (sym same)
              (NoneAt-append W h v.sent _ n λ e. omega (arith, at, e, above))
      ]

  pub with_all_new-NoneAt :
      (h : ℕ) (bs : List (B.Block × ℕ)) (v : View W)
      → AllAbove h bs
      → NoneAt W h v.sent
      → NoneAt W h (with_all_new W bs v).sent
  unfolding with_all_new
  with_all_new-NoneAt h [] v a n = n
  with_all_new-NoneAt h ((block, height) ∷ bs) v (above, as') n =
      with_all_new-NoneAt h bs (with_new W block height v) as'
        (with_new-NoneAt h height block v above n)
