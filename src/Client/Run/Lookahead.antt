-- ===== src/Client/Run/Lookahead.antt =====
-- src/client/mod.rs: the lookahead that a scan is asked for, and the one of the index that its
-- blocks are applied to.
use bdk_floresta.Prelude.{
  ℕ, suc, ◌+◌, ◌≤◌, true, false, none, some, List, [], ◌∷◌, ◌++◌, map, ◌≡◌, refl, ap, ◌∙◌, arith,
  ltb, Bool-cases, inl, inr, length, length-append, if◌then◌else◌,
}
use bdk_floresta.Node.Backend.{Backend}
use bdk_floresta.Client.Types.{Client, ScanKind, ScanEvent, finished}
use bdk_floresta.Client.Wallet.{WalletLib, KeychainKind}
use bdk_floresta.Client.Monad.{done}
use bdk_floresta.Client.Spks.Coverage.{Among}
use bdk_floresta.Client.Scan.{derive_for, kind_start}
use bdk_floresta.Client.Scan.Served.{Healthy, View, view, with_block, with_blocks, with_end, Live}
use bdk_floresta.Client.Run.{StateWake, scan}
use bdk_floresta.Client.Run.Served.{scan-served}

module _ {B : Backend} (W : WalletLib B) where
  -- How many script pubkeys of a keychain an index keeps: those revealed, and its own lookahead.
  abbrev pub kept_count : W.Index → KeychainKind → ℕ
  kept_count index keychain = elim (W.last_revealed_index index keychain) [
    | none ↦ W.lookahead index
    | some last ↦ suc last + W.lookahead index
  ]

  abbrev pub Kept : W.Index → B.Spk → Type 0
  Kept index spk =
      (keychain : KeychainKind) × (iter : W.SpkIter) × (W.unbounded_spk_iter index keychain
        ≡ some iter)
      × Among W spk (kept_count index keychain) iter

-- What an index documents: it recognises what touches, by an output or by an input, a script pubkey
-- that it keeps, and nothing else; and a block in which it recognises nothing leaves it as it is.
pub record Indexed {B : Backend} (W : WalletLib B) : Type 1 where
  pub Touches : B.Block → B.Spk → Type 0
  pub irrelevant :
      (block : B.Block) (height : ℕ) (g : W.IndexedTxGraph)
      → ((spk : B.Spk) → Touches block spk → ¬ Kept W (W.index g) spk)
      → W.changes_nothing (W.apply_block_relevant block height g).0 ≡ true
  pub no_change :
      (block : B.Block) (height : ℕ) (g : W.IndexedTxGraph)
      → W.changes_nothing (W.apply_block_relevant block height g).0 ≡ true
      → W.index (W.apply_block_relevant block height g).1 ≡ W.index g

module _ {B : Backend} (W : WalletLib B) (I : Indexed W) where
  -- No block touches a script pubkey that the index keeps.
  abbrev pub Untouched : W.Index → List B.Block → Type 0
  Untouched index [] = Unit {0}
  Untouched index (block ∷ blocks) =
      ((spk : B.Spk) → I.Touches block spk → ¬ Kept W index spk) × Untouched index blocks

  -- Nothing is announced.
  record Unmoved (v u : View W) : Type 0 where
    same_checkpoint : u.checkpoint ≡ v.checkpoint
    same_events : u.sent ≡ v.sent

  with_block-nothing :
      (height : ℕ) (block : B.Block) (v : View W)
      → W.changes_nothing (W.apply_block_relevant block height v.tx_graph).0 ≡ true
      → with_block W height block v
        ≡ record v { tx_graph = (W.apply_block_relevant block height v.tx_graph).1 }
  with_block-nothing height block v h = rw h refl

  with_blocks-Unmoved :
      (height_of : B.Hash → ℕ) (blocks : List B.Block) (v : View W) (index : W.Index)
      → W.index v.tx_graph ≡ index
      → Untouched index blocks
      → Unmoved v (with_blocks W height_of blocks v)
  unfolding with_blocks
  with_blocks-Unmoved height_of [] v index e h = record {
    same_checkpoint = refl;
    same_events = refl;
  }
  with_blocks-Unmoved height_of (block ∷ blocks) v index e (h, hs) =
      let height = height_of (B.block_hash block) in
      let u : View W = record v { tx_graph = (W.apply_block_relevant block height v.tx_graph).1 } in
      let nothing = I.irrelevant block height v.tx_graph (rw e h) in
      let rest =
        with_blocks-Unmoved height_of blocks u index
          (I.no_change block height v.tx_graph nothing ∙ e) hs in
      rw (with_block-nothing height block v nothing)
        (record { same_checkpoint = rest.same_checkpoint; same_events = rest.same_events })

  two_more :
      (es : List (ScanEvent W)) (e f : ScanEvent W)
      → length ((es ++ e ∷ []) ++ f ∷ []) ≡ length es + 2
  two_more es e f = omega (arith, length-append (es ++ e ∷ []) (f ∷ []), length-append es (e ∷ []))

  -- The end of a scan that has announced no block.
  ended :
      (stop : ℕ) (hash : B.Hash) (v u : View W)
      → Unmoved v u
      → let x = with_end W stop hash u in
        (x.checkpoint ≡ (
          if ltb (W.height v.checkpoint) stop
          then W.insert_block stop hash v.checkpoint
          else v.checkpoint))
        × (length (x.sent ++ finished false ∷ [])
            ≡ length v.sent + (if ltb (W.height v.checkpoint) stop then 2 else 1))
  ended stop hash v u m = elim (Bool-cases (ltb (W.height v.checkpoint) stop)) [
    | inl below ↦
        let below' : ltb (W.height u.checkpoint) stop ≡ true = rw m.same_checkpoint below in
        rw (below, below')
          (
            ap (W.insert_block stop hash) m.same_checkpoint,
            two_more u.sent _ (finished false) ∙ ap (λ es. length es + 2) m.same_events,
          )
    | inr above ↦
        let above' : ltb (W.height u.checkpoint) stop ≡ false = rw m.same_checkpoint above in
        rw (above, above')
          (
            m.same_checkpoint,
            length-append u.sent (finished false ∷ []) ∙ ap (λ es. length es + 1) m.same_events,
          )
  ]

  module _ (H : Healthy W) where
    -- On a node that answers as for a served scan, and with an index that recognises what touches
    -- the script pubkeys that it keeps, those revealed and as many more as its own lookahead says,
    -- and nothing else: a scan of whatever kind, also a full scan or a custom one that is asked for
    -- a greater lookahead, passes over the blocks that its filters match if these touch only script
    -- pubkeys beyond those that the index keeps. It succeeds, announces none of these blocks, and
    -- moves the checkpoint to the filters' tip past them.
    pub lookahead_not_applied :
        (wakes : List StateWake) (kind : ScanKind) (spks : List B.Spk) (c : Client W)
        → (derive_for kind c).0 ≡ done spks
        → kind_start kind c ≤ H.tip
        → Live W c
        → Untouched (W.index c.tx_graph) (map H.block_of (H.matches spks (kind_start kind c) H.tip))
        → let (r, d) = scan wakes kind c in
          (r ≡ done tt)
          × (d.checkpoint ≡ (
              if ltb (W.height c.checkpoint) H.tip
              then W.insert_block H.tip (H.hash_at H.tip) c.checkpoint
              else c.checkpoint))
          × (length d.sent ≡ length c.sent + (if ltb (W.height c.checkpoint) H.tip then 2 else 1))
    lookahead_not_applied wakes kind spks c derived start l h =
        let v = view W c in
        let (over, same) = scan-served W H wakes kind spks c derived start l in
        let blocks = map H.block_of (H.matches spks (kind_start kind c) H.tip) in
        let u = with_blocks-Unmoved H.height_of blocks v (W.index c.tx_graph) refl h in
        let (at, count) = ended H.tip (H.hash_at H.tip) v (with_blocks W H.height_of blocks v) u in
        (over, ap (λ x. x.checkpoint) same ∙ at, ap (λ x. length x.sent) same ∙ count)
