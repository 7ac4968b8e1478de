-- ===== src/Client/Forward/Lifetime.antt =====
-- src/client/mod.rs: what the block channel receives, and how often the sink is registered.
use bdk_floresta.Prelude.{
  ℕ, ◌≤◌, none, some, List, [], ◌∷◌, ◌++◌, ◌≡◌, refl, arith, ap, ◌∙◌, ◌≢◌, ◌↔◌, Option-cases, inl,
  inr,
}
use bdk_floresta.Node.Backend.{Backend}
use bdk_floresta.Client.Types.{BlockTx, poisoned_tx, sender, Forwarding}
use bdk_floresta.Client.Forward.{on_block, enable, drop_guard}
use mathlib.Core.List.{append_assoc, append-nil}

module _ {B : Backend} where
  -- The chain validates these blocks, in this order.
  abbrev pub on_blocks : List (B.Block × ℕ) → Forwarding B → Forwarding B
  on_blocks [] f = f
  on_blocks ((block, height) ∷ bs) f = on_blocks bs (on_block block height f)

  pub on_block-attached :
      (block : B.Block) (height k : ℕ) (f : Forwarding B)
      → f.block_sink ≡ some (sender (some k))
      → on_block block height f ≡ record f { queue = f.queue ++ (block, height) ∷ [] }
  unfolding on_block
  on_block-attached block height k f e = ground arith

  pub on_blocks-attached :
      (bs : List (B.Block × ℕ)) (k : ℕ) (f : Forwarding B)
      → f.block_sink ≡ some (sender (some k))
      → on_blocks bs f ≡ record f { queue = f.queue ++ bs }
  on_blocks-attached [] k f e = cc (append-nil f.queue)
  on_blocks-attached ((block, height) ∷ bs) k f e =
      let g = record f { queue = f.queue ++ (block, height) ∷ [] } in
      ap (on_blocks bs) (on_block-attached block height k f e)
      ∙ on_blocks-attached bs k g e
      ∙ ap (λ q. record f { queue = q }) (append_assoc f.queue ((block, height) ∷ []) bs)

  fresh-of :
      (f : Forwarding B) (tx : BlockTx)
      → f.block_sink ≡ some tx
      → tx ≢ poisoned_tx
      → (g : Forwarding B) × (k : ℕ) × (enable f ≡ some g)
        × (g.block_sink ≡ some (sender (some k)))
        × (g.queue ≡ [])
  unfolding enable
  fresh-of f poisoned_tx e n = elim (n refl) [ ]
  fresh-of f (sender _) e n = rw e (_, _, refl, refl, refl)

  -- A registration, unless the sink's lock is poisoned, gives it the sender of a fresh channel.
  pub enable-fresh :
      (f : Forwarding B)
      → ¬ (f.block_sink ≡ some poisoned_tx)
      → (g : Forwarding B) × (k : ℕ) × (enable f ≡ some g)
        × (g.block_sink ≡ some (sender (some k)))
        × (g.queue ≡ [])
  unfolding enable
  enable-fresh f sound = elim (Option-cases f.block_sink) [
    | inl e ↦ rw e (_, _, refl, refl, refl)
    | inr (tx, e) ↦ fresh-of f tx e (λ p. sound (e ∙ ap some p))
  ]

  on_blocks-detached :
      (bs : List (B.Block × ℕ)) (f : Forwarding B)
      → f.block_sink ≡ some (sender none)
      → on_blocks bs f ≡ f
  unfolding on_block
  on_blocks-detached [] f e = refl
  on_blocks-detached ((block, height) ∷ bs) f e =
      let same : on_block block height f ≡ f = ground arith in
      ap (on_blocks bs) same ∙ on_blocks-detached bs f e

  enable-attached :
      (f g : Forwarding B)
      → enable f ≡ some g
      → (g.block_sink ≡ some (sender (some f.channels))) × (g.queue ≡ [])
  unfolding enable
  enable-attached f g e = ground arith

  drop_guard-detached :
      (f : Forwarding B) (k : ℕ)
      → f.block_sink ≡ some (sender (some k))
      → (drop_guard f).block_sink ≡ some (sender none)
  unfolding drop_guard
  drop_guard-detached f k e = ground arith

  -- While a continuous scan holds its guard, its channel receives exactly the blocks that are
  -- validated since, in their order; blocks validated after the guard is dropped are not kept.
  pub channel_lifetime :
      (f g : Forwarding B) (bs later : List (B.Block × ℕ))
      → enable f ≡ some g
      → ((on_blocks bs g).queue ≡ bs)
        × (on_blocks later (drop_guard (on_blocks bs g)) ≡ drop_guard (on_blocks bs g))
  channel_lifetime f g bs later e =
      let (attached, fresh) = enable-attached f g e in
      let received = on_blocks-attached bs f.channels g attached in
      let still : (on_blocks bs g).block_sink ≡ some (sender (some f.channels)) =
        rw received attached in
      (
        ap (λ h. h.queue) received ∙ ap (λ q. q ++ bs) fresh,
        on_blocks-detached later (drop_guard (on_blocks bs g))
            (drop_guard-detached _ f.channels still),
      )

-- A call of the client, of its guard or of the chain.
pub data SinkCall (B : Backend) : Type 0 where
  enables drops : SinkCall B
  validates : B.Block → ℕ → SinkCall B

module _ {B : Backend} where
  -- A call that fails leaves the sink as it is.
  abbrev on_sink_call : SinkCall B → Forwarding B → Forwarding B
  on_sink_call enables f = elim (enable f) [ none ↦ f | some g ↦ g ]
  on_sink_call drops f = drop_guard f
  on_sink_call (validates block height) f = on_block block height f

  abbrev pub on_sink_calls : List (SinkCall B) → Forwarding B → Forwarding B
  on_sink_calls [] f = f
  on_sink_calls (call ∷ calls) f = on_sink_calls calls (on_sink_call call f)

  abbrev Registered : Forwarding B → Type 0
  Registered f = (f.block_sink ≡ none → f.subscribed ≡ 0) × (f.block_sink ≢ none → f.subscribed ≡ 1)

  on_sink_call-Registered :
      (call : SinkCall B) (f : Forwarding B) → Registered f → Registered (on_sink_call call f)
  unfolding enable drop_guard on_block
  on_sink_call-Registered enables f h = ground arith
  on_sink_call-Registered drops f h = ground arith
  on_sink_call-Registered (validates block height) f h = ground arith

  on_sink_calls-Registered :
      (calls : List (SinkCall B)) (f : Forwarding B)
      → Registered f
      → Registered (on_sink_calls calls f)
  on_sink_calls-Registered [] f h = h
  on_sink_calls-Registered (call ∷ calls) f h =
      on_sink_calls-Registered calls (on_sink_call call f) (on_sink_call-Registered call f h)

  -- Over the whole life of a client that starts with no sink, with any number of continuous scans,
  -- a sink is registered at the node at most once, and exactly once if there is one.
  pub sink_registered_once :
      (f : Forwarding B) (calls : List (SinkCall B))
      → f.block_sink ≡ none
      → f.subscribed ≡ 0
      → let g = on_sink_calls calls f in
        (g.subscribed ≤ 1) × ((g.subscribed ≡ 1) ↔ (g.block_sink ≢ none))
  sink_registered_once f calls fresh zero_times =
      let h : Registered (on_sink_calls calls f) =
        on_sink_calls-Registered calls f (λ _. zero_times, λ k. absurd (k fresh)) in
      elim (Option-cases (on_sink_calls calls f).block_sink) [
        | inl e ↦ ground arith
        | inr (tx, e) ↦ ground arith
      ]
