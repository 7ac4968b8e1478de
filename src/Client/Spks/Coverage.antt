-- ===== src/Client/Spks/Coverage.antt =====
-- src/client/mod.rs: which script pubkeys a scan looks for.
use bdk_floresta.Prelude.{
  ℕ, zero, suc, ◌+◌, saturating_add, ◌<◌, ◌≤◌, Option, none, some, List, [], ◌∷◌, ◌++◌, ok, ◌≡◌,
  refl, ◌⊎◌, inl, inr, ◌↔◌, arith, length, length-append, Option-cases,
}
use bdk_floresta.Node.Backend.{Backend}
use bdk_floresta.Client.Wallet.{WalletLib, KeychainKind, external, internal}
use bdk_floresta.Client.Spks.{
  unwrap_or, take_spks, spk_bound, internal_spks, derive_spks_with_custom_lookahead,
}
use mathlib.Core.Option.{some-injective}

module _ {A : Type 0} where
  -- The list has the element.
  abbrev pub Has : A → List A → Type 0
  Has a [] = ⊥
  Has a (x ∷ xs) = (a ≡ x) ⊎ Has a xs

  Has-append : (a : A) (xs ys : List A) → Has a (xs ++ ys) ↔ (Has a xs ⊎ Has a ys)
  Has-append a [] ys = (inr, λ h. ground arith)
  Has-append a (x ∷ xs) ys =
      let (to, from) = Has-append a xs ys in (λ h. ground arith, λ h. ground arith)

-- The index counts as one that is scanned for, by the last revealed index and the lookahead.
abbrev pub Counted : Option ℕ → ℕ → ℕ → Type 0
Counted none lookahead i = (i < lookahead) × (i < 4294967295)
Counted (some last) lookahead i = (i < last + lookahead) × (i < 4294967295)

bound-Counted :
    (last : Option ℕ) (lookahead i : ℕ)
    → (i < saturating_add (unwrap_or last 0) lookahead) ↔ Counted last lookahead i
bound-Counted none lookahead i = (λ h. ground arith, λ h. ground arith)
bound-Counted (some k) lookahead i = (λ h. ground arith, λ h. ground arith)

module _ {B : Backend} (W : WalletLib B) where
  -- The script pubkey that an iterator yields after `i` others.
  unfoldable pub nth_spk : ℕ → W.SpkIter → Option B.Spk
  nth_spk zero iter = elim (W.next_spk iter) [ none ↦ none | some ((_, spk), _) ↦ some spk ]
  nth_spk (suc i) iter = elim (W.next_spk iter) [ none ↦ none | some (_, rest) ↦ nth_spk i rest ]

  -- The first `bound` script pubkeys of an iterator.
  abbrev pub Among : B.Spk → ℕ → W.SpkIter → Type 0
  Among spk bound iter = (i : ℕ) × (i < bound) × (nth_spk i iter ≡ some spk)

  -- A script pubkey of the iterator whose index counts.
  abbrev pub Derived : Option ℕ → ℕ → B.Spk → W.SpkIter → Type 0
  Derived last lookahead spk iter = (i : ℕ) × Counted last lookahead i × (nth_spk i iter ≡ some spk)

  Among-suc :
      (spk : B.Spk) (bound : ℕ) (iter rest : W.SpkIter) (j : ℕ) (s : B.Spk)
      → W.next_spk iter ≡ some ((j, s), rest)
      → (spk ≡ s) ⊎ Among spk bound rest
      → Among spk (suc bound) iter
  unfolding nth_spk
  Among-suc spk bound iter rest j s e (inl first) = (0, omega arith, ground arith)
  Among-suc spk bound iter rest j s e (inr (i, l, h)) = (suc i, omega arith, ground arith)

  Has-take :
      (spk : B.Spk) (bound : ℕ) (iter : W.SpkIter)
      → Has spk (take_spks W bound iter)
      → Among spk bound iter
  unfolding take_spks
  Has-take spk zero iter h = elim h [ ]
  Has-take spk (suc bound) iter h = elim (Option-cases (W.next_spk iter)) [
    | inl e ↦ ground arith
    | inr (((j, s), rest), e) ↦
        let split : (spk ≡ s) ⊎ Has spk (take_spks W bound rest) = ground arith in
        Among-suc spk bound iter rest j s e
          (elim split [ inl first ↦ inl first | inr later ↦ inr (Has-take spk bound rest later) ])
  ]

  take-Has :
      (spk : B.Spk) (bound i : ℕ) (iter : W.SpkIter)
      → i < bound
      → nth_spk i iter ≡ some spk
      → Has spk (take_spks W bound iter)
  unfolding take_spks nth_spk
  take-Has spk zero i iter l h = elim l [ ]
  take-Has spk (suc bound) zero iter l h = ground arith
  take-Has spk (suc bound) (suc i) iter l h = elim (Option-cases (W.next_spk iter)) [
    | inl e ↦ ground arith
    | inr (((j, s), rest), e) ↦ ground (arith, take-Has spk bound i rest)
  ]

  Has-internal :
      (spk : B.Spk) (bound : ℕ) (o : Option W.SpkIter)
      → Has spk (internal_spks W bound o)
        ↔ ((inner : W.SpkIter) × (o ≡ some inner) × Among spk bound inner)
  Has-internal spk bound none = (λ h. elim h [ ], λ h. cc (h.1))
  Has-internal spk bound (some inner) = (
    λ h. (inner, refl, Has-take spk bound inner h),
    λ (other, e, (i, l, h)). take-Has spk bound i inner l (rw (some-injective inner other e) h),
  )

  derived_within :
      (index : W.Index) (lookahead : ℕ) (iter : W.SpkIter)
      → W.unbounded_spk_iter index external ≡ some iter
      → (spks : List B.Spk) × (derive_spks_with_custom_lookahead W index lookahead ≡ ok spks)
        × ((spk : B.Spk)
            → Has spk spks ↔ (
                Among spk (spk_bound W index external lookahead) iter
                ⊎ ((inner : W.SpkIter) × (W.unbounded_spk_iter index internal ≡ some inner)
                    × Among spk (spk_bound W index internal lookahead) inner)))
  unfolding derive_spks_with_custom_lookahead
  derived_within index lookahead iter e =
      let m = spk_bound W index external lookahead in
      let n = spk_bound W index internal lookahead in
      let outer = take_spks W m iter in
      let inner = internal_spks W n (W.unbounded_spk_iter index internal) in
      (
        outer ++ inner,
        ground arith,
        λ spk.
            let (split, join) = Has-append spk outer inner in
            let (open_up, close) = Has-internal spk n (W.unbounded_spk_iter index internal) in
            (
              λ h. elim (split h) [ inl k ↦ inl (Has-take spk m iter k) | inr k ↦ inr (open_up k) ],
              λ h. elim h [
                | inl (i, l, k) ↦ join (inl (take-Has spk m i iter l k))
                | inr k ↦ join (inr (close k))
              ],
            ),
      )

  -- What the first script pubkeys of a keychain up to the bound are.
  Among-Derived :
      (spk : B.Spk) (index : W.Index) (keychain : KeychainKind) (lookahead : ℕ) (iter : W.SpkIter)
      → Among spk (spk_bound W index keychain lookahead) iter
        ↔ Derived (W.last_revealed_index index keychain) lookahead spk iter
  Among-Derived spk index keychain lookahead iter =
      let last = W.last_revealed_index index keychain in
      (
        λ (i, l, h). (i, (bound-Counted last lookahead i).0 l, h),
        λ (i, l, h). (i, (bound-Counted last lookahead i).1 l, h),
      )

  -- If the wallet has an external keychain, the derivation succeeds, and it yields exactly the
  -- script pubkeys of the external keychain, and of the internal one where that exists, whose place
  -- in the keychain's iterator, from zero on, is below both the largest `u32` and the sum of the
  -- lookahead and the keychain's last revealed index, or the lookahead alone if nothing is
  -- revealed.
  pub derive_spks_lem :
      (index : W.Index) (lookahead : ℕ) (iter : W.SpkIter)
      → W.unbounded_spk_iter index external ≡ some iter
      → (spks : List B.Spk) × (derive_spks_with_custom_lookahead W index lookahead ≡ ok spks)
        × ((spk : B.Spk)
            → Has spk spks ↔ (
                Derived (W.last_revealed_index index external) lookahead spk iter
                ⊎ ((inner : W.SpkIter) × (W.unbounded_spk_iter index internal ≡ some inner)
                    × Derived (W.last_revealed_index index internal) lookahead spk inner)))
  derive_spks_lem index lookahead iter e =
      let (spks, derived, within) = derived_within index lookahead iter e in
      (
        spks,
        derived,
        λ spk. (
          λ h. elim ((within spk).0 h) [
            | inl a ↦ inl ((Among-Derived spk index external lookahead iter).0 a)
            | inr (inner, i, a) ↦
                inr (inner, i, (Among-Derived spk index internal lookahead inner).0 a)
          ],
          λ h. elim h [
            | inl a ↦ (within spk).1 (inl ((Among-Derived spk index external lookahead iter).1 a))
            | inr (inner, i, a) ↦
                (within spk).1
                  (inr (inner, i, (Among-Derived spk index internal lookahead inner).1 a))
          ],
        ),
      )

  length-take_spks : (bound : ℕ) (iter : W.SpkIter) → length (take_spks W bound iter) ≤ bound
  unfolding take_spks
  length-take_spks zero iter = omega arith
  length-take_spks (suc bound) iter = elim (Option-cases (W.next_spk iter)) [
    | inl e ↦ ground arith
    | inr (((j, s), rest), e) ↦ ground (arith, length-take_spks bound rest)
  ]

  -- With a lookahead of zero and no internal keychain, at most as many script pubkeys are derived
  -- as the last revealed index says, although one more of them has been revealed.
  pub derive_spks_short :
      (index : W.Index) (k : ℕ) (spks : List B.Spk)
      → W.last_revealed_index index external ≡ some k
      → W.unbounded_spk_iter index internal ≡ none
      → derive_spks_with_custom_lookahead W index 0 ≡ ok spks
      → length spks ≤ k
  unfolding derive_spks_with_custom_lookahead
  derive_spks_short index k spks r i h = elim (Option-cases (W.unbounded_spk_iter index external)) [
    | inl e ↦ ground arith
    | inr (iter, e) ↦ ground (
      arith,
      length-take_spks (spk_bound W index external 0) iter,
      length-append (take_spks W (spk_bound W index external 0) iter) [],
    )
  ]
