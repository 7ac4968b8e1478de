-- ===== src/Client/Scan/Errors.antt =====
-- src/client/mod.rs: which errors `scan_inner` fails with, and when.
pub mod InRange
use bdk_floresta.Prelude.{
  ℕ, ◌<◌, ◌≤◌, true, false, none, some, List, Result, ok, err, ◌≡◌, ◌≢◌, refl, ◌↔◌, ◌⊎◌, inl, inr,
  arith, ltb, Bool-cases, Option-cases,
}
use bdk_floresta.Node.Backend.{Backend}
use bdk_floresta.Node.Local.{get_filter_height}
use bdk_floresta.Client.Types.{
  Client, ClientError, network_mismatch, invalid_range, no_external_keychain, unresponsive_node,
  ScanKind, sync, full_scan, custom,
}
use bdk_floresta.Client.Wallet.{WalletLib, external}
use bdk_floresta.Client.Monad.{Outcome, done, failed, continue, ask}
use bdk_floresta.Client.Spks.{unwrap_or, derive_spks, derive_spks_with_custom_lookahead}
use bdk_floresta.Client.Scan.{derive_for, scan_range, scan_inner, kind_start, full_scan_lookahead}
use bdk_floresta.Client.Scan.Errors.InRange.{
  FailsLater, failed-Later, scan_range-Later, scan_range-below,
}

Result-cases : {A E : Type 0} (r : Result E A) → ((a : A) × (r ≡ ok a)) ⊎ ((e : E) × (r ≡ err e))
Result-cases (ok a) = inl (a, refl)
Result-cases (err e) = inr (e, refl)

ltb-true : (a b : ℕ) → ltb a b ≡ true → a < b
ltb-true a b h = ground arith

ltb-false : (a b t : ℕ) → ltb a b ≡ false → t ≡ a → b ≤ t
ltb-false a b t h e = ground arith

less_not_above : (b a s : ℕ) → b < a → a ≡ s → s ≤ b → ⊥
less_not_above b a s l e h = omega arith

less_moved : (b stop a start : ℕ) → b ≡ stop → a ≡ start → stop < start → b < a
less_moved b stop a start e e' l = omega arith

module _ {B : Backend} (W : WalletLib B) where
  keys :
      (index : W.Index) (lookahead : ℕ) (iter : W.SpkIter)
      → W.unbounded_spk_iter index external ≡ some iter
      → (spks : List B.Spk) × (derive_spks_with_custom_lookahead W index lookahead ≡ ok spks)
  unfolding derive_spks_with_custom_lookahead
  keys index lookahead iter e = rw (e, derive_spks_with_custom_lookahead) (_, refl)

module _ {B : Backend} {W : WalletLib B} where
  -- What a scan comes to, by its wallet and the height of the filters.
  abbrev Comes : ScanKind → Client W → Outcome (ClientError B) (Unit {0}) → Type 0
  Comes kind c r =
      let keychain = W.unbounded_spk_iter (W.index c.tx_graph) external in
      let filters = (B.filters_height c.node.world).0 in
      ((keychain ≡ none) × (r ≡ failed no_external_keychain))
      ⊎ ((keychain ≢ none)
          × (((stop : ℕ) × (filters ≡ ok stop)
                × (stop < kind_start kind c)
                × (r ≡ failed (invalid_range (kind_start kind c) stop)))
              ⊎ (((stop : ℕ) → filters ≡ ok stop → kind_start kind c ≤ stop) × FailsLater r)))

  derive_for-none :
      (kind : ScanKind) (c : Client W)
      → W.unbounded_spk_iter (W.index c.tx_graph) external ≡ none
      → derive_for kind c ≡ (failed no_external_keychain, c)
  unfolding derive_for derive_spks derive_spks_with_custom_lookahead
  derive_for-none sync c e = ground arith
  derive_for-none (full_scan custom_lookahead) c e = ground arith
  derive_for-none (custom start_height custom_lookahead) c e = ground arith

  derive_for-some :
      (kind : ScanKind) (c : Client W) (iter : W.SpkIter)
      → W.unbounded_spk_iter (W.index c.tx_graph) external ≡ some iter
      → (spks : List B.Spk) × (derive_for kind c ≡ (done spks, c))
  unfolding derive_for derive_spks
  derive_for-some sync c iter e =
      let index = W.index c.tx_graph in
      let (spks, d) = keys W index (W.lookahead index) iter e in (spks, ground arith)
  derive_for-some (full_scan custom_lookahead) c iter e =
      let n = unwrap_or custom_lookahead full_scan_lookahead in
      let (spks, d) = keys W (W.index c.tx_graph) n iter e in (spks, ground arith)
  derive_for-some (custom start_height custom_lookahead) c iter e =
      let (spks, d) = keys W (W.index c.tx_graph) custom_lookahead iter e in (spks, ground arith)

  after_keys :
      (kind : ScanKind) (c : Client W) (spks : List B.Spk)
      → derive_for kind c ≡ (done spks, c)
      → scan_inner kind c ≡ continue (ask get_filter_height c) (scan_range spks (kind_start kind c))
  unfolding scan_inner continue
  after_keys kind c spks d = rw (d, continue) refl

  after_filters :
      (start : ℕ) (spks : List B.Spk) (c : Client W)
      → ((stop : ℕ) × ((B.filters_height c.node.world).0 ≡ ok stop)
          × (stop < start)
          × ((continue (ask get_filter_height c) (scan_range spks start)).0
              ≡ failed (invalid_range start stop)))
        ⊎ (((stop : ℕ) → (B.filters_height c.node.world).0 ≡ ok stop → start ≤ stop)
            × FailsLater (continue (ask get_filter_height c) (scan_range spks start)).0)
  unfolding get_filter_height continue
  after_filters start spks c = elim (Result-cases (B.filters_height c.node.world).0) [
    | inr (x, e) ↦ inr (λ stop h. cc, rw e tt)
    | inl (stop, e) ↦ elim (Bool-cases (ltb stop start)) [
      | inl below ↦
          inl (stop, e, ltb-true stop start below, rw e (scan_range-below spks start stop _ below))
      | inr above ↦ inr (
        λ t h. ltb-false stop start t above (ground arith),
        rw e (scan_range-Later spks start stop above _),
      )
    ]
  ]

  keys_missing :
      (kind : ScanKind) (c : Client W)
      → W.unbounded_spk_iter (W.index c.tx_graph) external ≡ none
      → (scan_inner kind c).0 ≡ failed no_external_keychain
  unfolding scan_inner continue
  keys_missing kind c e = rw (derive_for-none kind c e) refl

  scan_inner-Comes : (kind : ScanKind) (c : Client W) → Comes kind c (scan_inner kind c).0
  scan_inner-Comes kind c =
      elim (Option-cases (W.unbounded_spk_iter (W.index c.tx_graph) external)) [
        | inl e ↦ inl (e, keys_missing kind c e)
        | inr (iter, e) ↦
            let (spks, d) = derive_for-some kind c iter e in
            inr (λ n. cc, rw (after_keys kind c spks d) (after_filters (kind_start kind c) spks c))
      ]

  missing_iff :
      (kind : ScanKind) (c : Client W) (r : Outcome (ClientError B) (Unit {0}))
      → Comes kind c r
      → (r ≡ failed no_external_keychain)
        ↔ (W.unbounded_spk_iter (W.index c.tx_graph) external ≡ none)
  missing_iff kind c r (inl (e, h)) = (λ _. e, λ _. h)
  missing_iff kind c r (inr (n, inl (stop, f, l, h))) = (λ g. cc, λ e. elim (n e) [ ])
  missing_iff kind c r (inr (n, inr (l, h))) =
      (λ g. elim (failed-Later h g) [ ], λ e. elim (n e) [ ])

  range_iff :
      (kind : ScanKind) (c : Client W) (r : Outcome (ClientError B) (Unit {0})) (a b : ℕ)
      → Comes kind c r
      → (r ≡ failed (invalid_range a b)) ↔ (
          (W.unbounded_spk_iter (W.index c.tx_graph) external ≢ none)
          × ((B.filters_height c.node.world).0 ≡ ok b)
          × (a ≡ kind_start kind c)
          × (b < a))
  range_iff kind c r a b (inl (e, h)) = (λ g. cc, λ (n, _, _, _). elim (n e) [ ])
  range_iff kind c r a b (inr (n, inl (stop, f, l, h))) =
      (λ g. (n, cc, cc, less_moved b stop a (kind_start kind c) (cc) (cc) l), λ (_, g, s, _). cc)
  range_iff kind c r a b (inr (n, inr (l, h))) = (
    λ g. elim (failed-Later h g) [ ],
    λ (_, g, s, k). elim (less_not_above b a (kind_start kind c) k s (l b g)) [ ],
  )

  others_never :
      (kind : ScanKind) (c : Client W) (r : Outcome (ClientError B) (Unit {0}))
      → Comes kind c r
      → ((a b : B.Network) → r ≢ failed (network_mismatch a b)) × (r ≢ failed unresponsive_node)
  others_never kind c r (inl (e, h)) = (λ a b g. cc, λ g. cc)
  others_never kind c r (inr (n, inl (stop, f, l, h))) = (λ a b g. cc, λ g. cc)
  others_never kind c r (inr (n, inr (l, h))) =
      (λ a b g. elim (failed-Later h g) [ ], λ g. elim (failed-Later h g) [ ])

  -- The scan by filters, `scan_inner`, without the wait for the node before it, fails with
  -- `NoExternalKeychain` exactly if the wallet has no external keychain, and with an invalid range
  -- from `a` to `b` exactly if it has one, the filter store reports the height `b`, the kind of
  -- scan starts at `a`, and `b` is below `a`. It fails neither with `NetworkMismatch` nor with
  -- `ClientError::UnresponsiveNode`.
  pub scan_inner_errors :
      (kind : ScanKind) (c : Client W)
      → (((scan_inner kind c).0 ≡ failed no_external_keychain)
          ↔ (W.unbounded_spk_iter (W.index c.tx_graph) external ≡ none))
        × ((a b : ℕ)
            → ((scan_inner kind c).0 ≡ failed (invalid_range a b)) ↔ (
                (W.unbounded_spk_iter (W.index c.tx_graph) external ≢ none)
                × ((B.filters_height c.node.world).0 ≡ ok b)
                × (a ≡ kind_start kind c)
                × (b < a)))
        × ((a b : B.Network) → (scan_inner kind c).0 ≢ failed (network_mismatch a b))
        × ((scan_inner kind c).0 ≢ failed unresponsive_node)
  scan_inner_errors kind c =
      let r = (scan_inner kind c).0 in
      let comes = scan_inner-Comes kind c in
      let never = others_never kind c r comes in
      (missing_iff kind c r comes, λ a b. range_iff kind c r a b comes, never.0, never.1)
