-- ===== src/Client/Spks.antt =====
-- src/client/mod.rs: deriving the script pubkeys that a scan looks for.
pub mod Coverage
use bdk_floresta.Prelude.{
  ℕ, zero, suc, ◌+◌, Option, none, some, List, [], ◌∷◌, ◌++◌, Result, ok, err, saturating_add,
}
use bdk_floresta.Node.Backend.{Backend}
use bdk_floresta.Client.Types.{ClientError, no_external_keychain}
use bdk_floresta.Client.Wallet.{WalletLib, KeychainKind, external, internal}

-- `Option::unwrap_or`.
abbrev pub unwrap_or : Option ℕ → ℕ → ℕ
unwrap_or none d = d
unwrap_or (some n) d = n

module _ {B : Backend} (W : WalletLib B) where
  -- `Iterator::take` with its elements collected, each without its index.
  unfoldable pub take_spks : ℕ → W.SpkIter → List B.Spk
  take_spks zero iter = []
  take_spks (suc bound) iter = elim (W.next_spk iter) [
    | none ↦ []
    | some ((_, spk), rest) ↦ spk ∷ take_spks bound rest
  ]

  -- How many script pubkeys of a keychain are derived.
  abbrev pub spk_bound : W.Index → KeychainKind → ℕ → ℕ
  spk_bound keychain_index keychain custom_lookahead =
      saturating_add (unwrap_or (W.last_revealed_index keychain_index keychain) 0) custom_lookahead

  -- The script pubkeys of the internal keychain, which is optional.
  abbrev pub internal_spks : ℕ → Option W.SpkIter → List B.Spk
  internal_spks bound none = []
  internal_spks bound (some iter) = take_spks bound iter

  unfoldable pub derive_spks_with_custom_lookahead :
      W.Index → ℕ → Result (ClientError B) (List B.Spk)
  derive_spks_with_custom_lookahead keychain_index custom_lookahead =
      elim (W.unbounded_spk_iter keychain_index external) [
        | none ↦ err no_external_keychain
        | some iter ↦ ok (
            take_spks (spk_bound keychain_index external custom_lookahead) iter
            ++ internal_spks (spk_bound keychain_index internal custom_lookahead)
                (W.unbounded_spk_iter keychain_index internal))
      ]

  unfoldable pub derive_spks : W.Index → Result (ClientError B) (List B.Spk)
  unfolding derive_spks_with_custom_lookahead
  derive_spks keychain_index =
      derive_spks_with_custom_lookahead keychain_index (W.lookahead keychain_index)
