-- ===== src/Examples/Lifetimes.antt =====
-- Script pubkeys, and the lifetime of the block sink.
use bdk_floresta.Prelude.{ℕ, ◌≤◌, some, List, [], ◌∷◌, ok, ◌≡◌, ◌↔◌, ◌⊎◌, refl, length}
use bdk_floresta.Client.{Forwarding, sender}
use bdk_floresta.Client.Wallet.{internal}
use bdk_floresta.Client.Spks.{take_spks, derive_spks_with_custom_lookahead}
use bdk_floresta.Client.Spks.Coverage.{Has, Derived, derive_spks_lem, derive_spks_short}
use bdk_floresta.Client.Forward.{enable}
use bdk_floresta.Examples.Fixture.{crates, library, unused}

derive_spks_lem_example :
    (spks : List ℕ) × (derive_spks_with_custom_lookahead library 25 2 ≡ ok spks)
    × ((spk : ℕ)
        → Has spk spks ↔ (
            Derived library (some 3) 2 spk 100
            ⊎ ((inner : ℕ) × (library.unbounded_spk_iter 25 internal ≡ some inner)
                × Derived library (library.last_revealed_index 25 internal) 2 spk inner)))
derive_spks_lem_example = derive_spks_lem library 25 2 100 refl

three_spks : derive_spks_with_custom_lookahead library 25 0 ≡ ok (100 ∷ 101 ∷ 102 ∷ [])
unfolding derive_spks_with_custom_lookahead take_spks
three_spks = refl

derive_spks_short_example : length {A = ℕ} (100 ∷ 101 ∷ 102 ∷ []) ≤ 3
derive_spks_short_example =
    derive_spks_short library 25 3 (100 ∷ 101 ∷ 102 ∷ []) refl refl three_spks

abbrev enabled : Forwarding crates
enabled = record { block_sink = some (sender (some 0)); subscribed = 1; channels = 1; queue = [] }

enable-succeeds : enable unused ≡ some enabled
unfolding enable
enable-succeeds = refl

abbrev validated : List (ℕ × ℕ)
validated = (11, 11) ∷ (12, 12) ∷ []
