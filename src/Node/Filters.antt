-- ===== src/Node/Filters.antt =====
-- src/node/mod.rs: when `match_filters` runs, and what it leaves behind.
use bdk_floresta.Prelude.{ℕ, ◌≤◌, true, some, List, ok, ◌≡◌, ◌≢◌, ◌↔◌, arith}
use bdk_floresta.Prelude.Sets.{contains, contains-remove-insert}
use bdk_floresta.Fsm.{State, operational}
use bdk_floresta.Node.Backend.{Backend}
use bdk_floresta.Node.Types.{Action, matching_filters, action_dec, Node}
use bdk_floresta.Node.Local.{is_operational, match_filters}

is_operational_iff : (s : State) → (is_operational s ≡ true) ↔ (s ≡ operational)
is_operational_iff s = ground arith

module _ {B : Backend} (spks : List B.Spk) (start stop : ℕ) where
  -- `match_filters` succeeds with `hashes` exactly when the node is operational at the read of its
  -- state, the filter store reports a height that the scan does not exceed, and the store then
  -- answers `hashes`.
  pub match_filters_ok_iff :
      (n : Node B) (hashes : List B.Hash)
      → ((match_filters spks start stop n).0 ≡ ok hashes) ↔ (
          (B.watched_state n.world n.state ≡ operational)
          × ((tip : ℕ) × ((B.filters_height n.world).0 ≡ ok tip)
              × (stop ≤ tip)
              × ((B.match_any spks (some start) (some stop) (B.filters_height n.world).1).0
                  ≡ ok hashes)))
  unfolding match_filters
  match_filters_ok_iff n hashes = (λ h. ground arith, λ h. ground arith)

  -- Whatever `match_filters` comes to, it neither starts nor ends any action but its own.
  pub match_filters_others :
      (n : Node B) (b : Action B)
      → b ≢ matching_filters
      → contains (action_dec B) b (match_filters spks start stop n).1.actions
        ≡ contains (action_dec B) b n.actions
  unfolding match_filters
  match_filters_others n b other =
      ground (arith, contains-remove-insert (action_dec B) b matching_filters n.actions)
