-- ===== src/Fsm/Display.antt =====
-- src/node/fsm.rs: `Display` of `State`.
use bdk_floresta.Prelude.{String, ◌<>◌, decimal}
use bdk_floresta.Fsm.{
  State, inactive, active, dns_bootstrapping, header_sync, initial_block_download,
  compact_block_filter_download, backfill, operational, shutting_down,
}

unfoldable pub show_state : State → String
unfolding decimal
show_state inactive = "Inactive"
show_state active = "Active"
show_state dns_bootstrapping = "Address Manager Bootstrap"
show_state (header_sync height) = "Header Sync at height=" <> decimal height
show_state (initial_block_download chain_height node_height) =
    "IBD at chain_height=" <> decimal chain_height <> " and node_height=" <> decimal node_height
show_state (compact_block_filter_download filter_height) =
    "CBF Download at filter_height=" <> decimal filter_height
show_state backfill = "Backfilling"
show_state operational = "Operational"
show_state shutting_down = "Shutting Down"
