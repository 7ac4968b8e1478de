-- ===== src/Examples/Serving.antt =====
-- Scans of the toy chain, whose stores and peers always answer.
use bdk_floresta.Prelude.{
  ℕ, true, false, some, length, List, [], ◌∷◌, ok, ◌≡◌, refl, ap, map, arith,
}
use bdk_floresta.Fsm.{active}
use bdk_floresta.Client.{Client, custom, sender}
use bdk_floresta.Client.Run.Polled.{Synchronised}
use bdk_floresta.Client.Monad.{done, pending, continue}
use bdk_floresta.Client.Update.{abort_if_cancelled, apply_block, publish, finish_update, send_event}
use bdk_floresta.Client.Forward.{enable, on_block}
use bdk_floresta.Node.Local.{match_filters, get_filter_height, get_block_height, get_block_hash}
use bdk_floresta.Node.Network.{fetch_blocks}
use bdk_floresta.Client.Scan.{
  scan_inner, derive_for, scan_range, check_range, fetch_matched, fetch_or_abort, scan_blocks,
  scan_block, finish_range,
}
use bdk_floresta.Client.Scan.Served.{Healthy, view, with_blocks}
use bdk_floresta.Client.Scan.Served.Calls.{with_range}
use bdk_floresta.Client.Run.{
  forwarded, scan, scan_continuous, wait_until_ready, enable_block_forwarding, with_guard,
  watch_blocks, receive_block, report,
}
use bdk_floresta.Client.Run.Watch.{all_received}
use bdk_floresta.Client.Run.Served.{with_finished, scan-served}
use bdk_floresta.Client.Run.Following.{with_all_new, scan_continuous-served}
use bdk_floresta.Client.Run.Replaced.{AllAtMost, known_heights_skipped}
use bdk_floresta.Client.Run.Channel.{Followed, here, validated, validated_blocks_arrive}
use bdk_floresta.Client.Spks.{derive_spks_with_custom_lookahead, take_spks}
use bdk_floresta.Examples.Fixture.{ready, library, client, join_all, join_cons}

pub join_all-ok : {E : Type 0} (bs : List ℕ) → join_all {E = E} (map ok bs) ≡ ok bs
join_all-ok [] = refl
join_all-ok (b ∷ bs) = ap (join_cons b) (join_all-ok bs)

abbrev pub healthy : Healthy library
healthy = record {
  tip = 10;
  matches = λ spks start stop. 7 ∷ 9 ∷ [];
  block_of = λ hash. hash;
  height_of = λ hash. hash;
  hash_at = λ height. height;
  filters_known = λ w. refl;
  matches_known = λ spks start stop w. refl;
  block_known = λ hash w. refl;
  height_known = λ hash w. refl;
  hash_known = λ height w. refl;
  joined = λ bs w. join_all-ok bs;
  stays_operational = λ w. refl;
  stays_open = λ w. refl;
  uncancelled = λ w. refl;
  not_in_flight = λ w. refl;
}

abbrev pub spks : List ℕ
spks = 100 ∷ 101 ∷ 102 ∷ 103 ∷ 104 ∷ 105 ∷ 106 ∷ 107 ∷ []

pub derived : (derive_for (custom 0 5) client).0 ≡ done spks
unfolding derive_for derive_spks_with_custom_lookahead take_spks
derived = refl

scan-served_example :
    ((scan [] (custom 0 5) client).0 ≡ done tt)
    × (view library (scan [] (custom 0 5) client).1
        ≡ with_finished library healthy false
            (with_range library healthy spks 0 (view library client)))
scan-served_example =
    scan-served library healthy [] (custom 0 5) spks client derived (omega arith) (refl, refl, refl)

scan_continuous-served_example :
    ((scan_continuous [] (custom 0 5) (all_received ((11, 11) ∷ (4, 4) ∷ [])) client).0 ≡ pending)
    × (view library
          (scan_continuous [] (custom 0 5) (all_received ((11, 11) ∷ (4, 4) ∷ [])) client).1
        ≡ with_all_new library ((11, 11) ∷ (4, 4) ∷ []) (
            with_finished library healthy true
              (with_range library healthy spks 0 (view library client))))
scan_continuous-served_example =
    scan_continuous-served library healthy [] (custom 0 5) ((11, 11) ∷ (4, 4) ∷ []) spks client
      derived (omega arith) (refl, refl, refl) (λ h. cc)

-- Two blocks that matched, and the tip.
with_range_test : length (with_range library healthy spks 0 (view library client)).sent ≡ 3
unfolding with_blocks
with_range_test = refl

-- A client whose node has not been polled since it began to run.
abbrev early_client : Client library
early_client = record client { node = record ready { state = active } }

abbrev pub synchronised : Synchronised healthy
synchronised = record {
  peers_there = λ w. refl;
  best_hash = 10;
  best_known = λ w. refl;
  validated = λ w. refl;
  above_genesis = omega arith;
  fits = omega arith;
}

-- A block that replaces another at the checkpoint's height.
abbrev replacing : List (ℕ × ℕ)
replacing = (99, 11) ∷ []

abbrev followed : Client library
followed = (scan_continuous [] (custom 0 5) (all_received ((11, 11) ∷ [])) client).1

followed-height : AllAtMost (library.height (view library followed).checkpoint) replacing
unfolding scan_continuous forwarded on_block wait_until_ready enable_block_forwarding enable
    with_guard watch_blocks receive_block report scan_inner derive_for
    derive_spks_with_custom_lookahead take_spks continue scan_range check_range abort_if_cancelled
    match_filters get_filter_height fetch_matched fetch_or_abort fetch_blocks scan_blocks scan_block
    get_block_height apply_block publish finish_update send_event finish_range get_block_hash
followed-height = omega arith

known_heights_skipped_example :
    view library
      (scan_continuous []
        (custom 0 5)
        (all_received ((11, 11) ∷ (99, 11) ∷ (12, 12) ∷ []))
        client).1
    ≡ view library
        (scan_continuous [] (custom 0 5) (all_received ((11, 11) ∷ (12, 12) ∷ [])) client).1
known_heights_skipped_example =
    known_heights_skipped library healthy [] (custom 0 5) ((11, 11) ∷ []) replacing ((12, 12) ∷ [])
      spks client derived (omega arith) (refl, refl, refl) (λ h. cc) followed-height

-- A client that watches its channel, and the same after a block has been validated.
abbrev watching_client : Client library
watching_client = record client {
  forwarding = record {
    block_sink = some (sender (some 0));
    subscribed = 1;
    channels = 1;
    queue = (11, 11) ∷ [];
  };
}

abbrev notified : Client library
notified = record watching_client { forwarding = on_block 12 12 watching_client.forwarding }

validated_blocks_arrive_example :
    (with_all_new library notified.forwarding.queue (view library notified)
      ≡ with_all_new library ((11, 11) ∷ (12, 12) ∷ []) (view library watching_client))
    × ((e : Client library) × Followed watching_client ((12, 12) ∷ []) e
        × (e.forwarding.queue ≡ [])
        × (view library e
            ≡ with_all_new library ((11, 11) ∷ (12, 12) ∷ []) (view library watching_client)))
validated_blocks_arrive_example =
    validated_blocks_arrive library healthy 0 watching_client notified ((12, 12) ∷ [])
      (refl, refl, refl) refl (validated here 12 12 refl refl)
