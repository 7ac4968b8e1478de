-- ===== src/Examples/Creation.antt =====
-- The creation of a client, its session and its scan handle.
use bdk_floresta.Prelude.{true, false, [], ◌∷◌, ok, ◌≡◌, refl, arith}
use bdk_floresta.Client.{Client, finished}
use bdk_floresta.Client.Create.{
  client_of, new, watching, Session, cancel_node, send, SessionReach, here, next,
}
use bdk_floresta.Client.Create.Shutdown.{IsNew, SessionInv, SessionReach-SessionInv}
use bdk_floresta.Examples.Fixture.{library, ready}

abbrev created : Client library
created = client_of library ready 1

new-succeeds : new library ready 1 ≡ ok created
unfolding new
new-succeeds = ground arith

abbrev session : Session library
session = record { client = created; watcher = watching; dropped = false }

abbrev session-IsNew : IsNew session
session-IsNew = record {
  open_channel = refl;
  not_cancelled = refl;
  still_watching = refl;
  alive = refl;
}

abbrev later : Session library
later = record session {
  client = record created {
    node = record ready { cancellation_token = true };
    sent = finished true ∷ [];
  };
}

abbrev run_to_later : SessionReach session later
run_to_later = next (next here (send (finished true) refl refl refl)) (cancel_node refl)

SessionReach-SessionInv_example : SessionInv later
SessionReach-SessionInv_example = SessionReach-SessionInv session later session-IsNew run_to_later
