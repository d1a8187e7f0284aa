-- ===== src/Notification/Tests.antt =====
-- Notifications on an overspeeding vehicle that is assigned to a driver
-- (app/services/notifications/manager.py).
use welogical_vehicle_tracki.Common.{
  ℕ, ◌≡◌, refl, String, true, none, some, [], ◌∷◌, ◌⊎◌, ℤ, latest,
}
use welogical_vehicle_tracki.Models.{Event, DriverAssignment, Database, empty_database}
use welogical_vehicle_tracki.Settings.{secs}
use welogical_vehicle_tracki.Notification.{evaluate_event, resolve_driver_id}
use welogical_vehicle_tracki.Notification.Recent.{Sent, Dropped, evaluate_event-Notified}
use welogical_vehicle_tracki.Notification.Again.{evaluate_event_again}
use welogical_vehicle_tracki.Notification.Driver.{IsDriver, resolve_driver_id-IsDriver}

abbrev overspeed_event : Event
overspeed_event = record {
  id = 4;
  vehicle_id = 7;
  txn = "B";
  event_type = "Overspeed";
  description = "95 km/h";
  severity = "Critical";
  msgid = none;
  created_at = secs 100;
}

abbrev first_driver : DriverAssignment
first_driver = record {
  id = 1;
  vehicle_id = 7;
  driver_id = 3;
  assigned_at = secs 10;
  released_at = some (secs 50);
  status = "Completed";
}

abbrev second_driver : DriverAssignment
second_driver = record {
  id = 2;
  vehicle_id = 7;
  driver_id = 5;
  assigned_at = secs 50;
  released_at = none;
  status = "Active";
}

abbrev driven : Database ℤ
driven = record (empty_database ℤ) {
  driver_assignments = record { rows = first_driver ∷ second_driver ∷ []; next_id = 3 };
}

abbrev plain : ℕ → String
plain n = "7"

evaluate_event-Notified_example :
    Sent plain true overspeed_event driven (evaluate_event plain true overspeed_event driven)
    ⊎ Dropped plain true overspeed_event driven (evaluate_event plain true overspeed_event driven)
evaluate_event-Notified_example = evaluate_event-Notified plain true overspeed_event driven

evaluate_event_again_example :
    evaluate_event plain true overspeed_event (evaluate_event plain true overspeed_event driven).1
    ≡ ([], (evaluate_event plain true overspeed_event driven).1, [])
evaluate_event_again_example = evaluate_event_again plain true overspeed_event driven tt

resolve_driver_id-IsDriver_example :
    IsDriver
      (first_driver ∷ second_driver ∷ [])
      7
      (secs 100)
      (resolve_driver_id (first_driver ∷ second_driver ∷ []) 7 (secs 100))
resolve_driver_id-IsDriver_example =
    resolve_driver_id-IsDriver (first_driver ∷ second_driver ∷ []) 7 (secs 100)

driver_at_100 : resolve_driver_id (first_driver ∷ second_driver ∷ []) 7 (secs 100) ≡ some 5
unfolding resolve_driver_id latest
driver_at_100 = refl
