-- ===== src/Notification.antt =====
-- app/services/notifications: the manager that turns an event into a notification, unless the same
-- one was sent to the vehicle within 5 seconds. The rules are in Notification/Rules. `running` says
-- whether the event loop runs when a dispatcher asks for it. The query for an earlier alert sees
-- those that the same call has added. Five times are compared as whole microseconds.
pub mod Rules
pub mod Laws
pub mod Recent
pub mod Again
pub mod Driver
mod Tests
use welogical_vehicle_tracki.Common.{
  ℕ, String, Bool, true, false, ◌&&◌, ◌||◌, Option, none, some, List, [], ◌∷◌, ◌++◌, leb, ◌==◌,
  str_eq, if◌then◌else◌, select, latest, greatest, foldl,
}
use welogical_vehicle_tracki.Models.{
  DateTime, Event, DriverAssignment, NotificationHistory, Table, Database, insert,
}
use welogical_vehicle_tracki.Event.Engine.{is_near}
use welogical_vehicle_tracki.Notification.Rules.{
  NotificationRule, matches, severity_of, title_of, message_of, overspeed, low_fuel, low_battery,
  engine_overheat, gps_lost, power_failure, vehicle_offline, maintenance_due, refueling_completed,
}

-- The dispatchers, and what one sends: its arguments, with the event's time for its text.
pub data Dispatcher : Type 0 where
  console email sms whats_app web_socket : Dispatcher

pub record Notice : Type 0 where
  pub title : String
  pub message : String
  pub severity : String
  pub vehicle_id : ℕ
  pub driver_id : Option ℕ
  pub event_id : ℕ
  pub created_at : DateTime

-- `send`: the broadcasts to "notifications" that it schedules. All but the last dispatcher only log.
abbrev pub send : Bool → Notice → Dispatcher → List Notice → List Notice
send true notice web_socket sent = sent ++ (notice ∷ [])
send _ notice _ sent = sent

-- `get_notification_manager`
abbrev pub registered_rules : List NotificationRule
registered_rules =
    overspeed ∷ low_fuel ∷ low_battery ∷ engine_overheat ∷ gps_lost ∷ power_failure
    ∷ vehicle_offline ∷ maintenance_due ∷ refueling_completed ∷ []

abbrev pub registered_dispatchers : List Dispatcher
registered_dispatchers = console ∷ email ∷ sms ∷ whats_app ∷ web_socket ∷ []

abbrev pub is_released_before : DateTime → Option DateTime → Bool
is_released_before t none = false
is_released_before t (some released) = if leb t released then false else true

-- The assignment holds at a time.
abbrev pub covers : ℕ → DateTime → DriverAssignment → Bool
covers v t a =
    a.vehicle_id == v
    && (leb a.assigned_at t && (if is_released_before t a.released_at then false else true))

abbrev pub driver_of : Option DriverAssignment → Option ℕ
driver_of none = none
driver_of (some a) = some a.driver_id

-- `_resolve_driver_id`
unfoldable pub resolve_driver_id : List DriverAssignment → ℕ → DateTime → Option ℕ
resolve_driver_id assignments v t =
    driver_of (latest (λ (a : DriverAssignment). a.assigned_at) (select (covers v t) assignments))

abbrev pub is_alert_of : ℕ → String → NotificationHistory → Bool
is_alert_of v title n = n.vehicle_id == v && str_eq n.title title

-- When the last identical alert was sent.
unfoldable pub last_alert_at : List NotificationHistory → ℕ → String → Option DateTime
last_alert_at sent v title =
    greatest (λ (n : NotificationHistory). n.created_at) (select (is_alert_of v title) sent)

-- `_is_duplicate`
abbrev pub is_alerted : List NotificationHistory → ℕ → String → DateTime → Bool
is_alerted sent v title t = is_near t (last_alert_at sent v title)

-- The row of an alert, and its notice.
abbrev pub alert_of : ℕ → Option ℕ → (ℕ → String) → Event → NotificationRule → NotificationHistory
alert_of id driver str e r = record {
  id = id;
  vehicle_id = e.vehicle_id;
  driver_id = driver;
  severity = severity_of r;
  title = title_of r;
  message = message_of str r e;
  source_event_id = e.id;
  created_at = e.created_at;
  acknowledged = false;
  resolved = false;
}

abbrev pub notice_of : Option ℕ → (ℕ → String) → Event → NotificationRule → Notice
notice_of driver str e r = record {
  title = title_of r;
  message = message_of str r e;
  severity = severity_of r;
  vehicle_id = e.vehicle_id;
  driver_id = driver;
  event_id = e.id;
  created_at = e.created_at;
}

-- The table of alerts, those triggered so far, and the notices sent.
pub record Alerts : Type 0 where
  pub table : Table NotificationHistory
  pub triggered : List NotificationHistory
  pub sent : List Notice

-- `for dispatcher in self.dispatchers`
abbrev pub dispatch : Bool → Notice → List Dispatcher → List Notice → List Notice
dispatch running notice [] sent = sent
dispatch running notice (d ∷ ds) sent = dispatch running notice ds (send running notice d sent)

-- The body of the loop over the rules, for a rule that matches.
abbrev pub alert : (ℕ → String) → Bool → Option ℕ → Event → Alerts → NotificationRule → Alerts
alert str running driver e s r =
    let row = alert_of s.table.next_id driver str e r in
    if is_alerted s.table.rows e.vehicle_id (title_of r) e.created_at then s else record {
      table = insert row s.table;
      triggered = s.triggered ++ (row ∷ []);
      sent = dispatch running (notice_of driver str e r) registered_dispatchers s.sent;
    }

abbrev pub alert_if : (ℕ → String) → Bool → Option ℕ → Event → Alerts → NotificationRule → Alerts
alert_if str running driver e s r = if matches e r then alert str running driver e s r else s

module _ {F : Type 0} where
  unfoldable pub evaluate_event :
      (ℕ → String) → Bool → Event → Database F → List NotificationHistory × Database F × List Notice
  evaluate_event str running e db =
      let driver = resolve_driver_id db.driver_assignments.rows e.vehicle_id e.created_at in
      let s =
        foldl (alert_if str running driver e)
          (record { table = db.notifications; triggered = []; sent = [] }) registered_rules in
      (s.triggered, record db { notifications = s.table }, s.sent)
