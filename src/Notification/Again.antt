-- ===== src/Notification/Again.antt =====
-- The duplicate check of app/services/notifications/manager.py: an event that is evaluated again makes
-- no second notification.
use welogical_vehicle_tracki.Common.{
  ℕ, ◌≤◌, ◌≡◌, refl, String, Bool, true, Option, List, [], ◌∷◌, ◌++◌, arith, eq_iff, select,
  select-append, greatest, greatest-append, All, inl, inr,
}
use welogical_vehicle_tracki.Models.{DateTime, Event, NotificationHistory, Database}
use welogical_vehicle_tracki.Event.Engine.{is_near}
use welogical_vehicle_tracki.Event.Retry.{IsAtMost, is_near_self}
use welogical_vehicle_tracki.Notification.Rules.{NotificationRule, title_of}
use welogical_vehicle_tracki.Notification.{evaluate_event, is_alerted, is_alert_of, alert_of}
use welogical_vehicle_tracki.Notification.Laws.{
  evaluate_event-Alerted, evaluate_event-quiet, driver,
}

module _ {A : Type 0} (key : A → ℕ) (p : A → Bool) (ts : DateTime) where
  pub greatest-IsAtMost :
      (xs : List A)
      → All (λ x. p x ≡ true → key x ≤ ts) xs
      → IsAtMost ts (greatest key (select p xs))
  unfolding greatest
  greatest-IsAtMost [] h = tt
  greatest-IsAtMost (x ∷ xs) h = ground (arith, greatest-IsAtMost xs h.1)

  -- A row that was just added is near its own time, where no other is later.
  pub near_again :
      (xs : List A) (x : A)
      → p x ≡ true
      → key x ≡ ts
      → All (λ y. p y ≡ true → key y ≤ ts) xs
      → is_near ts (greatest key (select p (xs ++ (x ∷ [])))) ≡ true
  near_again xs x m same h =
      rw (select-append p xs (x ∷ []), m, greatest-append key (select p xs) x, same)
        (is_near_self ts (greatest key (select p xs)) (greatest-IsAtMost xs h))

-- The alerts to the vehicle of an event are in the past of the event.
abbrev pub IsPastAlerts : Event → List NotificationHistory → Type 0
IsPastAlerts e = All (λ n. n.vehicle_id ≡ e.vehicle_id → n.created_at ≤ e.created_at)

IsPastAlerts-of :
    (e : Event) (title : String) (rows : List NotificationHistory)
    → IsPastAlerts e rows
    → All (λ n. is_alert_of e.vehicle_id title n ≡ true → n.created_at ≤ e.created_at) rows
IsPastAlerts-of e title [] h = tt
IsPastAlerts-of e title (n ∷ rows) h = ground (arith, IsPastAlerts-of e title rows)

alerted_again :
    (e : Event) (d : Option ℕ) (id : ℕ) (str : ℕ → String) (r : NotificationRule)
    (rows : List NotificationHistory)
    → IsPastAlerts e rows
    → is_alerted (rows ++ (alert_of id d str e r ∷ [])) e.vehicle_id (title_of r) e.created_at
      ≡ true
unfolding welogical_vehicle_tracki.Notification.last_alert_at
alerted_again e d id str r rows past =
    near_again (λ (n : NotificationHistory). n.created_at) (is_alert_of e.vehicle_id (title_of r))
      e.created_at rows (alert_of id d str e r) (ground (arith, eq_iff (title_of r) (title_of r)))
      refl (IsPastAlerts-of e (title_of r) rows past)

module _ {F : Type 0} where
  -- An event that is evaluated again makes no notification, changes nothing and broadcasts nothing,
  -- where the alerts to its vehicle so far are not later than the event.
  pub evaluate_event_again :
      (str : ℕ → String) (running : Bool) (e : Event) (db : Database F)
      → IsPastAlerts e db.notifications.rows
      → evaluate_event str running e (evaluate_event str running e db).1
        ≡ ([], (evaluate_event str running e db).1, [])
  evaluate_event_again str running e db past = elim (evaluate_event-Alerted str running e db) [
    | inl (r, found, new, out) ↦ rw out (
        evaluate_event-quiet str running e _ r found (
          alerted_again e (driver str running e db) db.notifications.next_id str r
            db.notifications.rows past))
    | inr (out, why) ↦ rw out out
  ]
