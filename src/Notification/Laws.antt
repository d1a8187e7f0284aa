-- ===== src/Notification/Laws.antt =====
-- The notifications of an event (app/services/notifications): which alert it gives, to which driver,
-- and that the event gives no second one.
use welogical_vehicle_tracki.Common.{
  str_eq, ℕ, ◌≡◌, refl, String, Bool, true, false, not, ◌&&◌, Option, none, some, List, [], ◌∷◌,
  arith, eq_iff, if◌then◌else◌, find?, foldl, inl, inr, Bool-cases, Option-cases, ◌⊎◌,
}
use welogical_vehicle_tracki.Models.{Event, NotificationHistory, Database, insert}
use welogical_vehicle_tracki.Notification.Rules.{NotificationRule, matches, event_type_of, title_of}
use welogical_vehicle_tracki.Notification.{
  Alerts, Notice, alert, alert_if, alert_of, notice_of, registered_rules, evaluate_event,
  resolve_driver_id, is_alerted, dispatch, registered_dispatchers,
}

-- No rule of a list is for the same type of event as `r`.
abbrev differs : NotificationRule → List NotificationRule → Bool
differs r [] = true
differs r (q ∷ rules) =
    let rest = differs r rules in not (str_eq (event_type_of r) (event_type_of q)) && rest

abbrev apart : List NotificationRule → Bool
apart [] = true
apart (r ∷ rules) = let rest = apart rules in differs r rules && rest

-- The first rule for the type of an event.
abbrev pub rule_for : Event → Option NotificationRule
rule_for e = find? (matches e) registered_rules

first_of : (a b : Bool) → (a && b) ≡ true → a ≡ true
first_of a b h = ground arith

second_of : (a b : Bool) → (a && b) ≡ true → b ≡ true
second_of a b h = ground arith

only :
    (e : Event) (r q : NotificationRule)
    → matches e r ≡ true
    → str_eq (event_type_of r) (event_type_of q) ≡ false
    → matches e q ≡ false
only e r q m d =
    let same : e.event_type ≡ event_type_of r = (eq_iff e.event_type (event_type_of r)).0 m in
    rw same d

module _ (str : ℕ → String) (running : Bool) (driver : Option ℕ) (e : Event) where
  -- What an event does by the rule for it.
  abbrev pub alerted : Option NotificationRule → Alerts → Alerts
  alerted none s = s
  alerted (some r) s = alert str running driver e s r

  silent :
      (r : NotificationRule) (rules : List NotificationRule) (s : Alerts)
      → matches e r ≡ true
      → differs r rules ≡ true
      → foldl (alert_if str running driver e) s rules ≡ s
  silent r [] s m d = refl
  silent r (q ∷ rules) s m d = elim (Bool-cases (str_eq (event_type_of r) (event_type_of q))) [
    | inl same ↦ ground arith
    | inr other ↦ rw (only e r q m other) (silent r rules s m (rw other at d))
  ]

  fold-alerted :
      (rules : List NotificationRule) (s : Alerts)
      → apart rules ≡ true
      → foldl (alert_if str running driver e) s rules ≡ alerted (find? (matches e) rules) s
  fold-alerted [] s a = refl
  fold-alerted (r ∷ rules) s a = elim (Bool-cases (matches e r)) [
    | inl m ↦ rw m (silent r rules (alert str running driver e s r) m (first_of _ _ a))
    | inr m ↦ rw m (fold-alerted rules s (second_of _ _ a))
  ]

dispatched :
    (running : Bool) (notice : Notice)
    → dispatch running notice registered_dispatchers [] ≡ (if running then notice ∷ [] else [])
dispatched true notice = refl
dispatched false notice = refl

module _ {F : Type 0} (str : ℕ → String) (running : Bool) (e : Event) (db : Database F) where
  abbrev pub driver : Option ℕ
  driver = resolve_driver_id db.driver_assignments.rows e.vehicle_id e.created_at

  abbrev is_old : NotificationRule → Bool
  is_old r = is_alerted db.notifications.rows e.vehicle_id (title_of r) e.created_at

  abbrev pub notices : NotificationRule → List Notice
  notices r = if running then notice_of driver str e r ∷ [] else []

  -- One alert, by a rule that is for the event and did not alert in the last five seconds.
  abbrev pub Alerted : List NotificationHistory × Database F × List Notice → Type 0
  Alerted out =
      (r : NotificationRule) × (rule_for e ≡ some r)
      × (is_old r ≡ false)
      × (let row = alert_of db.notifications.next_id driver str e r in
          out ≡ (row ∷ [], record db { notifications = insert row db.notifications }, notices r))

  -- No alert: no rule is for the event, or the rule that is has just alerted.
  abbrev pub Quiet : List NotificationHistory × Database F × List Notice → Type 0
  Quiet out =
      (out ≡ ([], db, []))
      × ((rule_for e ≡ none) ⊎ ((r : NotificationRule) × (rule_for e ≡ some r) × (is_old r ≡ true)))

  by_rule : evaluate_event str running e db ≡ (
      let s =
        alerted str running driver e
          (rule_for e)
          (record { table = db.notifications; triggered = []; sent = [] }) in
      (s.triggered, record db { notifications = s.table }, s.sent))
  unfolding evaluate_event
  by_rule = rw (
      fold-alerted str running driver e registered_rules
        (record { table = db.notifications; triggered = []; sent = [] }) refl)

  -- One alert or none, on whether the code finds an alert of the kind.
  pub evaluate_event-Alerted :
      Alerted (evaluate_event str running e db) ⊎ Quiet (evaluate_event str running e db)
  evaluate_event-Alerted = elim (Option-cases (rule_for e)) [
    | inl none_for ↦ inr (rw (by_rule, none_for) refl, inl none_for)
    | inr (r, found) ↦ elim (Bool-cases (is_old r)) [
      | inl old ↦ inr (rw (by_rule, found, old) refl, inr (r, found, old))
      | inr new ↦ inl (
        r,
        found,
        new,
        rw (by_rule, found, new) (rw (dispatched running (notice_of driver str e r)) refl),
      )
    ]
  ]

  pub evaluate_event-quiet :
      (r : NotificationRule)
      → rule_for e ≡ some r
      → is_old r ≡ true
      → evaluate_event str running e db ≡ ([], db, [])
  evaluate_event-quiet r found old = rw (by_rule, found, old) refl
