-- ===== src/Notification/Recent.antt =====
-- When the alert of an event counts as sent already (app/services/notifications/manager.py): the newest
-- alert of its title to its vehicle is less than five seconds away.
use mathlib.Core.Bool.{false≢true}
use welogical_vehicle_tracki.Common.{
  ℕ, ◌<◌, ◌≤◌, ◌+◌, ◌≡◌, sym, ◌∙◌, String, Bool, true, Option, none, some, List, [], ◌∷◌, arith,
  eq_iff, select, greatest, greater, ltb, All, Has, Has-map, inl, inr, Bool-cases, Option-cases,
  ◌⊎◌,
}
use welogical_vehicle_tracki.Settings.{secs}
use welogical_vehicle_tracki.Models.{DateTime, Event, NotificationHistory, Database, insert}
use welogical_vehicle_tracki.Event.Engine.{is_near}
use welogical_vehicle_tracki.Event.Retry.{IsAtMost}
use welogical_vehicle_tracki.Notification.Rules.{NotificationRule, title_of}
use welogical_vehicle_tracki.Notification.{
  Notice, evaluate_event, is_alerted, is_alert_of, alert_of, last_alert_at,
}
use welogical_vehicle_tracki.Notification.Laws.{evaluate_event-Alerted, rule_for, driver, notices}
use welogical_vehicle_tracki.Notification.Again.{greatest-IsAtMost}

abbrev AtLeast : ℕ → Option ℕ → Type 0
AtLeast k none = ⊥
AtLeast k (some m) = k ≤ m

first-AtLeast : (k m : ℕ) (o : Option ℕ) → k ≡ m → AtLeast m (some (greater k o))
first-AtLeast k m none e = omega (arith, e)
first-AtLeast k m (some y) e = ground (arith, e)

rest-AtLeast : (k m : ℕ) (o : Option ℕ) → AtLeast m o → AtLeast m (some (greater k o))
rest-AtLeast k m none h = absurd h
rest-AtLeast k m (some y) h = ground (arith, h)

split-IsAtMost : (b k : ℕ) (o : Option ℕ) → IsAtMost b (some (greater k o)) → (k ≤ b) × IsAtMost b o
split-IsAtMost b k none h = (h, tt)
split-IsAtMost b k (some y) h = ground (arith, h)

module _ {A : Type 0} (key : A → ℕ) (p : A → Bool) where
  greatest_found :
      (xs : List A) (m : ℕ)
      → greatest key (select p xs) ≡ some m
      → Has (λ x. (p x ≡ true) × (key x ≡ m)) xs
  unfolding greatest
  greatest_found [] m h = cc
  greatest_found (x ∷ xs) m h = elim (Bool-cases (p x)) [
    | inl e ↦ elim (Option-cases (greatest key (select p xs))) [
      | inl o ↦ inl (e, ground (arith, h, e, o))
      | inr (k, o) ↦ elim (Bool-cases (ltb (key x) k)) [
        | inl t ↦ inr (greatest_found xs m (o ∙ ground (arith, h, e, o, t)))
        | inr f ↦ inl (e, ground (arith, h, e, o, f))
      ]
    ]
    | inr e ↦ inr (greatest_found xs m (rw e at h))
  ]

  greatest_above :
      (xs : List A) (m : ℕ)
      → Has (λ x. (p x ≡ true) × (key x ≡ m)) xs
      → AtLeast m (greatest key (select p xs))
  unfolding greatest
  greatest_above [] m h = absurd h
  greatest_above (x ∷ xs) m (inl (e, k)) = rw e (first-AtLeast (key x) m _ k)
  greatest_above (x ∷ xs) m (inr h) = elim (Bool-cases (p x)) [
    | inl e ↦ rw e (rest-AtLeast (key x) m _ (greatest_above xs m h))
    | inr e ↦ rw e (greatest_above xs m h)
  ]

  greatest_below :
      (xs : List A) (b : ℕ)
      → IsAtMost b (greatest key (select p xs))
      → All (λ x. p x ≡ true → key x ≤ b) xs
  unfolding greatest
  greatest_below [] b h = tt
  greatest_below (x ∷ xs) b h = elim (Bool-cases (p x)) [
    | inl e ↦
        let (first, rest) = split-IsAtMost b (key x) (greatest key (select p xs)) (rw e at h) in
        (λ _. first, greatest_below xs b rest)
    | inr e ↦ (λ t. absurd (false≢true (sym e ∙ t)), greatest_below xs b (rw e at h))
  ]

-- `m` is the time of the newest row that passes, and less than five seconds from `t`.
module _ {A : Type 0} (P : A → Type 0) (key : A → ℕ) (xs : List A) (t : DateTime) where
  pub record IsRecent : Type 0 where
    pub newest : DateTime
    pub there : Has (λ x. P x × (key x ≡ newest)) xs
    pub none_later : All (λ x. P x → key x ≤ newest) xs
    pub not_long_before : t < newest + secs 5
    pub not_long_after : newest < t + secs 5

module _ {A : Type 0} (p : A → Bool) (key : A → ℕ) (xs : List A) (t : DateTime) where
  near-bounds : (m : ℕ) → is_near t (some m) ≡ true → (t < m + secs 5) × (m < t + secs 5)
  near-bounds m h = ground (arith, h)

  bounds-near : (m : ℕ) → t < m + secs 5 → m < t + secs 5 → is_near t (some m) ≡ true
  bounds-near m a b = ground (arith, a, b)

  near-IsRecent :
      is_near t (greatest key (select p xs)) ≡ true → IsRecent (λ x. p x ≡ true) key xs t
  near-IsRecent h = elim (Option-cases (greatest key (select p xs))) [
    | inl e ↦ absurd (false≢true (rw e at h))
    | inr (m, e) ↦
        let b = near-bounds m (rw e at h) in
        record {
          newest = m;
          there = greatest_found key p xs m e;
          none_later = greatest_below key p xs m (rw e (omega arith));
          not_long_before = b.0;
          not_long_after = b.1;
        }
  ]

  newest_near :
      (n : DateTime) (o : Option ℕ)
      → AtLeast n o
      → IsAtMost n o
      → t < n + secs 5
      → n < t + secs 5
      → is_near t o ≡ true
  newest_near n none a b c d = absurd a
  newest_near n (some m) a b c d = bounds-near m (omega (arith, a, b, c)) (omega (arith, a, b, d))

  IsRecent-near :
      IsRecent (λ x. p x ≡ true) key xs t → is_near t (greatest key (select p xs)) ≡ true
  IsRecent-near r =
      newest_near r.newest (greatest key (select p xs)) (greatest_above key p xs r.newest r.there)
        (greatest-IsAtMost key p r.newest xs r.none_later) r.not_long_before r.not_long_after

-- An alert of this title to the vehicle of the event.
abbrev pub IsSame : Event → String → NotificationHistory → Type 0
IsSame e title n = (n.vehicle_id ≡ e.vehicle_id) × (n.title ≡ title)

is_alert_of-IsSame :
    (e : Event) (title : String) (n : NotificationHistory)
    → is_alert_of e.vehicle_id title n ≡ true
    → IsSame e title n
is_alert_of-IsSame e title n h = ground (arith, h, eq_iff n.title title)

IsSame-is_alert_of :
    (e : Event) (title : String) (n : NotificationHistory)
    → IsSame e title n
    → is_alert_of e.vehicle_id title n ≡ true
IsSame-is_alert_of e title n (v, t) = ground (arith, v, t, eq_iff n.title title)

-- The newest alert of the title to the vehicle is less than five seconds from the event.
abbrev pub IsRepeated : List NotificationHistory → Event → String → Type 0
IsRepeated rows e title =
    IsRecent (IsSame e title) (λ (n : NotificationHistory). n.created_at) rows e.created_at

module _ {A : Type 0} where
  map-All : (P Q : A → Type 0) (xs : List A) → ((x : A) → P x → Q x) → All P xs → All Q xs
  map-All P Q [] f h = tt
  map-All P Q (x ∷ xs) f h = (f x h.0, map-All P Q xs f h.1)

  IsRecent-map :
      (P Q : A → Type 0) (key : A → ℕ) (xs : List A) (t : DateTime)
      → ((x : A) → P x → Q x)
      → ((x : A) → Q x → P x)
      → IsRecent P key xs t
      → IsRecent Q key xs t
  IsRecent-map P Q key xs t f g r = record {
    newest = r.newest;
    there = Has-map _ _ xs (λ x h. (f x h.0, h.1)) r.there;
    none_later = map-All _ _ xs (λ x h q. h (g x q)) r.none_later;
    not_long_before = r.not_long_before;
    not_long_after = r.not_long_after;
  }

module _ (rows : List NotificationHistory) (e : Event) (title : String) where
  alerted-IsRepeated :
      is_alerted rows e.vehicle_id title e.created_at ≡ true → IsRepeated rows e title
  unfolding last_alert_at
  alerted-IsRepeated h =
      IsRecent-map _ _ _ rows e.created_at (is_alert_of-IsSame e title) (IsSame-is_alert_of e title)
        (near-IsRecent (is_alert_of e.vehicle_id title) (λ (n : NotificationHistory). n.created_at)
          rows e.created_at h)

  IsRepeated-alerted :
      IsRepeated rows e title → is_alerted rows e.vehicle_id title e.created_at ≡ true
  unfolding last_alert_at
  IsRepeated-alerted r =
      IsRecent-near (is_alert_of e.vehicle_id title) (λ (n : NotificationHistory). n.created_at)
        rows e.created_at
        (IsRecent-map _ _ _ rows e.created_at (IsSame-is_alert_of e title)
          (is_alert_of-IsSame e title) r)

module _ {F : Type 0} (str : ℕ → String) (running : Bool) (e : Event) (db : Database F) where
  -- One alert, by the rule for the event, none like it being recent.
  abbrev pub Sent : List NotificationHistory × Database F × List Notice → Type 0
  Sent out =
      (r : NotificationRule) × (rule_for e ≡ some r)
      × (¬ IsRepeated db.notifications.rows e (title_of r))
      × (let row = alert_of db.notifications.next_id (driver str running e db) str e r in
          out ≡ (
            row ∷ [],
            record db { notifications = insert row db.notifications },
            notices str running e db r,
          ))

  -- No alert and no change: no rule is for the event, or one like it is recent.
  abbrev pub Dropped : List NotificationHistory × Database F × List Notice → Type 0
  Dropped out =
      (out ≡ ([], db, []))
      × ((rule_for e ≡ none)
          ⊎ ((r : NotificationRule) × (rule_for e ≡ some r)
              × IsRepeated db.notifications.rows e (title_of r)))

  -- An event makes at most one notification: exactly one, by the rule for its type, for the driver
  -- of its vehicle at its time, which is also broadcast if the event loop runs; or none and nothing
  -- changes, if no rule is for its type or the newest alert of the same title to its vehicle is less
  -- than five seconds from it.
  pub evaluate_event-Notified :
      Sent (evaluate_event str running e db) ⊎ Dropped (evaluate_event str running e db)
  evaluate_event-Notified = elim (evaluate_event-Alerted str running e db) [
    | inl (r, found, new, out) ↦ inl (
      r,
      found,
      (λ again.
          absurd
            (false≢true (sym new ∙ IsRepeated-alerted db.notifications.rows e (title_of r) again))),
      out,
    )
    | inr (out, inl without) ↦ inr (out, inl without)
    | inr (out, inr (r, found, old)) ↦
        inr (out, inr (r, found, alerted-IsRepeated db.notifications.rows e (title_of r) old))
  ]
