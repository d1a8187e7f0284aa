-- ===== src/Event/Spacing.antt =====
-- What `EventEngine.process_telemetry` (app/services/event_engine.py) stores: the rows it adds, and
-- the distance in time that they keep from the stored events of their vehicle and type.
use mathlib.Core.List.{append-nil, append_assoc}
use welogical_vehicle_tracki.Common.{
  ℕ, ◌+◌, ◌≤◌, ◌≡◌, refl, sym, subst, ◌∙◌, ap, true, false, Option, none, some, List, [], ◌∷◌, ◌++◌,
  arith, eq_iff, greatest, greater, All, All-append, Result, ok, err, String, inl, inr, Bool-cases,
}
use welogical_vehicle_tracki.Float.{Float}
use welogical_vehicle_tracki.Models.{DateTime, Location, Event, Table, Database}
use welogical_vehicle_tracki.Settings.{secs}
use welogical_vehicle_tracki.Event.Result.{EventRuleResult, Rule}
use welogical_vehicle_tracki.Event.Rules.{evaluate}
use welogical_vehicle_tracki.Event.Engine.{
  default_rules, is_duplicate, is_near, is_event_of, distance_of, last_at, event_of, record_result,
  run_rules, process_telemetry,
}
use welogical_vehicle_tracki.Event.Retry.{IsPast, IsAtMost, last_at-IsAtMost}

-- Two events of one vehicle and type are 5 seconds apart.
abbrev pub IsApart : Event → Event → Type 0
IsApart e x =
    x.vehicle_id ≡ e.vehicle_id
    → x.event_type ≡ e.event_type
    → secs 5 ≤ distance_of e.created_at x.created_at

-- A time is 5 seconds before another.
abbrev IsLongBefore : DateTime → Option DateTime → Type 0
IsLongBefore ts none = Unit
IsLongBefore ts (some m) = m + secs 5 ≤ ts

far-IsLongBefore :
    (ts : DateTime) (last : Option DateTime)
    → IsAtMost ts last
    → is_near ts last ≡ false
    → IsLongBefore ts last
far-IsLongBefore ts none past h = tt
far-IsLongBefore ts (some m) past h = ground arith

greater-IsLongBefore :
    (ts t : DateTime) (last : Option DateTime)
    → IsLongBefore ts (some (greater t last))
    → (t + secs 5 ≤ ts) × IsLongBefore ts last
greater-IsLongBefore ts t none h = (h, tt)
greater-IsLongBefore ts t (some m) h = ground arith

last_at-seen :
    (v : ℕ) (kind : String) (x : Event) (xs : List Event)
    → is_event_of v kind x ≡ true
    → last_at (x ∷ xs) v kind ≡ some (greater x.created_at (last_at xs v kind))
unfolding last_at greatest
last_at-seen v kind x xs m = rw m refl

last_at-passed :
    (v : ℕ) (kind : String) (x : Event) (xs : List Event)
    → is_event_of v kind x ≡ false
    → last_at (x ∷ xs) v kind ≡ last_at xs v kind
unfolding last_at greatest
last_at-passed v kind x xs m = rw m refl

long_before-IsApart :
    (e : Event) (events : List Event)
    → IsLongBefore e.created_at (last_at events e.vehicle_id e.event_type)
    → All (IsApart e) events
long_before-IsApart e [] h = tt
long_before-IsApart e (x ∷ xs) h = elim (Bool-cases (is_event_of e.vehicle_id e.event_type x)) [
  | inl m ↦
      let both : (x.created_at + secs 5 ≤ e.created_at)
          × IsLongBefore e.created_at (last_at xs e.vehicle_id e.event_type) =
        greater-IsLongBefore e.created_at x.created_at (last_at xs e.vehicle_id e.event_type)
          (subst (IsLongBefore e.created_at) (last_at-seen e.vehicle_id e.event_type x xs m) h) in
      (λ _ _. ground (arith, both.0), long_before-IsApart e xs both.1)
  | inr m ↦ (
    λ v k. ground (arith, eq_iff x.event_type e.event_type),
    long_before-IsApart e xs
        (subst (IsLongBefore e.created_at) (last_at-passed e.vehicle_id e.event_type x xs m) h),
  )
]

module _ {F : Type 0} where
  -- An event that is no duplicate is apart from the events stored.
  new-IsApart :
      (rows : List Event) (curr : Location F) (id : ℕ) (res : EventRuleResult)
      → IsPast curr.vehicle_id curr.timestamp rows
      → is_duplicate rows curr.vehicle_id res.event_type curr.timestamp ≡ false
      → All (IsApart (event_of id curr res)) rows
  new-IsApart rows curr id res past d = long_before-IsApart (event_of id curr res) rows (
      far-IsLongBefore curr.timestamp _
        (last_at-IsAtMost rows curr.vehicle_id res.event_type curr.timestamp past) d)

  -- The rows that a packet adds, which are the events it creates.
  record IsAdded (rows : List Event) (curr : Location F) (events : Table Event) (made : List Event)
      (s : Table Event × List Event) : Type 0 where
    new : List Event
    stored : s.0.rows ≡ events.rows ++ new
    created : s.1 ≡ made ++ new
    from_packet : All (λ e. (e.vehicle_id ≡ curr.vehicle_id) × (e.created_at ≡ curr.timestamp)) new
    apart : IsPast curr.vehicle_id curr.timestamp rows → All (λ e. All (IsApart e) rows) new

  record-IsAdded :
      (rows : List Event) (curr : Location F) (out : Result (Option EventRuleResult))
      (events : Table Event) (made : List Event)
      → IsAdded rows curr events made (record_result rows curr out (events, made))
  record-IsAdded rows curr (err e) events made = record {
    new = [];
    stored = sym (append-nil events.rows);
    created = sym (append-nil made);
    from_packet = tt;
    apart = λ _. tt;
  }
  record-IsAdded rows curr (ok none) events made = record {
    new = [];
    stored = sym (append-nil events.rows);
    created = sym (append-nil made);
    from_packet = tt;
    apart = λ _. tt;
  }
  record-IsAdded rows curr (ok (some res)) events made =
      elim (Bool-cases (is_duplicate rows curr.vehicle_id res.event_type curr.timestamp)) [
        | inl d ↦ rw d record {
          new = [];
          stored = sym (append-nil events.rows);
          created = sym (append-nil made);
          from_packet = tt;
          apart = λ _. tt;
        }
        | inr d ↦ rw d record {
          new = event_of events.next_id curr res ∷ [];
          stored = refl;
          created = refl;
          from_packet = ((refl, refl), tt);
          apart = λ past. (new-IsApart rows curr events.next_id res past d, tt);
        }
      ]

module _ {F : Type 0} ⦃fl : Float F⦄ where
  run-IsAdded :
      (rows : List Event) (prev : Option (Location F)) (curr : Location F) (rules : List Rule)
      (events : Table Event) (made : List Event)
      → IsAdded rows curr events made (run_rules rows rules prev curr (events, made))
  unfolding run_rules
  run-IsAdded rows prev curr [] events made = record {
    new = [];
    stored = sym (append-nil events.rows);
    created = sym (append-nil made);
    from_packet = tt;
    apart = λ _. tt;
  }
  run-IsAdded rows prev curr (r ∷ rules) events made =
      let step = record_result rows curr (evaluate r prev curr) (events, made) in
      let first = record-IsAdded rows curr (evaluate r prev curr) events made in
      let rest = run-IsAdded rows prev curr rules step.0 step.1 in
      record {
        new = first.new ++ rest.new;
        stored =
            rest.stored
            ∙ ap (λ l. l ++ rest.new) first.stored
            ∙ append_assoc events.rows first.new rest.new;
        created =
            rest.created
            ∙ ap (λ l. l ++ rest.new) first.created
            ∙ append_assoc made first.new rest.new;
        from_packet = All-append _ first.new rest.new first.from_packet rest.from_packet;
        apart = λ past. All-append _ first.new rest.new (first.apart past) (rest.apart past);
      }

  -- When no event of the vehicle is later than the packet, each event that the packet creates is at
  -- least 5 seconds from every event of its vehicle and type that was stored before.
  pub process_telemetry-apart :
      (db : Database F) (prev : Option (Location F)) (curr : Location F)
      → IsPast curr.vehicle_id curr.timestamp db.events.rows
      → All (λ e. All (IsApart e) db.events.rows) (process_telemetry db prev curr).0
  unfolding process_telemetry
  process_telemetry-apart db prev curr past =
      let added = run-IsAdded db.events.rows prev curr default_rules db.events [] in
      subst (All (λ e. All (IsApart e) db.events.rows)) (sym added.created) (added.apart past)

  -- Processing a packet changes only the table of events, to which it appends the events that it
  -- returns, in order; each is of the packet's vehicle and carries the packet's time.
  pub process_telemetry-stored :
      (db : Database F) (prev : Option (Location F)) (curr : Location F)
      → let out = process_telemetry db prev curr in
        (out.1 ≡ record db { events = out.1.events })
        × (out.1.events.rows ≡ db.events.rows ++ out.0)
        × All (λ e. (e.vehicle_id ≡ curr.vehicle_id) × (e.created_at ≡ curr.timestamp)) out.0
  unfolding process_telemetry
  process_telemetry-stored db prev curr =
      let added = run-IsAdded db.events.rows prev curr default_rules db.events [] in
      (
        refl,
        added.stored ∙ ap (λ l. db.events.rows ++ l) (sym added.created),
        subst (All _) (sym added.created) added.from_packet,
      )
