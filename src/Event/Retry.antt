-- ===== src/Event/Retry.antt =====
-- The duplicate check of `EventEngine` (app/services/event_engine.py): a packet that is processed
-- again creates no event.
use mathlib.Core.List.{append-nil}
use welogical_vehicle_tracki.Common.{
  ℕ, ◌≤◌, ◌≡◌, refl, true, Option, none, some, List, [], ◌∷◌, ◌++◌, arith, eq_iff, if◌then◌else◌,
  select-append, greatest, greatest-append, greater, All, All-append, Result, ok, err, String, inl,
  inr, Bool-cases,
}
use welogical_vehicle_tracki.Models.{DateTime, Location, Event, Table}
use welogical_vehicle_tracki.Event.Result.{EventRuleResult}
use welogical_vehicle_tracki.Event.Engine.{
  is_duplicate, is_near, is_event_of, event_of, record_result, last_at,
}

-- The event times of a vehicle are in the past of `ts`.
abbrev pub IsPast : ℕ → DateTime → List Event → Type 0
IsPast v ts = All (λ e. e.vehicle_id ≡ v → e.created_at ≤ ts)

last_at-append :
    (events : List Event) (v : ℕ) (kind : String) (e : Event)
    → last_at (events ++ (e ∷ [])) v kind ≡ (
        if is_event_of v kind e
        then some (greater e.created_at (last_at events v kind))
        else last_at events v kind)
unfolding last_at
last_at-append events v kind e = elim (Bool-cases (is_event_of v kind e)) [
  | inl m ↦ rw (select-append (is_event_of v kind) events (e ∷ []), m) (greatest-append _ _ e)
  | inr m ↦ rw (select-append (is_event_of v kind) events (e ∷ []), m) (rw append-nil)
]

abbrev pub IsAtMost : DateTime → Option DateTime → Type 0
IsAtMost ts none = Unit
IsAtMost ts (some m) = m ≤ ts

pub last_at-IsAtMost :
    (events : List Event) (v : ℕ) (kind : String) (ts : DateTime)
    → IsPast v ts events
    → IsAtMost ts (last_at events v kind)
unfolding last_at greatest
last_at-IsAtMost [] v kind ts past = tt
last_at-IsAtMost (x ∷ xs) v kind ts past = ground (arith, last_at-IsAtMost xs v kind ts past.1)

pub is_near_self :
    (ts : DateTime) (last : Option DateTime)
    → IsAtMost ts last
    → is_near ts (some (greater ts last)) ≡ true
is_near_self ts none h = ground arith
is_near_self ts (some m) h = ground arith

is_near-greater :
    (ts : DateTime) (last : Option DateTime)
    → is_near ts last ≡ true
    → is_near ts (some (greater ts last)) ≡ true
is_near-greater ts none h = cc
is_near-greater ts (some m) h = ground arith

-- Another event at the same time does not make a duplicate new.
is_duplicate-append :
    (events : List Event) (v : ℕ) (kind : String) (ts : DateTime) (e : Event)
    → e.created_at ≡ ts
    → is_duplicate events v kind ts ≡ true
    → is_duplicate (events ++ (e ∷ [])) v kind ts ≡ true
is_duplicate-append events v kind ts e same h = elim (Bool-cases (is_event_of v kind e)) [
  | inl m ↦
      rw (last_at-append events v kind e, m, same) (is_near-greater ts (last_at events v kind) h)
  | inr m ↦ rw (last_at-append events v kind e, m) h
]

-- An event that was just stored is a duplicate at its own time, if no later one was stored before.
is_duplicate_self :
    (events : List Event) (v : ℕ) (ts : DateTime) (e : Event)
    → e.created_at ≡ ts
    → e.vehicle_id ≡ v
    → IsPast v ts events
    → is_duplicate (events ++ (e ∷ [])) v e.event_type ts ≡ true
is_duplicate_self events v ts e same mine past =
    let m : is_event_of v e.event_type e ≡ true =
      ground (arith, eq_iff e.event_type e.event_type) in
    rw (last_at-append events v e.event_type e, m, same)
      (is_near_self ts (last_at events v e.event_type)
        (last_at-IsAtMost events v e.event_type ts past))

module _ {F : Type 0} where
  -- A rule's outcome makes no event: none fired, it raised, or its event is a duplicate.
  abbrev pub Settled : Location F → Table Event → Result (Option EventRuleResult) → Type 0
  Settled curr_loc events (err e) = Unit
  Settled curr_loc events (ok none) = Unit
  Settled curr_loc events (ok (some res)) =
      is_duplicate events.rows curr_loc.vehicle_id res.event_type curr_loc.timestamp ≡ true

  -- What is a duplicate of a stored event is one of an event so far.
  abbrev pub Covers : List Event → Location F → Table Event → Type 0
  Covers rows curr_loc events =
      (kind : String)
      → is_duplicate rows curr_loc.vehicle_id kind curr_loc.timestamp ≡ true
      → is_duplicate events.rows curr_loc.vehicle_id kind curr_loc.timestamp ≡ true

  module _ (rows : List Event) (curr_loc : Location F) where
    pub record-Settled :
        (out : Result (Option EventRuleResult)) (events : Table Event) (created : List Event)
        → IsPast curr_loc.vehicle_id curr_loc.timestamp events.rows
        → Covers rows curr_loc events
        → Settled curr_loc (record_result rows curr_loc out (events, created)).0 out
    record-Settled (err e) events created past covers = tt
    record-Settled (ok none) events created past covers = tt
    record-Settled (ok (some res)) events created past covers =
        elim (Bool-cases
          (is_duplicate rows curr_loc.vehicle_id res.event_type curr_loc.timestamp)) [
            | inl e ↦ rw e (covers res.event_type e)
            | inr e ↦ rw e (
                is_duplicate_self events.rows curr_loc.vehicle_id curr_loc.timestamp
                  (event_of events.next_id curr_loc res) refl refl past)
          ]

    pub record-IsPast :
        (out : Result (Option EventRuleResult)) (events : Table Event) (created : List Event)
        → IsPast curr_loc.vehicle_id curr_loc.timestamp events.rows
        → IsPast curr_loc.vehicle_id curr_loc.timestamp
            (record_result rows curr_loc out (events, created)).0.rows
    record-IsPast (err e) events created past = past
    record-IsPast (ok none) events created past = past
    record-IsPast (ok (some res)) events created past =
        elim (Bool-cases
          (is_duplicate rows curr_loc.vehicle_id res.event_type curr_loc.timestamp)) [
            | inl e ↦ rw e past
            | inr e ↦ rw e (All-append _ events.rows _ past (λ _. omega arith, tt))
          ]

    -- A duplicate at the time of the packet stays one.
    record_duplicate :
        (out : Result (Option EventRuleResult)) (events : Table Event) (created : List Event)
        (kind : String)
        → is_duplicate events.rows curr_loc.vehicle_id kind curr_loc.timestamp ≡ true
        → is_duplicate
            (record_result rows curr_loc out (events, created)).0.rows
            curr_loc.vehicle_id
            kind
            curr_loc.timestamp
          ≡ true
    record_duplicate (err e) events created kind h = h
    record_duplicate (ok none) events created kind h = h
    record_duplicate (ok (some res)) events created kind h =
        elim (Bool-cases
          (is_duplicate rows curr_loc.vehicle_id res.event_type curr_loc.timestamp)) [
            | inl e ↦ rw e h
            | inr e ↦ rw e (
                is_duplicate-append events.rows curr_loc.vehicle_id kind curr_loc.timestamp
                  (event_of events.next_id curr_loc res) refl h)
          ]

    pub record-Covers :
        (out : Result (Option EventRuleResult)) (events : Table Event) (created : List Event)
        → Covers rows curr_loc events
        → Covers rows curr_loc (record_result rows curr_loc out (events, created)).0
    record-Covers out events created covers kind h =
        record_duplicate out events created kind (covers kind h)

    pub record-keeps :
        (out other : Result (Option EventRuleResult)) (events : Table Event) (created : List Event)
        → Settled curr_loc events other
        → Settled curr_loc (record_result rows curr_loc out (events, created)).0 other
    record-keeps out (err e) events created h = tt
    record-keeps out (ok none) events created h = tt
    record-keeps out (ok (some res)) events created h =
        record_duplicate out events created res.event_type h

  pub Settled-record :
      (curr_loc : Location F) (out : Result (Option EventRuleResult)) (stored : Table Event)
      (s : Table Event × List Event)
      → Settled curr_loc stored out
      → record_result stored.rows curr_loc out s ≡ s
  Settled-record curr_loc (err e) stored s h = refl
  Settled-record curr_loc (ok none) stored s h = refl
  Settled-record curr_loc (ok (some res)) stored s h = rw h
