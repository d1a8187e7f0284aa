-- ===== src/Pipeline/Progress.antt =====
-- Step 5.5 of app/services/packet_processor.py: the progress that a packet reports on the route of its
-- vehicle. The columns take the JSON numbers of `route_progress` as they are.
use welogical_vehicle_tracki.Common.{
  ℕ, String, Bool, true, false, not, Option, none, some, str_eq, if◌then◌else◌, update_first,
  Result, ok, err, ◌>>=◌, attribute_error, pos, eqb_ℤ,
}
use welogical_vehicle_tracki.Float.{Float, lit, eqf}
use welogical_vehicle_tracki.Json.{
  Json, null, bool, int, num, str, arr, obj, nil, cons, empty, entry, get_or, number,
}
use welogical_vehicle_tracki.Models.{DateTime, Trip, completed, VehicleRouteAssignment}
use welogical_vehicle_tracki.Trip.Engine.{active_trip}
use welogical_vehicle_tracki.Trip.Session.{Session, loaded, hold}
use welogical_vehicle_tracki.Fleet.Routes.{is_active_on, active_assignment}
use welogical_vehicle_tracki.Pipeline.Context.{Context}

-- `a or b`, where `b` is read only if `a` is false
abbrev pub or_else_test : Bool → Result Bool → Result Bool
or_else_test true b = ok true
or_else_test false b = b

module _ {F : Type 0} where
  -- `route_progress.get(key, default)`
  abbrev pub progress_field : String → Json F → Json F → Result (Json F)
  progress_field key default (obj d) = ok (get_or key default d)
  progress_field key default _ = err attribute_error

  abbrev pub finish_assignment :
      DateTime → VehicleRouteAssignment F → Json F → VehicleRouteAssignment F
  finish_assignment now a full = record a {
    is_active = false;
    status = "COMPLETED";
    progress_percentage = full;
    completed_at = some now;
    current_point_index = a.last_coordinate_index;
  }

  -- The write of the assignment that the query found, which no later query of the session reads.
  abbrev pub set_assignment : ℕ → VehicleRouteAssignment F → Session F → Session F
  set_assignment v a s = record s {
    stored = record (s.stored) {
      route_assignments = record (s.stored.route_assignments) {
        rows = update_first (is_active_on v) (λ _. a) s.stored.route_assignments.rows;
      };
    };
  }

  -- The active trip ends at the time of the packet.
  abbrev pub finish_trip : DateTime → Trip F → Trip F
  finish_trip ts t = record t { is_active = false; status = completed; end_time = ts }

  -- The trip that the query finds: the one that is active as stored, even if the trip engine has just
  -- closed it in memory.
  abbrev pub finish_found : DateTime → Option (Trip F) → Session F → Session F
  finish_found ts none s = s
  finish_found ts (some t) s = hold s (finish_trip ts (loaded s t))

  abbrev pub trip_id : Option (Trip F) → Option ℕ
  trip_id none = none
  trip_id (some t) = some t.id

module _ {F : Type 0} ⦃fl : Float F⦄ where
  open fl use {decimal, le}

  -- `bool(value)`
  abbrev pub truthy : Json F → Bool
  truthy null = false
  truthy (bool b) = b
  truthy (int z) = not (eqb_ℤ z (pos 0))
  truthy (num x) = not (eqf x (lit 0))
  truthy (str s) = not (str_eq s "")
  truthy (arr nil) = false
  truthy (arr (cons x xs)) = true
  truthy (obj empty) = false
  truthy (obj (entry k v d)) = true

  -- `a >= b`
  abbrev pub ge : Json F → Json F → Result Bool
  ge a b = number a >>= λ x. number b >>= λ y. ok (le y x)

  abbrev pub is_complete : VehicleRouteAssignment F → Result Bool
  is_complete a = ge a.progress_percentage (num (decimal 1000 1)) >>= λ full.
      or_else_test full (ge a.current_point_index a.last_coordinate_index)

  -- The assignment with the progress that the packet reports.
  abbrev pub progressed : Json F → VehicleRouteAssignment F → Result (VehicleRouteAssignment F)
  progressed progress a =
      progress_field "current_point_index" a.current_point_index progress >>= λ index.
      progress_field "progress_percentage" a.progress_percentage progress >>= λ percentage.
      progress_field "last_coordinate_index" a.last_coordinate_index progress >>= λ last.
      ok (record a {
        current_point_index = index;
        progress_percentage = percentage;
        last_coordinate_index = last;
      })

  -- What a completed route closes: its assignment, and the active trip, whose numbers are returned.
  abbrev pub close_route :
      Context F
      → ℕ
      → VehicleRouteAssignment F
      → Session F
      → Bool
      → Session F × Option (ℕ × Option ℕ)
  close_route ctx v a s false = (set_assignment v a s, none)
  close_route ctx v a s true =
      let found = active_trip s.stored v in
      (
        finish_found ctx.timestamp found
            (set_assignment v (finish_assignment ctx.now a (num (decimal 1000 1))) s),
        some (a.id, trip_id found),
      )

  abbrev pub progress_on :
      Context F
      → ℕ
      → Json F
      → Option (VehicleRouteAssignment F)
      → Session F
      → Result (Session F × Option (ℕ × Option ℕ))
  progress_on ctx v progress none s = ok (s, none)
  progress_on ctx v progress (some a) s = progressed progress a >>= λ a'.
      is_complete a' >>= λ finished. ok (close_route ctx v a' s finished)

  -- Step 5.5.
  unfoldable pub update_route_progress :
      Context F → ℕ → Session F → Result (Session F × Option (ℕ × Option ℕ))
  update_route_progress ctx v s =
      let progress = get_or "route_progress" null ctx.packet.model_extra in
      let out = progress_on ctx v progress (active_assignment s.stored v) s in
      if truthy progress then out else ok (s, none)
