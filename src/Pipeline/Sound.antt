-- ===== src/Pipeline/Sound.antt =====
-- Processing a packet keeps the trips sound (app/services/packet_processor.py).
use welogical_vehicle_tracki.Common.{
  ℕ, ◌≤◌, ◌≡◌, refl, true, false, Bool, Option, none, some, ◌==◌, inl, inr, Bool-cases,
  Option-cases, ap, sym, subst, ==→eq, Result, ok, err, ◌>>=◌, arith, find?, find?-sound, All,
  count_if, Returns, >>=-Returns,
}
use welogical_vehicle_tracki.Float.{Float, Trig}
use welogical_vehicle_tracki.Json.{Json, null, get_or}
use welogical_vehicle_tracki.Models.{DateTime, Vehicle, Trip, VehicleRouteAssignment, Database}
use welogical_vehicle_tracki.Settings.{Settings}
use welogical_vehicle_tracki.Trip.Engine.{is_active_of, active_trip, get_vehicle_speed_limit}
use welogical_vehicle_tracki.Trip.Invariant.{IsWellFormed, IsSound}
use welogical_vehicle_tracki.Trip.Started.{IsStarted, Started}
use welogical_vehicle_tracki.Trip.Session.{Session, loaded, flush}
use welogical_vehicle_tracki.Trip.Once.{IsReady, IsSafe, evaluate_in-IsSafe, flush-IsSafe}
use welogical_vehicle_tracki.Fleet.Routes.{active_assignment}
use welogical_vehicle_tracki.Pipeline.Context.{Context, State}
use welogical_vehicle_tracki.Pipeline.Progress.{
  finish_trip, finish_found, progressed, is_complete, close_route, progress_on,
  update_route_progress, truthy, set_assignment,
}
use welogical_vehicle_tracki.Pipeline.Processor.{
  record_packet, advance_trip, committed, visible, is_flushed, finish, process_for,
  process_telemetry_packet, ignition_of,
}
use welogical_vehicle_tracki.Pipeline.Frame.{record_packet-Alike}

module _ {F : Type 0} (v : ℕ) (ts : DateTime) where
  finish_trip-IsReady : (m : Trip F) → IsReady v ts m → IsReady v ts (finish_trip ts m)
  finish_trip-IsReady m r = record {
    well_formed = finished m r.well_formed r.started;
    vehicle = r.vehicle;
    started = r.started;
  }
    where
      finished : (t : Trip F) → IsWellFormed t → t.start_time ≤ ts → IsWellFormed (finish_trip ts t)
      finished t h started = ground (arith, started)

  finish_found-IsSafe :
      (found : Option (Trip F)) (s : Session F)
      → active_trip s.stored v ≡ found
      → IsSafe v ts s
      → IsSafe v ts (finish_found ts found s)
  finish_found-IsSafe none s e h = h
  finish_found-IsSafe (some t) s e h = record {
    sound = h.sound;
    ready = λ _ _. finish_trip-IsReady (loaded s t) (h.ready t e);
  }

module _ {F : Type 0} where
  IsSound-same : (a b : Database F) → b.trips ≡ a.trips → IsSound a → IsSound b
  IsSound-same a b e h = record {
    well_formed = subst (λ t. All IsWellFormed t.rows) (sym e) h.well_formed;
    one_active = λ v. subst (λ t. count_if (is_active_of v) t.rows ≤ 1) (sym e) (h.one_active v);
  }

module _ {F : Type 0} (v : ℕ) (ts : DateTime) where
  assigned-IsSafe :
      (b : VehicleRouteAssignment F) (s : Session F)
      → IsSafe v ts s
      → IsSafe v ts (set_assignment v b s)
  assigned-IsSafe b s h = record {
    sound = IsSound-same s.stored (set_assignment v b s).stored refl h.sound;
    ready = h.ready;
  }

module _ {F : Type 0} ⦃fl : Float F⦄ (ctx : Context F) (v : ℕ) (P : Session F → Type 0) where
  -- Closing the assignment and the trip that are found.
  abbrev Finishes : Session F → Type 0
  Finishes s =
      (b : VehicleRouteAssignment F)
      → P (finish_found ctx.timestamp (active_trip s.stored v) (set_assignment v b s))

  close_route-Returns :
      (a : VehicleRouteAssignment F) (s : Session F) (done : Bool)
      → ((b : VehicleRouteAssignment F) → P (set_assignment v b s))
      → Finishes s
      → P (close_route ctx v a s done).0
  close_route-Returns a s false kept closed = kept a
  close_route-Returns a s true kept closed = closed _

  progress_on-Returns :
      (progress : Json F) (a : Option (VehicleRouteAssignment F)) (s : Session F)
      → P s
      → ((b : VehicleRouteAssignment F) → P (set_assignment v b s))
      → Finishes s
      → Returns (λ out. P out.0) (progress_on ctx v progress a s)
  progress_on-Returns progress none s p kept closed = p
  progress_on-Returns progress (some a) s p kept closed =
      >>=-Returns (λ out. P out.0) (progressed progress a)
        (λ b. is_complete b >>= λ done. ok (close_route ctx v b s done))
        (λ b.
          >>=-Returns (λ out. P out.0) (is_complete b) (λ done. ok (close_route ctx v b s done))
            (λ done. close_route-Returns b s done kept closed))

  -- The session that step 5.5 returns, if it does.
  pub update_route_progress-Returns :
      (s : Session F)
      → P s
      → ((b : VehicleRouteAssignment F) → P (set_assignment v b s))
      → Finishes s
      → Returns (λ out. P out.0) (update_route_progress ctx v s)
  unfolding update_route_progress
  update_route_progress-Returns s p kept closed =
      let progress = get_or "route_progress" null ctx.packet.model_extra in
      elim (Bool-cases (truthy progress)) [
        | inl e ↦ rw e (progress_on-Returns progress (active_assignment s.stored v) s p kept closed)
        | inr e ↦ rw e p
      ]

module _ {F : Type 0} ⦃fl : Float F⦄ ⦃tr : Trig F⦄ (cfg : Settings F) (ctx : Context F) where
  pub visible-trips : (before after : Database F) → (visible before after).trips ≡ after.trips
  visible-trips before after = elim (Bool-cases (is_flushed before after)) [
    | inl e ↦ rw e
    | inr e ↦ rw e
  ]

  advance_trip-IsSafe :
      (v : ℕ) (before after : Database F)
      → IsSound after
      → Started v ctx.timestamp after
      → IsSafe v ctx.timestamp (advance_trip cfg ctx v before after)
  advance_trip-IsSafe v before after h started =
      let db = visible before after in
      let same = visible-trips before after in
      evaluate_in-IsSafe cfg v ctx.timestamp db ctx.packet.gps.loc.0 ctx.packet.gps.loc.1
        ctx.packet.gps.speed (ignition_of ctx.packet.io) (get_vehicle_speed_limit cfg db v)
        (IsSound-same after db same h)
        (subst (λ t. All (IsStarted v ctx.timestamp) t.rows) (sym same) started)

  finish-IsSound :
      (v : ℕ) (s s' : State F) (out : Result (Session F × Option (ℕ × Option ℕ)))
      → IsSound s.db
      → Returns (λ o. IsSafe v ctx.timestamp o.0) out
      → IsSound (finish cfg v s s' out).db
  finish-IsSound v s s' (err e) h r = h
  finish-IsSound v s s' (ok (done, none)) h r =
      IsSound-same (flush v done) (committed cfg v s'.db done) refl
        (flush-IsSafe v ctx.timestamp done r)
  finish-IsSound v s s' (ok (done, some (a, t))) h r =
      IsSound-same (flush v done) (committed cfg v s'.db done) refl
        (flush-IsSafe v ctx.timestamp done r)

  process_for-IsSound :
      (vehicle : Vehicle) (s : State F)
      → IsSound s.db
      → Started vehicle.id ctx.timestamp s.db
      → IsSound (process_for cfg ctx (some vehicle) s).db
  process_for-IsSound vehicle s h started =
      let v = vehicle.id in
      let s' = record_packet ctx vehicle s in
      let same : s'.db.trips ≡ s.db.trips =
        ap (λ (d : Database F). d.trips) (record_packet-Alike ctx vehicle s) in
      let after = advance_trip cfg ctx v s.db s'.db in
      let safe =
        advance_trip-IsSafe v s.db s'.db (IsSound-same s.db s'.db same h)
          (subst (λ t. All (IsStarted v ctx.timestamp) t.rows) (sym same) started) in
      finish-IsSound v s s' (update_route_progress ctx v after) h (
        update_route_progress-Returns ctx v (IsSafe v ctx.timestamp) after safe
          (λ b. assigned-IsSafe v ctx.timestamp b after safe)
          (λ b.
            finish_found-IsSafe v ctx.timestamp (active_trip after.stored v)
              (set_assignment v b after) refl (assigned-IsSafe v ctx.timestamp b after safe)))

  -- Processing a packet, whatever it holds and whether it fails or not, keeps the trips of all vehicles
  -- sound (each runs forward in time, counts a packet and no more overspeeds than packets, and is active
  -- exactly while its status says so; no vehicle has two active trips), where the active trip of its
  -- vehicle did not start after the packet.
  pub process_telemetry_packet-IsSound :
      (s : State F)
      → IsSound s.db
      → Started ctx.vehicle_id ctx.timestamp s.db
      → IsSound (process_telemetry_packet cfg ctx s).db
  unfolding process_telemetry_packet
  process_telemetry_packet-IsSound s h started =
      elim (Option-cases (find? (λ (x : Vehicle). x.id == ctx.vehicle_id) s.db.vehicles.rows)) [
        | inl e ↦ rw e h
        | inr (vehicle, e) ↦
            let same = ==→eq vehicle.id ctx.vehicle_id (
              find?-sound (λ (x : Vehicle). x.id == ctx.vehicle_id) s.db.vehicles.rows vehicle e) in
            rw e (
              process_for-IsSound vehicle s h
                (subst (λ v. Started v ctx.timestamp s.db) (sym same) started))
      ]
