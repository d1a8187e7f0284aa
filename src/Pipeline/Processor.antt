-- ===== src/Pipeline/Processor.antt =====
-- app/services/packet_processor.py: what is done with a stored packet in the background. The arguments
-- are those of the context (app/services/processing_context.py); the clock is one of them. The schema
-- takes the packet out of its dump as it was put in. The background job that opens the session for
-- it (app/services/background_jobs.py) adds nothing but logging. A broadcast that fails is logged.
use welogical_vehicle_tracki.Common.{
  ℕ, String, Bool, true, not, Option, none, some, List, [], ◌∷◌, ◌++◌, ◌==◌, ltb, if◌then◌else◌,
  find?, select, latest, update_first, Result, ok, err, pos,
}
use welogical_vehicle_tracki.Float.{Float, Trig, lt}
use welogical_vehicle_tracki.Json.{Json, Dict, null, int, num, str, obj, empty, entry}
use welogical_vehicle_tracki.Models.{DateTime, Vehicle, Location, Event, Database, insert}
use welogical_vehicle_tracki.Settings.{Settings}
use welogical_vehicle_tracki.Packet.{VtsPacket, VtsIo}
use welogical_vehicle_tracki.Packet.Dump.{field, dump_io, dump_pwr, dump_dbg, set_key, set_all}
use welogical_vehicle_tracki.Event.Decoder.{decode_and_save_event}
use welogical_vehicle_tracki.Event.Engine.{process_telemetry}
use welogical_vehicle_tracki.Notification.{Notice, evaluate_event}
use welogical_vehicle_tracki.Trip.Engine.{get_vehicle_speed_limit}
use welogical_vehicle_tracki.Trip.Session.{Session, fresh, flush, evaluate_in}
use welogical_vehicle_tracki.Pipeline.Context.{
  Broadcast, telemetry, vehicle_topic, notifications, events, route_completed, Context, State,
}
use welogical_vehicle_tracki.Pipeline.Progress.{update_route_progress}

-- Step 3: only a packet that is newer than the last one seen.
abbrev pub is_newer : DateTime → Option DateTime → Bool
is_newer ts none = true
is_newer ts (some seen) = ltb seen ts

module _ {F : Type 0} where
  abbrev pub with_field : {A : Type 0} → String → (A → Json F) → Option A → Dict F → Dict F
  with_field key f none d = d
  with_field key f (some a) d = set_key key (f a) d

  -- Step 2: the extra data of the location.
  unfoldable pub extra_data_of : VtsPacket F → Dict F
  unfolding set_key set_all
  extra_data_of packet =
      let details = obj (
        entry "fix" (str packet.gps.fix) (
          entry "sat" (field int packet.gps.sat) (
            entry "dir" (field num packet.gps.dir)
              (entry "odo" (field num packet.gps.odo) empty)))) in
      let base =
        entry "txn" (str packet.info.txn)
          (entry "msgkey" (field int packet.info.msgkey) (entry "gps_details" details empty)) in
      set_all packet.model_extra (
        with_field "dbg" dump_dbg packet.dbg
          (with_field "pwr" dump_pwr packet.pwr (with_field "io" dump_io packet.io base)))

  abbrev pub location_of : ℕ → ℕ → Context F → Location F
  location_of id v ctx = record {
    id = id;
    vehicle_id = v;
    latitude = ctx.packet.gps.loc.0;
    longitude = ctx.packet.gps.loc.1;
    speed = ctx.packet.gps.speed;
    altitude = ctx.packet.gps.alt;
    timestamp = ctx.timestamp;
    extra_data = some (extra_data_of ctx.packet);
  }

  unfoldable pub previous_location : ℕ → Database F → Option (Location F)
  previous_location v db =
      latest (λ (l : Location F). l.timestamp)
        (select (λ (l : Location F). l.vehicle_id == v) db.locations.rows)

  abbrev pub set_vehicle : ℕ → (Vehicle → Vehicle) → Database F → Database F
  set_vehicle v f db = record db {
    vehicles = record (db.vehicles) {
      rows = update_first (λ (x : Vehicle). x.id == v) f db.vehicles.rows;
    };
  }

  -- `ign = packet.io.ign if packet.io else None`
  abbrev pub ignition_of : Option VtsIo → Json F
  ignition_of none = null
  ignition_of (some io) = field int io.ign

  -- The notifications of the events, in their order; the event loop runs.
  unfoldable pub notify_all : (ℕ → String) → List Event → Database F → Database F × List Notice
  notify_all str_id [] db = (db, [])
  notify_all str_id (e ∷ made) db =
      let (alerts, db', notices) = evaluate_event str_id true e db in
      let (db'', more) = notify_all str_id made db' in (db'', notices ++ more)

  abbrev pub broadcast_all : {A : Type 0} → (A → Broadcast F) → List A → List (Broadcast F)
  broadcast_all f [] = []
  broadcast_all f (a ∷ rest) = f a ∷ broadcast_all f rest

  -- Each event that is stored flushes the session (app/database.py: `autoflush=False`).
  abbrev pub is_flushed : Database F → Database F → Bool
  is_flushed before after = not (after.events.next_id == before.events.next_id)

  -- What a query reads once the packet is recorded: its location only after a flush.
  abbrev pub visible : Database F → Database F → Database F
  visible before after =
      if is_flushed before after then after else record after { locations = before.locations }

module _ {F : Type 0} ⦃fl : Float F⦄ where
  open fl use {decimal, le, str_int}

  abbrev pub seen : Context F → Vehicle → Vehicle
  seen ctx v =
      if is_newer ctx.timestamp v.last_seen
      then record v {
        last_seen = some ctx.timestamp;
        status = if lt (decimal 1 1) ctx.packet.gps.speed then "Moving" else "Idle";
      }
      else v

  -- Steps 1 to 4: the location, the vehicle, the events and their notifications, as the session knows
  -- them. No query of these steps reads the location or the vehicle.
  unfoldable pub record_packet : Context F → Vehicle → State F → State F
  unfolding extra_data_of previous_location notify_all
  record_packet ctx vehicle s =
      let loc = location_of s.db.locations.next_id vehicle.id ctx in
      let stored = record (s.db) { locations = insert loc s.db.locations } in
      let decoded =
        decode_and_save_event ctx.now vehicle.id ctx.packet
          (set_vehicle vehicle.id (seen ctx) stored) in
      let (made, evaluated) = process_telemetry decoded (previous_location vehicle.id s.db) loc in
      let (notified, notices) = notify_all (λ n. str_int (pos n)) made evaluated in
      record {
        db = notified;
        sent =
            s.sent
            ++ (telemetry loc ∷ vehicle_topic vehicle.id loc ∷ [])
            ++ broadcast_all notifications notices
            ++ broadcast_all events made;
      }

  module _ ⦃tr : Trig F⦄ (cfg : Settings F) where
    -- Step 5, in the session that has recorded the packet.
    abbrev pub advance_trip : Context F → ℕ → Database F → Database F → Session F
    advance_trip ctx v before after =
        evaluate_in cfg (fresh (visible before after)) v ctx.packet.gps.loc.0 ctx.packet.gps.loc.1
          ctx.packet.gps.speed ctx.timestamp (ignition_of ctx.packet.io)
          (get_vehicle_speed_limit cfg (visible before after) v)

    -- What the commit stores: the trip in memory, and the location.
    abbrev pub committed : ℕ → Database F → Session F → Database F
    committed v after s = record (flush v s) { locations = after.locations }

    -- Step 6: an exception takes back all that was written, but no broadcast.
    abbrev pub finish : ℕ → State F → State F → Result (Session F × Option (ℕ × Option ℕ)) → State F
    finish v s s' (err e) = record s' { db = s.db }
    finish v s s' (ok (done, none)) = record s' { db = committed v s'.db done }
    finish v s s' (ok (done, some (assignment, trip))) = record {
      db = committed v s'.db done;
      sent = s'.sent ++ (route_completed v assignment trip ∷ []);
    }

    abbrev pub process_for : Context F → Option Vehicle → State F → State F
    process_for ctx none s = s
    process_for ctx (some vehicle) s =
        let s' = record_packet ctx vehicle s in
        finish vehicle.id s s'
          (update_route_progress ctx vehicle.id (advance_trip ctx vehicle.id s.db s'.db))

    unfoldable pub process_telemetry_packet : Context F → State F → State F
    unfolding record_packet update_route_progress
    process_telemetry_packet ctx s =
        process_for ctx (find? (λ (x : Vehicle). x.id == ctx.vehicle_id) s.db.vehicles.rows) s
