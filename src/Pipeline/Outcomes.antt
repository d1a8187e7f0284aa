-- ===== src/Pipeline/Outcomes.antt =====
-- The outcomes of app/services/telemetry_pipeline.py on a packet: an error, a duplicate, or a packet
-- that is stored for its vehicle, with the delivery of the oldest pending command.
use welogical_vehicle_tracki.Common.{
  ◌≡◌, refl, Bool, true, false, Option, none, some, inl, inr, Bool-cases, Option-cases,
  Result-cases, find?, select, earliest, Result, ok, err, Exception,
}
use welogical_vehicle_tracki.Float.{Float}
use welogical_vehicle_tracki.Json.{Json}
use welogical_vehicle_tracki.Models.{DateTime, Database, DeviceCommand, Vehicle, Table, insert}
use welogical_vehicle_tracki.Packet.{VtsPacket}
use welogical_vehicle_tracki.Packet.Dump.{dump}
use welogical_vehicle_tracki.Packet.Validator.{validate_telemetry_packet}
use welogical_vehicle_tracki.Pipeline.{
  Response, Metadata, duplicate_ignored, resolve_vehicle, deliver, is_pending_of, response_to,
  device_uid_of, is_duplicate_packet, latency, accept, accept_for,
  run_synchronous_telemetry_pipeline, is_vehicle_of,
}
use welogical_vehicle_tracki.Pipeline.Resent.{raw_of}
use welogical_vehicle_tracki.Pipeline.Delivery.{
  created, saved_for, Delivered, deliver-Delivered, Resolved, known, new,
}

module _ {F : Type 0} ⦃fl : Float F⦄ (now : DateTime) (packet : VtsPacket F) where
  -- An accepted packet is stored, its vehicle is the device's, and the rest of the database is as it
  -- was but for the delivery of a command.
  pub record Accepted (t : DateTime) (db : Database F) (answer : Response × Option (Metadata F))
      (db' : Database F) : Type 0 where
    pub vehicle : Vehicle
    pub resolved : Resolved (device_uid_of packet) db vehicle db'.vehicles
    pub raw : db'.raw_packets ≡ insert (raw_of db.raw_packets.next_id packet) db.raw_packets
    pub delivered : Delivered now vehicle.id db db' (answer.0)
    pub metadata :
        answer.1
        ≡ some (record {
          vehicle_id = vehicle.id;
          device_uid = device_uid_of packet;
          packet_time = t;
          message_id = packet.info.msgid;
          packet_latency = latency now packet.info.dt;
        })
    pub tables :
        record db' {
          vehicles = db.vehicles;
          raw_packets = db.raw_packets;
          commands = db.commands;
          command_logs = db.command_logs;
        }
        ≡ db

  abbrev metadata_for : DateTime → Vehicle → Metadata F
  metadata_for t v = record {
    vehicle_id = v.id;
    device_uid = device_uid_of packet;
    packet_time = t;
    message_id = packet.info.msgid;
    packet_latency = latency now packet.info.dt;
  }

  abbrev saved_with : Table Vehicle → Database F → Database F
  saved_with vs db = saved_for (device_uid_of packet) packet.info.msgid (dump packet) vs db

  delivered-Accepted :
      (t : DateTime) (db : Database F) (v : Vehicle) (vs : Table Vehicle)
      (pending : Option DeviceCommand)
      → Resolved (device_uid_of packet) db v vs
      → Delivered now v.id db (deliver now v.id pending (saved_with vs db)) (response_to pending)
      → Accepted t db
          (response_to pending, some (metadata_for t v))
          (deliver now v.id pending (saved_with vs db))
  delivered-Accepted t db v vs none r d = record {
    vehicle = v;
    resolved = r;
    raw = refl;
    delivered = d;
    metadata = refl;
    tables = refl;
  }
  delivered-Accepted t db v vs (some c) r d = record {
    vehicle = v;
    resolved = r;
    raw = refl;
    delivered = d;
    metadata = refl;
    tables = refl;
  }

  accept_for-Accepted :
      (t : DateTime) (db : Database F) (v : Vehicle) (vs : Table Vehicle)
      → Resolved (device_uid_of packet) db v vs
      → (let out = accept_for now packet t (v, record db { vehicles = vs }) in
          Accepted t db out.0 out.1)
  unfolding accept_for
  accept_for-Accepted t db v vs r =
      delivered-Accepted t db v vs (earliest created (select (is_pending_of v.id) db.commands.rows))
        r (deliver-Delivered now v.id (device_uid_of packet) packet.info.msgid (dump packet) vs db)

  accept-Accepted :
      (t : DateTime) (db : Database F)
      → Accepted t db (accept now packet t db).0 (accept now packet t db).1
  unfolding resolve_vehicle
  accept-Accepted t db =
      elim (Option-cases (find? (is_vehicle_of (device_uid_of packet)) db.vehicles.rows)) [
        | inl e ↦ rw e (accept_for-Accepted t db _ _ (new e))
        | inr (v, e) ↦ rw e (accept_for-Accepted t db v db.vehicles (known v e))
      ]

  -- The outcomes: a packet that is not valid is refused and one that is stored already is ignored,
  -- both without a change; any other is accepted.
  pub data Ingested (same_json : Json F → Json F → Bool) (db : Database F)
      : Result (Response × Option (Metadata F)) × Database F → Type 0 where
    refused :
        (e : Exception)
        → validate_telemetry_packet now packet ≡ err e
        → Ingested same_json db (err e, db)
    ignored :
        (t : DateTime)
        → validate_telemetry_packet now packet ≡ ok t
        → is_duplicate_packet same_json
            (device_uid_of packet)
            packet.info.msgid
            (dump packet)
            db.raw_packets.rows
          ≡ true
        → Ingested same_json db (ok (duplicate_ignored, none), db)
    accepted :
        (t : DateTime) (answer : Response × Option (Metadata F)) (db' : Database F)
        → validate_telemetry_packet now packet ≡ ok t
        → is_duplicate_packet same_json
            (device_uid_of packet)
            packet.info.msgid
            (dump packet)
            db.raw_packets.rows
          ≡ false
        → Accepted t db answer db'
        → Ingested same_json db (ok answer, db')

  -- A packet is refused with the error of its validation, ignored as a duplicate, or accepted. Refused
  -- or ignored it changes nothing. Accepted it is stored as it is for the vehicle that has its uid,
  -- which is registered if there is none; the vehicle's oldest pending command, if it has one, is
  -- marked as sent, logged and put into the response; and no other row of any table changes.
  pub run_synchronous_telemetry_pipeline-Ingested :
      (same_json : Json F → Json F → Bool) (db : Database F)
      → Ingested same_json db (run_synchronous_telemetry_pipeline same_json now packet db)
  unfolding run_synchronous_telemetry_pipeline
  run_synchronous_telemetry_pipeline-Ingested same_json db =
      elim (Result-cases (validate_telemetry_packet now packet)) [
        | inr (e, invalid) ↦ rw invalid (refused e invalid)
        | inl (t, valid) ↦
            elim (Bool-cases (
              is_duplicate_packet same_json (device_uid_of packet) packet.info.msgid (dump packet)
                db.raw_packets.rows)) [
                  | inl dup ↦ rw (valid, dup) (ignored t valid dup)
                  | inr fresh ↦
                      rw (valid, fresh)
                        (accepted t (accept now packet t db).0 (accept now packet t db).1 valid
                          fresh (accept-Accepted t db))
                ]
      ]
