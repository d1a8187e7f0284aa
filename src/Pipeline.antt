-- ===== src/Pipeline.antt =====
-- app/services/telemetry_pipeline.py: what is done with a packet while its sender waits. The column of
-- raw packets compares JSON values with the database's own equality, `same_json`. The clock is an
-- argument, read once. An exception takes back what the call has written.
pub mod Delivery
pub mod Outcomes
pub mod Resent
pub mod Context
pub mod Progress
pub mod Processor
pub mod Frame
pub mod Sound
pub mod Stored
mod Tests
use Prim.Native.String.{◌++◌ as concat}
use mathlib.Core.Option
use welogical_vehicle_tracki.Common.{
  ℕ, String, Bool, true, false, not, ◌&&◌, Option, none, some, List, [], ◌∷◌, ◌==◌, str_eq,
  if◌then◌else◌, find?, select, earliest, update_first, Result, ok, err, ℤ, eqb_ℤ,
}
use welogical_vehicle_tracki.Float.{Float, fmax, of_int}
use welogical_vehicle_tracki.Json.{Json}
use welogical_vehicle_tracki.Models.{
  DateTime, Vehicle, RawPacket, DeviceCommand, CommandLog, Database, insert,
}
use welogical_vehicle_tracki.Packet.{VtsPacket, Uid, text, number}
use welogical_vehicle_tracki.Packet.Dump.{dump}
use welogical_vehicle_tracki.Packet.Validator.{validate_telemetry_packet}
use welogical_vehicle_tracki.Event.Trigger.{same_msgid}
use welogical_vehicle_tracki.Fleet.Drivers.{is_some}

-- `response_payload`
pub record Response : Type 0 where
  pub result : Bool
  pub msg : String
  pub cmd : Option String
  pub cmd_id : Option ℕ

-- `background_metadata`
pub record Metadata (F : Type 0) : Type 0 where
  pub vehicle_id : ℕ
  pub device_uid : String
  pub packet_time : DateTime
  pub message_id : Option ℤ
  pub packet_latency : F

abbrev pub duplicate_ignored : Response
duplicate_ignored = record {
  result = true;
  msg = "Duplicate Packet Ignored";
  cmd = none;
  cmd_id = none;
}

abbrev pub uid_text : (ℤ → String) → Uid → String
uid_text str_int (text s) = s
uid_text str_int (number z) = str_int z

abbrev pub is_vehicle_of : String → Vehicle → Bool
is_vehicle_of uid v = str_eq v.device_uid uid

abbrev pub auto_registered : ℕ → String → Vehicle
auto_registered id uid = record {
  id = id;
  device_uid = uid;
  vehicle_name = concat "Vehicle " uid;
  vehicle_type = "Unknown";
  last_seen = none;
  status = "Enabled";
}

abbrev pub is_pending_of : ℕ → DeviceCommand → Bool
is_pending_of v c = c.vehicle_id == v && str_eq c.status "PENDING"

abbrev pub mark_sent : DateTime → DeviceCommand → DeviceCommand
mark_sent now c = record c { status = "SENT"; sent_at = some now }

abbrev pub is_empty_text : String → Bool
is_empty_text s = str_eq s ""

-- `f"{name}={value}"`, or the name where there is no value
abbrev pub command_text : String → Option String → String
command_text name none = name
command_text name (some value) =
    if is_empty_text value then name else concat name (concat "=" value)

abbrev pub delivered_log : ℕ → ℕ → ℕ → CommandLog
delivered_log id command_id v = record {
  id = id;
  command_id = command_id;
  vehicle_id = v;
  status = "SENT";
  message = some "Delivered to device in HTTP telemetry response payload";
}

-- A command with an empty text is not put into the response.
abbrev pub response_to : Option DeviceCommand → Response
response_to none = record { result = true; msg = "Data Success"; cmd = none; cmd_id = none }
response_to (some c) =
    let cmd = command_text c.command_type c.payload in
    if is_empty_text cmd
    then record { result = true; msg = "Data Success"; cmd = none; cmd_id = none }
    else record { result = true; msg = "Data Success"; cmd = some cmd; cmd_id = some c.id }

module _ {F : Type 0} where
  -- Step 3.
  abbrev pub registered : String → Option Vehicle → Database F → Vehicle × Database F
  registered uid (some v) db = (v, db)
  registered uid none db =
      let v = auto_registered db.vehicles.next_id uid in
      (v, record db { vehicles = insert v db.vehicles })

  unfoldable pub resolve_vehicle : String → Database F → Vehicle × Database F
  resolve_vehicle uid db = registered uid (find? (is_vehicle_of uid) db.vehicles.rows) db

  -- Step 4.
  abbrev pub save_raw_packet : String → Option ℤ → Json F → Database F → Database F
  save_raw_packet uid message_id packet_data db =
      let packet : RawPacket F = record {
        id = db.raw_packets.next_id;
        device_uid = uid;
        message_id = message_id;
        packet_data = packet_data;
      } in
      record db { raw_packets = insert packet db.raw_packets }

  -- Step 5.
  unfoldable pub pending_command : ℕ → Database F → Option DeviceCommand
  pending_command v db =
      earliest (λ (c : DeviceCommand). c.created_at) (select (is_pending_of v) db.commands.rows)

  abbrev pub deliver : DateTime → ℕ → Option DeviceCommand → Database F → Database F
  deliver now v none db = db
  deliver now v (some c) db = record db {
    commands = record (db.commands) {
      rows = update_first (λ (x : DeviceCommand). x.id == c.id) (mark_sent now) db.commands.rows;
    };
    command_logs = insert (delivered_log db.command_logs.next_id c.id v) db.command_logs;
  }

module _ {F : Type 0} ⦃fl : Float F⦄ where
  open fl use {decimal, sub, str_int}

  -- `str(packet.uid)`
  abbrev pub device_uid_of : VtsPacket F → String
  device_uid_of packet = uid_text str_int packet.uid

  -- `max(0.0, now_epoch - packet.info.dt)`
  abbrev pub latency : DateTime → ℤ → F
  latency now dt = fmax (decimal 0 1) (sub (decimal now 6) (of_int dt))

  -- Steps 4 to 6, on a packet that is valid and new, for the vehicle of step 3.
  unfoldable pub accept_for :
      DateTime
      → VtsPacket F
      → DateTime
      → Vehicle × Database F
      → (Response × Option (Metadata F)) × Database F
  unfolding pending_command
  accept_for now packet packet_time (vehicle, known) =
      let uid = device_uid_of packet in
      let saved = save_raw_packet uid packet.info.msgid (dump packet) known in
      let pending = pending_command vehicle.id saved in
      (
        (
          response_to pending,
          some (record {
            vehicle_id = vehicle.id;
            device_uid = uid;
            packet_time = packet_time;
            message_id = packet.info.msgid;
            packet_latency = latency now packet.info.dt;
          }),
        ),
        deliver now vehicle.id pending saved,
      )

  abbrev pub accept :
      DateTime → VtsPacket F → DateTime → Database F → (Response × Option (Metadata F)) × Database F
  accept now packet packet_time db =
      accept_for now packet packet_time (resolve_vehicle (device_uid_of packet) db)

  module _ (same_json : Json F → Json F → Bool) where
    abbrev pub is_copy : String → ℤ → Json F → RawPacket F → Bool
    is_copy uid m packet_data p =
        str_eq p.device_uid uid
        && (same_msgid m p.message_id && same_json p.packet_data packet_data)

    -- Step 2: only a packet with a message id can be a duplicate.
    abbrev pub is_duplicate_packet : String → Option ℤ → Json F → List (RawPacket F) → Bool
    is_duplicate_packet uid none packet_data packets = false
    is_duplicate_packet uid (some m) packet_data packets =
        is_some (find? (is_copy uid m packet_data) packets)

    abbrev pub after_validation :
        DateTime
        → VtsPacket F
        → Database F
        → Result DateTime
        → Result (Response × Option (Metadata F)) × Database F
    after_validation now packet db (err e) = (err e, db)
    after_validation now packet db (ok packet_time) =
        let (answer, db') = accept now packet packet_time db in
        if is_duplicate_packet (device_uid_of packet) packet.info.msgid (dump packet)
          db.raw_packets.rows
        then (ok (duplicate_ignored, none), db)
        else (ok answer, db')

    unfoldable pub run_synchronous_telemetry_pipeline :
        DateTime → VtsPacket F → Database F → Result (Response × Option (Metadata F)) × Database F
    unfolding accept_for resolve_vehicle
    run_synchronous_telemetry_pipeline now packet db =
        after_validation now packet db (validate_telemetry_packet now packet)
