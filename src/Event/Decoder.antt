-- ===== src/Event/Decoder.antt =====
-- app/services/event_decoder.py: the events of a packet by its transaction code and the vehicle's
-- configuration. Nothing in the checks of the configuration raises on a parsed packet.
use Prim.Native.String.{◌++◌}
use welogical_vehicle_tracki.Common.{
  ℕ, zero, suc, String, Bool, false, not, ◌&&◌, ◌||◌, Option, none, some, List, [], ◌∷◌, ◌==◌,
  str_eq, if◌then◌else◌, find?, ℤ, pos, eqb_ℤ,
}
use welogical_vehicle_tracki.Float.{Float, lt}
use welogical_vehicle_tracki.Models.{DateTime, DeviceConfig, Database}
use welogical_vehicle_tracki.Packet.{VtsIo, VtsPwr, VtsDbg, VtsPacket}
use welogical_vehicle_tracki.Event.Trigger.{Trigger, txn_event_mapping, mapped, fire}

-- `x == 1`
abbrev pub is_one : Option ℤ → Bool
is_one none = false
is_one (some z) = eqb_ℤ z (pos 1)

abbrev pub version_at : ℕ → List String → Option String
version_at n [] = none
version_at zero (x ∷ xs) = some x
version_at (suc n) (x ∷ xs) = version_at n xs

abbrev pub versions : Option VtsDbg → List String
versions none = []
versions (some dbg) = elim dbg.ver [ none ↦ [] | some ver ↦ ver ]

-- `target and device and device != target`, where an empty string is false.
abbrev pub mismatch : Option String → Option String → (String → String → Trigger) → Option Trigger
mismatch none device alert = none
mismatch (some target) none alert = none
mismatch (some target) (some device) alert =
    if not (str_eq target "") && (not (str_eq device "") && not (str_eq device target))
    then some (alert device target)
    else none

abbrev pub ignition_description : String → Option VtsIo → String
ignition_description description none = description
ignition_description description (some io) =
    "Vehicle ignition turned " ++ (if is_one io.ign then "ON" else "OFF")

abbrev pub firmware_alert : Option ℤ → String → String → Trigger
firmware_alert msgid device target = record {
  txn = "Q";
  event_type = "Firmware Mismatch";
  description = "Device firmware " ++ device ++ " does not match configured target " ++ target;
  severity = "Warning";
  msgid = msgid;
}

abbrev pub hardware_alert : Option ℤ → String → String → Trigger
hardware_alert msgid device target = record {
  txn = "Q";
  event_type = "Hardware Mismatch";
  description = "Device hardware " ++ device ++ " does not match configured target " ++ target;
  severity = "Warning";
  msgid = msgid;
}

module _ {F : Type 0} where
  abbrev pub power_description : String → Option (VtsPwr F) → String
  power_description description none = description
  power_description description (some pwr) =
      "External mains supply power " ++ (if is_one pwr.main then "connected" else "disconnected")

  -- The descriptions that are made from values of the packet.
  abbrev pub description_of : String → String → VtsPacket F → String
  description_of txn description packet =
      if str_eq txn "J"
      then ignition_description description packet.io
      else if str_eq txn "L"
      then power_description description packet.pwr
      else description

  abbrev pub mapped_trigger : VtsPacket F → Option (String × String × String) → Option Trigger
  mapped_trigger packet none = none
  mapped_trigger packet (some (event_type, description, severity)) = some (record {
    txn = packet.info.txn;
    event_type = event_type;
    description = description_of packet.info.txn description packet;
    severity = severity;
    msgid = packet.info.msgid;
  })

  abbrev pub firmware_trigger : VtsPacket F → DeviceConfig F → Option Trigger
  firmware_trigger packet config =
      mismatch config.firmware_version (version_at 0 (versions packet.dbg))
        (firmware_alert packet.info.msgid)

  abbrev pub hardware_trigger : VtsPacket F → DeviceConfig F → Option Trigger
  hardware_trigger packet config =
      mismatch config.hardware_version (version_at 1 (versions packet.dbg))
        (hardware_alert packet.info.msgid)

  abbrev pub config_of : Database F → ℕ → Option (DeviceConfig F)
  config_of db v = find? (λ (c : DeviceConfig F). c.vehicle_id == v) db.configs.rows

module _ {F : Type 0} ⦃fl : Float F⦄ where
  abbrev pub speed_alert : VtsPacket F → Option F → Option Trigger
  speed_alert packet none = none
  speed_alert packet (some limit) =
      if lt limit packet.gps.speed && not (str_eq packet.info.txn "B" || str_eq packet.info.txn "D")
      then some (record {
        txn = "D";
        event_type = "Overspeed Alert";
        description =
            "Vehicle speed "
            ++ fl.str_float packet.gps.speed
            ++ " km/h exceeded configured limit of "
            ++ fl.str_float limit
            ++ " km/h";
        severity = "Critical";
        msgid = packet.info.msgid;
      })
      else none

  -- The thresholds and the versions of the configuration.
  abbrev pub check_config :
      DateTime → ℕ → VtsPacket F → Option (DeviceConfig F) → Database F → Database F
  check_config now v packet none db = db
  check_config now v packet (some config) db =
      fire now v (speed_alert packet config.speed_limit) (
        fire now v (hardware_trigger packet config)
          (fire now v (firmware_trigger packet config) db))

  -- Its result is always `None`.
  unfoldable pub decode_and_save_event : DateTime → ℕ → VtsPacket F → Database F → Database F
  unfolding mapped
  decode_and_save_event now v packet db =
      let logged =
        fire now v (mapped_trigger packet (mapped packet.info.txn txn_event_mapping)) db in
      check_config now v packet (config_of logged v) logged
