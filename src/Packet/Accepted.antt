-- ===== src/Packet/Accepted.antt =====
-- What `validate_telemetry_packet` (app/services/packet_validator.py) accepts.
use Prim.Native.String.{◌++◌ as concat}
use welogical_vehicle_tracki.Common.{ℕ, ◌+◌, ◌≤◌, ◌≡◌, true, false, Option, none, some, ℤ, pos}
use welogical_vehicle_tracki.Float.{Float}
use welogical_vehicle_tracki.Models.{DateTime}
use welogical_vehicle_tracki.Settings.{secs}
use welogical_vehicle_tracki.Packet.{VtsPacket}
use welogical_vehicle_tracki.Packet.Validator.{is_blank_uid, is_negative, year_2020}

module _ {F : Type 0} ⦃fl : Float F⦄ where
  open fl use {decimal, neg, le}

  abbrev pub HasHeading : Option F → Type 0
  HasHeading none = Unit
  HasHeading (some d) = (le (decimal 0 1) d ≡ true) × (le d (decimal 3600 1) ≡ true)

  -- What an accepted packet is, with its time.
  pub record IsCompliant (now_utc : DateTime) (packet : VtsPacket F) (t : DateTime) : Type 0 where
    pub named : is_blank_uid packet.uid ≡ false
    pub message : is_negative packet.info.msgid ≡ false
    pub latitude :
        (le (neg (decimal 900 1)) packet.gps.loc.0 ≡ true)
        × (le packet.gps.loc.0 (decimal 900 1) ≡ true)
    pub longitude :
        (le (neg (decimal 1800 1)) packet.gps.loc.1 ≡ true)
        × (le packet.gps.loc.1 (decimal 1800 1) ≡ true)
    pub speed : le (decimal 0 1) packet.gps.speed ≡ true
    pub altitude :
        (le (neg (decimal 10000 1)) packet.gps.alt ≡ true)
        × (le packet.gps.alt (decimal 100000 1) ≡ true)
    pub heading : HasHeading packet.gps.dir
    pub second : ℕ
    pub time : packet.info.dt ≡ pos second
    pub stamp : t ≡ secs second
    pub recent : year_2020 ≤ second
    pub past : t ≤ now_utc + secs 3600

record IsTimely (now_utc : DateTime) (dt : ℤ) (t : DateTime) : Type 0 where
  second : ℕ
  time : dt ≡ pos second
  stamp : t ≡ secs second
  recent : year_2020 ≤ second
  past : t ≤ now_utc + secs 3600
