-- ===== src/Packet/Tests.antt =====
-- The validation of a packet of 14 November 2023 (app/services/packet_validator.py).
use welogical_vehicle_tracki.Common.{none, some, ℤ, pos}
use welogical_vehicle_tracki.Float.Fixed.{fixed_float}
use welogical_vehicle_tracki.Json.{empty}
use welogical_vehicle_tracki.Packet.{VtsPacket, text}

abbrev packet : VtsPacket ℤ
packet = record {
  uid = text "T-7";
  info = record {
    dt = pos 1700000000;
    txn = "A";
    msgkey = none;
    msgid = some (pos 12);
    cmdkey = none;
    cmdval = none;
  };
  gps = record {
    fix = "A";
    loc = (pos 10000000, pos 20000000);
    speed = pos 30000000;
    sat = none;
    alt = pos 0;
    dir = some (pos 90000000);
    odo = none;
  };
  io = none;
  pwr = none;
  dbg = none;
  model_extra = empty;
}
