-- ===== src/Packet.antt =====
-- app/schemas/vts.py: a packet of the tracker protocol, as the schema has parsed it.
pub mod Dump
pub mod Validator
pub mod Accepted
mod Tests
use welogical_vehicle_tracki.Common.{String, Option, List, ℤ}
use welogical_vehicle_tracki.Json.{Dict}

pub record VtsInfo : Type 0 where
  pub dt : ℤ
  pub txn : String
  pub msgkey : Option ℤ
  pub msgid : Option ℤ
  pub cmdkey : Option String
  pub cmdval : Option String

-- `loc` has a length of exactly 2: the latitude and the longitude.
pub record VtsGps (F : Type 0) : Type 0 where
  pub fix : String
  pub loc : F × F
  pub speed : F
  pub sat : Option ℤ
  pub alt : F
  pub dir : Option F
  pub odo : Option F

pub record VtsIo : Type 0 where
  pub box : Option ℤ
  pub ign : Option ℤ
  pub gpi : Option ℤ
  pub status : Option ℤ
  pub analog : Option (List ℤ)

pub record VtsPwr (F : Type 0) : Type 0 where
  pub main : Option ℤ
  pub batt : Option ℤ
  pub volt : Option F
  pub mvolt : Option F

pub record VtsDbg : Type 0 where
  pub status : Option (List ℤ)
  pub ver : Option (List String)
  pub lib : Option String

pub data Uid : Type 0 where
  text : String → Uid
  number : ℤ → Uid

pub record VtsPacket (F : Type 0) : Type 0 where
  pub uid : Uid
  pub info : VtsInfo
  pub gps : VtsGps F
  pub io : Option VtsIo
  pub pwr : Option (VtsPwr F)
  pub dbg : Option VtsDbg
  -- the fields that the schema does not name
  pub model_extra : Dict F
