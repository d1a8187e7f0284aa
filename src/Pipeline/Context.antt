-- ===== src/Pipeline/Context.antt =====
-- The arguments of app/services/packet_processor.py (app/services/processing_context.py), and its state:
-- the session's database and what has been broadcast.
use welogical_vehicle_tracki.Common.{ℕ, Option, List}
use welogical_vehicle_tracki.Models.{DateTime, Location, Event, Database}
use welogical_vehicle_tracki.Packet.{VtsPacket}
use welogical_vehicle_tracki.Notification.{Notice}

-- A broadcast, by its topic.
pub data Broadcast (F : Type 0) : Type 0 where
  telemetry : Location F → Broadcast F
  vehicle_topic : ℕ → Location F → Broadcast F
  notifications : Notice → Broadcast F
  events : Event → Broadcast F
  route_completed : ℕ → ℕ → Option ℕ → Broadcast F

pub record Context (F : Type 0) : Type 0 where
  pub vehicle_id : ℕ
  pub packet : VtsPacket F
  pub timestamp : DateTime
  pub now : DateTime

-- The session's database and what has been broadcast.
pub record State (F : Type 0) : Type 0 where
  pub db : Database F
  pub sent : List (Broadcast F)
