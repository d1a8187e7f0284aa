-- ===== src/Pipeline/Stored.antt =====
-- The outcomes of processing a packet (app/services/packet_processor.py): no vehicle, an exception that
-- takes all back, or one more location.
use welogical_vehicle_tracki.Common.{◌≡◌, true, none, some, ◌==◌, find?}
use welogical_vehicle_tracki.Float.{Float, Trig}
use welogical_vehicle_tracki.Json.{Json, null, get_or}
use welogical_vehicle_tracki.Models.{Vehicle, Trip, Database, insert}
use welogical_vehicle_tracki.Settings.{Settings}
use welogical_vehicle_tracki.Trip.Session.{Session}
use welogical_vehicle_tracki.Pipeline.Context.{Context, State}
use welogical_vehicle_tracki.Pipeline.Progress.{truthy}
use welogical_vehicle_tracki.Pipeline.Processor.{location_of}

module _ {F : Type 0} (ctx : Context F) (s : State F) where
  -- A database with the location of the packet, which may differ otherwise in the vehicle, the trips,
  -- the events, the notifications and the progress on routes.
  abbrev pub IsStored : Vehicle → Database F → Type 0
  IsStored vehicle db =
      record db {
        vehicles = s.db.vehicles;
        trips = s.db.trips;
        events = s.db.events;
        notifications = s.db.notifications;
        route_assignments = s.db.route_assignments;
      }
      ≡ record (s.db) {
        locations = insert (location_of s.db.locations.next_id vehicle.id ctx) s.db.locations;
      }

  abbrev pub reported : Json F
  reported = get_or "route_progress" null ctx.packet.model_extra

  pub data Processed ⦃fl : Float F⦄ (s' : State F) : Type 0 where
    -- there is no such vehicle
    unknown :
        find? (λ (x : Vehicle). x.id == ctx.vehicle_id) s.db.vehicles.rows ≡ none
        → s' ≡ s
        → Processed s'
    -- the progress on a route that the packet reports is not well formed
    rolled_back : truthy reported ≡ true → s'.db ≡ s.db → Processed s'
    stored :
        (vehicle : Vehicle)
        → find? (λ (x : Vehicle). x.id == ctx.vehicle_id) s.db.vehicles.rows ≡ some vehicle
        → IsStored vehicle s'.db
        → Processed s'

module _ {F : Type 0} ⦃fl : Float F⦄ ⦃tr : Trig F⦄ (cfg : Settings F) (ctx : Context F)
    (s : State F) where
  -- A database with the tables that a packet may write as they were.
  abbrev erased : Database F → Database F
  erased d = record d {
    vehicles = s.db.vehicles;
    trips = s.db.trips;
    events = s.db.events;
    notifications = s.db.notifications;
    route_assignments = s.db.route_assignments;
  }

  -- The session would commit a database with the location.
  abbrev Commits : Vehicle → Database F → Session F → Type 0
  Commits vehicle after t =
      IsStored ctx s vehicle (record (t.stored) { locations = after.locations })
