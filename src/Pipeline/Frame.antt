-- ===== src/Pipeline/Frame.antt =====
-- What the steps of app/services/packet_processor.py write: each its own tables.
use welogical_vehicle_tracki.Common.{
  ℕ, ◌≡◌, refl, String, Bool, if◌then◌else◌, true, false, Option, none, some, List, [], ◌∷◌, inl,
  inr, ap, ◌∙◌, pos,
}
use welogical_vehicle_tracki.Float.{Float}
use welogical_vehicle_tracki.Models.{DateTime, Vehicle, Location, Event, Database, insert}
use welogical_vehicle_tracki.Packet.{VtsPacket}
use welogical_vehicle_tracki.Event.Trigger.{
  Trigger, trigger_system_event, fire, is_repeated, mapped, txn_event_mapping, triggered,
}
use welogical_vehicle_tracki.Event.Decoder.{
  decode_and_save_event, check_config, mapped_trigger, firmware_trigger, hardware_trigger,
  speed_alert, config_of,
}
use welogical_vehicle_tracki.Models.{DeviceConfig}
use welogical_vehicle_tracki.Event.Engine.{process_telemetry}
use welogical_vehicle_tracki.Notification.{evaluate_event}
use welogical_vehicle_tracki.Notification.Laws.{evaluate_event-Alerted}
use welogical_vehicle_tracki.Pipeline.Context.{Context, State}
use welogical_vehicle_tracki.Pipeline.Processor.{
  location_of, set_vehicle, seen, previous_location, notify_all, record_packet,
}

module _ {F : Type 0} where
  -- The two databases differ in the events and the notifications only.
  abbrev pub Alike : Database F → Database F → Type 0
  Alike db db' = record db' { events = db.events; notifications = db.notifications } ≡ db

  Alike-trans : (a b c : Database F) → Alike a b → Alike b c → Alike a c
  Alike-trans a b c f g =
      ap (λ (d : Database F). record d { events = a.events; notifications = a.notifications }) g ∙ f

  either-Alike :
      (b : Bool) (db : Database F) (x y : Option Event × Database F)
      → Alike db x.1
      → Alike db y.1
      → Alike db (if b then x else y).1
  either-Alike true db x y f g = f
  either-Alike false db x y f g = g

  fire-Alike :
      (now : DateTime) (v : ℕ) (t : Option Trigger) (db : Database F) → Alike db (fire now v t db)
  unfolding trigger_system_event
  fire-Alike now v none db = refl
  fire-Alike now v (some t) db =
      either-Alike (is_repeated db.events.rows v t.txn t.msgid) db (none, db)
        (
          some (triggered db.events.next_id v t now),
          record db { events = insert (triggered db.events.next_id v t now) db.events },
        )
        refl refl

  notify_all-Alike :
      (str : ℕ → String) (made : List Event) (db : Database F) → Alike db (notify_all str made db).0
  unfolding notify_all
  notify_all-Alike str [] db = refl
  notify_all-Alike str (e ∷ made) db =
      let db' = (evaluate_event str true e db).1 in
      let first : Alike db db' = elim (evaluate_event-Alerted str true e db) [
        | inl (r, _, _, out) ↦ rw out refl
        | inr (out, _) ↦ rw out refl
      ] in
      Alike-trans db db' (notify_all str made db').0 first (notify_all-Alike str made db')

module _ {F : Type 0} ⦃fl : Float F⦄ where
  check_config-Alike :
      (now : DateTime) (v : ℕ) (packet : VtsPacket F) (config : Option (DeviceConfig F))
      (db : Database F)
      → Alike db (check_config now v packet config db)
  check_config-Alike now v packet none db = refl
  check_config-Alike now v packet (some config) db =
      let a = fire now v (firmware_trigger packet config) db in
      let b = fire now v (hardware_trigger packet config) a in
      Alike-trans db b (fire now v (speed_alert packet config.speed_limit) b)
        (Alike-trans db a b (fire-Alike now v (firmware_trigger packet config) db)
          (fire-Alike now v (hardware_trigger packet config) a))
        (fire-Alike now v (speed_alert packet config.speed_limit) b)

  decode_and_save_event-Alike :
      (now : DateTime) (v : ℕ) (packet : VtsPacket F) (db : Database F)
      → Alike db (decode_and_save_event now v packet db)
  unfolding decode_and_save_event
  decode_and_save_event-Alike now v packet db =
      let mapping = mapped_trigger packet (mapped packet.info.txn txn_event_mapping) in
      let logged = fire now v mapping db in
      Alike-trans db logged (check_config now v packet (config_of logged v) logged)
        (fire-Alike now v mapping db) (check_config-Alike now v packet (config_of logged v) logged)

  process_telemetry-Alike :
      (db : Database F) (prev : Option (Location F)) (curr : Location F)
      → Alike db (process_telemetry db prev curr).1
  unfolding process_telemetry
  process_telemetry-Alike db prev curr = refl

  -- Recording a packet adds its location and changes its vehicle; otherwise only events and
  -- notifications.
  pub record_packet-Alike :
      (ctx : Context F) (vehicle : Vehicle) (s : State F)
      → Alike
          (set_vehicle vehicle.id (seen ctx) (record (s.db) {
            locations = insert (location_of s.db.locations.next_id vehicle.id ctx) s.db.locations;
          }))
          (record_packet ctx vehicle s).db
  unfolding record_packet
  record_packet-Alike ctx vehicle s =
      let loc = location_of s.db.locations.next_id vehicle.id ctx in
      let start : Database F =
        set_vehicle vehicle.id (seen ctx)
          (record (s.db) { locations = insert loc s.db.locations }) in
      let decoded = decode_and_save_event ctx.now vehicle.id ctx.packet start in
      let processed = process_telemetry decoded (previous_location vehicle.id s.db) loc in
      let notified = notify_all (λ n. fl.str_int (pos n)) processed.0 processed.1 in
      Alike-trans start decoded notified.0
        (decode_and_save_event-Alike ctx.now vehicle.id ctx.packet start)
        (Alike-trans decoded processed.1 notified.0
          (process_telemetry-Alike decoded (previous_location vehicle.id s.db) loc)
          (notify_all-Alike (λ n. fl.str_int (pos n)) processed.0 processed.1))
