-- ===== src/Pipeline/Delivery.antt =====
-- The vehicle that app/services/telemetry_pipeline.py finds or registers for a packet, and the delivery
-- of its oldest pending command.
use mathlib.Core.Option
use welogical_vehicle_tracki.Common.{
  ℕ, ◌≤◌, ◌≡◌, refl, String, true, false, Option, none, some, List, [], ◌∷◌, ◌==◌, if◌then◌else◌,
  arith, inl, inr, Option-cases, find?, select, earliest, earliest-Has, earliest-none, Has,
  Has-select, All, find?-update_first, ℤ,
}
use welogical_vehicle_tracki.Json.{Json}
use welogical_vehicle_tracki.Models.{DateTime, Database, DeviceCommand, Vehicle, Table, insert}
use welogical_vehicle_tracki.Pipeline.{
  Response, save_raw_packet, deliver, is_pending_of, mark_sent, delivered_log, response_to,
  auto_registered, is_vehicle_of,
}

abbrev pub created : DeviceCommand → ℕ
created c = c.created_at

-- Of the vehicle's pending commands, the oldest.
abbrev pub IsOldest : ℕ → List DeviceCommand → DeviceCommand → Type 0
IsOldest v rows c =
    Has (λ x. (is_pending_of v x ≡ true) × (x ≡ c)) rows
    × All (λ x. is_pending_of v x ≡ true → c.created_at ≤ x.created_at) rows

-- What a response has delivered: nothing, since no command of the vehicle is pending; or the oldest
-- of them, which alone is marked as sent, with an entry in the log.
pub data Delivered {F : Type 0} (now : DateTime) (v : ℕ) (db db' : Database F)
    : Response → Type 0 where
  nothing :
      All (λ x. is_pending_of v x ≡ false) db.commands.rows
      → db'.commands ≡ db.commands
      → db'.command_logs ≡ db.command_logs
      → Delivered now v db db' (response_to none)
  oldest :
      (c : DeviceCommand)
      → IsOldest v db.commands.rows c
      → ((k : ℕ)
          → find? (λ (x : DeviceCommand). x.id == k) db'.commands.rows ≡ (
              if k == c.id
              then Option.map
                  (mark_sent now)
                  (find? (λ (x : DeviceCommand). x.id == k) db.commands.rows)
              else find? (λ (x : DeviceCommand). x.id == k) db.commands.rows))
      → db'.command_logs ≡ insert (delivered_log db.command_logs.next_id c.id v) db.command_logs
      → Delivered now v db db' (response_to (some c))

none_pending :
    (v : ℕ) (rows : List DeviceCommand)
    → select (is_pending_of v) rows ≡ []
    → All (λ x. is_pending_of v x ≡ false) rows
none_pending v [] h = tt
none_pending v (c ∷ rows) h = ground (arith, none_pending v rows)

none_older :
    (v : ℕ) (t : DateTime) (rows : List DeviceCommand)
    → All (λ (x : DeviceCommand). t ≤ x.created_at) (select (is_pending_of v) rows)
    → All (λ x. is_pending_of v x ≡ true → t ≤ x.created_at) rows
none_older v t [] h = tt
none_older v t (c ∷ rows) h = ground (arith, none_older v t rows)

module _ {F : Type 0} where
  -- The database once the vehicle is resolved and the packet stored.
  abbrev pub saved_for : String → Option ℤ → Json F → Table Vehicle → Database F → Database F
  saved_for uid message_id packet_data vs db =
      save_raw_packet uid message_id packet_data (record db { vehicles = vs })

  pub deliver-Delivered :
      (now : DateTime) (v : ℕ) (uid : String) (message_id : Option ℤ) (packet_data : Json F)
      (vs : Table Vehicle) (db : Database F)
      → (let pending = earliest created (select (is_pending_of v) db.commands.rows) in
          Delivered now v db
            (deliver now v pending (saved_for uid message_id packet_data vs db))
            (response_to pending))
  deliver-Delivered now v uid message_id packet_data vs db =
      elim (Option-cases (earliest created (select (is_pending_of v) db.commands.rows))) [
        | inl e ↦ rw e (
            nothing
              (none_pending v db.commands.rows
                (earliest-none created (select (is_pending_of v) db.commands.rows) e))
              refl refl)
        | inr (c, e) ↦
            let (has, all) = earliest-Has created (select (is_pending_of v) db.commands.rows) c e in
            rw e (
              oldest c
                (
                  Has-select (λ x. x ≡ c) (is_pending_of v) db.commands.rows has,
                  none_older v c.created_at db.commands.rows all,
                )
                (λ k.
                  find?-update_first (λ (x : DeviceCommand). x.id) (mark_sent now) c.id k
                    db.commands.rows (λ x. refl))
                refl)
      ]

  -- The vehicle that the device's packets belong to: the one that has its uid, or a new one.
  pub data Resolved (uid : String) (db : Database F) : Vehicle → Table Vehicle → Type 0 where
    known :
        (v : Vehicle)
        → find? (is_vehicle_of uid) db.vehicles.rows ≡ some v
        → Resolved uid db v db.vehicles
    new :
        find? (is_vehicle_of uid) db.vehicles.rows ≡ none
        → Resolved uid db
            (auto_registered db.vehicles.next_id uid)
            (insert (auto_registered db.vehicles.next_id uid) db.vehicles)
