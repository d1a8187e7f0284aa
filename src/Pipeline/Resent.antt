-- ===== src/Pipeline/Resent.antt =====
-- A packet that is sent again (app/services/telemetry_pipeline.py), and what each packet leaves behind.
use welogical_vehicle_tracki.Common.{
  ℕ, ◌≡◌, refl, String, Bool, true, Option, none, some, List, [], ◌∷◌, ◌++◌, eq_iff, arith, inl,
  inr, Bool-cases, find?, ok, ℤ, ap, sym, subst, ◌∙◌,
}
use welogical_vehicle_tracki.Float.{Float}
use welogical_vehicle_tracki.Json.{Json}
use welogical_vehicle_tracki.Models.{
  DateTime, RawPacket, Database, DeviceCommand, Vehicle, Table, insert,
}
use welogical_vehicle_tracki.Packet.{VtsPacket}
use welogical_vehicle_tracki.Packet.Dump.{dump}
use welogical_vehicle_tracki.Packet.Validator.{validate_telemetry_packet}
use welogical_vehicle_tracki.Event.Fired.{eqb_ℤ_refl}
use welogical_vehicle_tracki.Fleet.Drivers.{is_some}
use welogical_vehicle_tracki.Pipeline.{
  duplicate_ignored, registered, resolve_vehicle, save_raw_packet, pending_command, deliver,
  device_uid_of, is_copy, is_duplicate_packet, accept, accept_for,
  run_synchronous_telemetry_pipeline, is_vehicle_of,
}

found_last :
    {A : Type 0} (p : A → Bool) (xs : List A) (a : A)
    → p a ≡ true
    → is_some (find? p (xs ++ (a ∷ []))) ≡ true
found_last p [] a h = ground arith
found_last p (x ∷ xs) a h = ground (arith, found_last p xs a)

module _ {F : Type 0} where
  deliver_raw :
      (now : DateTime) (v : ℕ) (c : Option DeviceCommand) (db : Database F)
      → (deliver now v c db).raw_packets ≡ db.raw_packets
  deliver_raw now v none db = refl
  deliver_raw now v (some c) db = refl

  registered_raw :
      (uid : String) (v : Option Vehicle) (db : Database F)
      → (registered uid v db).1.raw_packets ≡ db.raw_packets
  registered_raw uid none db = refl
  registered_raw uid (some v) db = refl

module _ {F : Type 0} ⦃fl : Float F⦄ where
  -- The row that a packet leaves.
  abbrev pub raw_of : ℕ → VtsPacket F → RawPacket F
  raw_of id packet = record {
    id = id;
    device_uid = device_uid_of packet;
    message_id = packet.info.msgid;
    packet_data = dump packet;
  }

  pub accept_raw :
      (now : DateTime) (packet : VtsPacket F) (t : DateTime) (db : Database F)
      → (accept now packet t db).1.raw_packets
        ≡ insert (raw_of db.raw_packets.next_id packet) db.raw_packets
  unfolding accept_for resolve_vehicle
  accept_raw now packet t db =
      let uid = device_uid_of packet in
      let known = resolve_vehicle uid db in
      let saved = save_raw_packet uid packet.info.msgid (dump packet) known.1 in
      deliver_raw now known.0.id (pending_command known.0.id saved) saved
      ∙ ap (λ (raws : Table (RawPacket F)). insert (raw_of raws.next_id packet) raws)
          (registered_raw uid (find? (is_vehicle_of uid) db.vehicles.rows) db)

  known_again :
      (same_json : Json F → Json F → Bool) (packet : VtsPacket F) (m : ℤ) (id : ℕ)
      (rows : List (RawPacket F))
      → ((x : Json F) → same_json x x ≡ true)
      → packet.info.msgid ≡ some m
      → is_duplicate_packet same_json
          (device_uid_of packet)
          packet.info.msgid
          (dump packet)
          (rows ++ (raw_of id packet ∷ []))
        ≡ true
  known_again same_json packet m id rows same numbered =
      subst
        (λ o.
          is_duplicate_packet same_json (device_uid_of packet) o (dump packet)
            (rows ++ (raw_of id packet ∷ []))
          ≡ true)
        (sym numbered)
        (found_last (is_copy same_json (device_uid_of packet) m (dump packet)) rows
          (raw_of id packet)
          (rw numbered (
            ground (
              arith,
              eq_iff (device_uid_of packet) (device_uid_of packet),
              eqb_ℤ_refl m,
              same (dump packet),
            ))))

  -- A valid packet with a message id that is sent again is ignored: the sender is told that it is a
  -- duplicate, no processing is asked for, and the database stays as the first time left it. The
  -- database's equality of JSON values is reflexive.
  pub run_synchronous_telemetry_pipeline_again :
      (same_json : Json F → Json F → Bool) (now later : DateTime) (packet : VtsPacket F) (m : ℤ)
      (t t' : DateTime) (db : Database F)
      → ((x : Json F) → same_json x x ≡ true)
      → packet.info.msgid ≡ some m
      → validate_telemetry_packet now packet ≡ ok t
      → validate_telemetry_packet later packet ≡ ok t'
      → (let first = run_synchronous_telemetry_pipeline same_json now packet db in
          run_synchronous_telemetry_pipeline same_json later packet first.1
          ≡ (ok (duplicate_ignored, none), first.1))
  unfolding run_synchronous_telemetry_pipeline
  run_synchronous_telemetry_pipeline_again same_json now later packet m t t' db same numbered valid
        valid' =
      let uid = device_uid_of packet in
      elim (Bool-cases
        (is_duplicate_packet same_json uid packet.info.msgid (dump packet) db.raw_packets.rows)) [
          | inl e ↦ rw (valid, valid', e) (rw e refl)
          | inr e ↦
              let raw =
                ap (λ (raws : Table (RawPacket F)). raws.rows) (accept_raw now packet t db) in
              rw (valid, valid', e)
                (rw raw (
                  rw
                    (known_again same_json packet m db.raw_packets.next_id db.raw_packets.rows same
                      numbered)
                    refl))
        ]
