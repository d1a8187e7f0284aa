-- ===== src/Event/Decoded.antt =====
-- The protection against duplicates of app/services/event_decoder.py: a numbered packet that is
-- decoded again stores nothing, and a numbered event is stored once.
use welogical_vehicle_tracki.Common.{
  ℕ, ◌≡◌, refl, sym, subst, ◌∙◌, ap, inl, inr, not, ◌&&◌, ◌||◌, Option, none, some, str_eq, ℤ,
  Bool-cases,
}
use welogical_vehicle_tracki.Float.{Float}
use welogical_vehicle_tracki.Models.{DateTime, DeviceConfig, Database}
use welogical_vehicle_tracki.Packet.{VtsPacket}
use welogical_vehicle_tracki.Event.Trigger.{
  Trigger, txn_event_mapping, mapped, is_repeated, trigger_system_event, fire,
}
use welogical_vehicle_tracki.Event.Decoder.{
  mapped_trigger, firmware_trigger, hardware_trigger, firmware_alert, hardware_alert, versions,
  version_at, speed_alert, check_config, config_of, decode_and_save_event,
}
use welogical_vehicle_tracki.Event.Fired.{
  IsSpent, IsMarked, IsParameter, mismatch-IsParameter, mismatch-IsMarked, mapped-IsMarked,
  spent-fire, fire-IsSpent, fire-keeps,
}

module _ {F : Type 0} where
  -- After one trigger of the code "Q" and a message id, the next one is spent.
  parameter-IsSpent :
      (v : ℕ) (db : Database F) (msgid : Option ℤ) (t : Trigger) (u : Option Trigger)
      → IsParameter msgid (some t)
      → IsParameter msgid u
      → IsSpent v (some t) db
      → IsSpent v u db
  parameter-IsSpent v db msgid t none ht hu h = tt
  parameter-IsSpent v db msgid t (some u) ht hu h = rw (hu.0 ∙ sym ht.0, hu.1 ∙ sym ht.1) h

  -- When the firmware of a numbered packet does not match, its hardware mismatch is never stored.
  pub hardware_after_firmware :
      (now : DateTime) (v : ℕ) (packet : VtsPacket F) (c : DeviceConfig F) (db : Database F) (m : ℤ)
      (t : Trigger)
      → packet.info.msgid ≡ some m
      → firmware_trigger packet c ≡ some t
      → let one = fire now v (firmware_trigger packet c) db in
        fire now v (hardware_trigger packet c) one ≡ one
  hardware_after_firmware now v packet c db m t e found =
      let one = fire now v (firmware_trigger packet c) db in
      let fw =
        mismatch-IsParameter c.firmware_version (version_at 0 (versions packet.dbg))
          (firmware_alert packet.info.msgid) packet.info.msgid (λ _ _. (refl, refl)) in
      let hw =
        mismatch-IsParameter c.hardware_version (version_at 1 (versions packet.dbg))
          (hardware_alert packet.info.msgid) packet.info.msgid (λ _ _. (refl, refl)) in
      let spent = fire-IsSpent now v (firmware_trigger packet c) db (
        mismatch-IsMarked c.firmware_version (version_at 0 (versions packet.dbg))
          (firmware_alert packet.info.msgid) m (λ _ _. e)) in
      spent-fire now v (hardware_trigger packet c) one (
        parameter-IsSpent v one packet.info.msgid t (hardware_trigger packet c)
          (subst (IsParameter packet.info.msgid) found fw) hw
          (subst (λ x. IsSpent v x one) found spent))

  fire-config_of :
      (now : DateTime) (v : ℕ) (t : Option Trigger) (db : Database F)
      → config_of (fire now v t db) v ≡ config_of db v
  unfolding trigger_system_event
  fire-config_of now v none db = refl
  fire-config_of now v (some t) db =
      elim (Bool-cases (is_repeated db.events.rows v t.txn t.msgid)) [
        | inl r ↦ rw (fire, r) refl
        | inr r ↦ rw (fire, r) refl
      ]

module _ {F : Type 0} ⦃fl : Float F⦄ where
  speed-IsMarked :
      (packet : VtsPacket F) (limit : Option F) (m : ℤ)
      → packet.info.msgid ≡ some m
      → IsMarked (speed_alert packet limit)
  speed-IsMarked packet none m e = tt
  speed-IsMarked packet (some limit) m e =
      elim (Bool-cases (
        not (fl.le packet.gps.speed limit)
        && not (str_eq packet.info.txn "B" || str_eq packet.info.txn "D"))) [
          | inl f ↦ rw f (m, e)
          | inr f ↦ rw f tt
        ]

  check-keeps :
      (now : DateTime) (v : ℕ) (packet : VtsPacket F) (c : Option (DeviceConfig F))
      (u : Option Trigger) (db : Database F)
      → IsSpent v u db
      → IsSpent v u (check_config now v packet c db)
  check-keeps now v packet none u db h = h
  check-keeps now v packet (some c) u db h =
      fire-keeps now v (speed_alert packet c.speed_limit) v u _ (
        fire-keeps now v (hardware_trigger packet c) v u _
          (fire-keeps now v (firmware_trigger packet c) v u db h))

  check-config_of :
      (now : DateTime) (v : ℕ) (packet : VtsPacket F) (c : Option (DeviceConfig F))
      (db : Database F)
      → config_of (check_config now v packet c db) v ≡ config_of db v
  check-config_of now v packet none db = refl
  check-config_of now v packet (some c) db =
      fire-config_of now v (speed_alert packet c.speed_limit) _
      ∙ fire-config_of now v (hardware_trigger packet c) _
      ∙ fire-config_of now v (firmware_trigger packet c) db

  check_again :
      (now again : DateTime) (v : ℕ) (packet : VtsPacket F) (c : Option (DeviceConfig F))
      (db : Database F) (m : ℤ)
      → packet.info.msgid ≡ some m
      → check_config again v packet c (check_config now v packet c db)
        ≡ check_config now v packet c db
  check_again now again v packet none db m e = refl
  check_again now again v packet (some c) db m e =
      let f = firmware_trigger packet c in
      let h = hardware_trigger packet c in
      let s = speed_alert packet c.speed_limit in
      let one = fire now v f db in
      let two = fire now v h one in
      let three = fire now v s two in
      let spent_f : IsSpent v f three = fire-keeps now v s v f two (
        fire-keeps now v h v f one (
          fire-IsSpent now v f db (
            mismatch-IsMarked c.firmware_version (version_at 0 (versions packet.dbg))
              (firmware_alert packet.info.msgid) m (λ _ _. e)))) in
      let spent_h : IsSpent v h three = fire-keeps now v s v h two (
        fire-IsSpent now v h one (
          mismatch-IsMarked c.hardware_version (version_at 1 (versions packet.dbg))
            (hardware_alert packet.info.msgid) m (λ _ _. e))) in
      let spent_s : IsSpent v s three =
        fire-IsSpent now v s two (speed-IsMarked packet c.speed_limit m e) in
      ap (λ d. fire again v s (fire again v h d)) (spent-fire again v f three spent_f)
      ∙ ap (λ d. fire again v s d) (spent-fire again v h three spent_h)
      ∙ spent-fire again v s three spent_s

  -- A packet with a message id that is decoded again, at any time, stores nothing more.
  pub decode_and_save_event_again :
      (now again : DateTime) (v : ℕ) (packet : VtsPacket F) (db : Database F) (m : ℤ)
      → packet.info.msgid ≡ some m
      → let once = decode_and_save_event now v packet db in
        decode_and_save_event again v packet once ≡ once
  unfolding decode_and_save_event
  decode_and_save_event_again now again v packet db m e =
      let t = mapped_trigger packet (mapped packet.info.txn txn_event_mapping) in
      let logged = fire now v t db in
      let c = config_of logged v in
      let once = check_config now v packet c logged in
      let spent : IsSpent v t once =
        check-keeps now v packet c t logged
          (fire-IsSpent now v t db (mapped-IsMarked packet _ m e)) in
      ap (λ d. check_config again v packet (config_of d v) d) (spent-fire again v t once spent)
      ∙ ap (λ k. check_config again v packet k once) (check-config_of now v packet c logged)
      ∙ check_again now again v packet c logged m e
