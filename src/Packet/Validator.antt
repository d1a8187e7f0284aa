-- ===== src/Packet/Validator.antt =====
-- `validate_telemetry_packet` of app/services/packet_validator.py. The clock is an argument. The texts
-- of the errors on the timestamp leave out the times, which `datetime` formats.
use Prim.Native.Char.{code}
use Prim.Native.String.{◌++◌ as concat, [] as empty_text, ◌∷◌ as ◌then_text◌}
use welogical_vehicle_tracki.Common.{
  ℕ, ◌+◌, String, Bool, true, false, ◌&&◌, ◌||◌, Option, none, some, ltb, leb, ◌==◌, ℤ, pos, negsuc,
  Result, ok, err, ◌>>◌, raise_if, protocol_error, value_error,
}
use welogical_vehicle_tracki.Float.{Float, lt}
use welogical_vehicle_tracki.Models.{DateTime}
use welogical_vehicle_tracki.Settings.{secs}
use welogical_vehicle_tracki.Packet.{VtsPacket, Uid, text, number}

-- `str.isspace` of one character
abbrev pub is_space : ℕ → Bool
is_space n =
    (leb 9 n && leb n 13)
    || (leb 28 n && leb n 32)
    || n == 133
    || n == 160
    || n == 5760
    || (leb 8192 n && leb n 8202)
    || n == 8232
    || n == 8233
    || n == 8239
    || n == 8287
    || n == 12288

-- `not s.strip()`
unfoldable pub is_blank : String → Bool
is_blank empty_text = true
is_blank (c then_text s) = let rest = is_blank s in is_space (code c) && rest

-- `str(packet.uid).strip()` is empty; the text of a number is not.
abbrev pub is_blank_uid : Uid → Bool
is_blank_uid (text s) = is_blank s
is_blank_uid (number z) = false

abbrev pub is_negative : Option ℤ → Bool
is_negative none = false
is_negative (some (pos n)) = false
is_negative (some (negsuc n)) = true

-- The first second of 2020, and the last second that a datetime can hold.
abbrev pub year_2020 : ℕ
year_2020 = 1577836800

abbrev pub last_second : ℕ
last_second = 253402300799

-- Step 6. A time before 1970 is before 2020; one before the year 1 is no datetime.
abbrev pub check_time : DateTime → ℤ → Result DateTime
check_time now_utc (pos n) =
    raise_if (ltb last_second n) value_error
    >> (raise_if (ltb (now_utc + secs 3600) (secs n)) (protocol_error "Timestamp is in the future")
        >> (raise_if (ltb n year_2020) (protocol_error "Timestamp is in the far past")
            >> ok (secs n)))
check_time now_utc (negsuc n) =
    raise_if (leb 62135596800 n) value_error >> err (protocol_error "Timestamp is in the far past")

-- `f"{x}"` of a value that may be `None`
abbrev pub int_text : (ℤ → String) → Option ℤ → String
int_text str_int none = "None"
int_text str_int (some z) = str_int z

module _ {F : Type 0} ⦃fl : Float F⦄ where
  open fl use {decimal, neg, le}

  abbrev pub is_outside : F → F → F → Bool
  is_outside low high x = lt x low || lt high x

  abbrev pub is_bad_heading : Option F → Bool
  is_bad_heading none = false
  is_bad_heading (some heading) = is_outside (decimal 0 1) (decimal 3600 1) heading

  abbrev pub float_text : Option F → String
  float_text none = "None"
  float_text (some x) = fl.str_float x

  unfoldable pub validate_telemetry_packet : DateTime → VtsPacket F → Result DateTime
  validate_telemetry_packet now_utc packet =
      let (lat, lon) = packet.gps.loc in
      raise_if (is_blank_uid packet.uid) (protocol_error "Device UID must not be empty.")
      >> (raise_if (is_negative packet.info.msgid) (
            protocol_error (
              concat "Message ID must be non-negative. Received: "
                (int_text fl.str_int packet.info.msgid)))
          >> (raise_if (is_outside (neg (decimal 900 1)) (decimal 900 1) lat) (
                protocol_error
                  (concat "Latitude must be between -90 and 90. Received: " (fl.str_float lat)))
              >> (raise_if (is_outside (neg (decimal 1800 1)) (decimal 1800 1) lon) (
                    protocol_error (
                      concat "Longitude must be between -180 and 180. Received: "
                        (fl.str_float lon)))
                  >> (raise_if (lt packet.gps.speed (decimal 0 1)) (
                        protocol_error (
                          concat "Vehicle speed cannot be negative. Received: "
                            (fl.str_float packet.gps.speed)))
                      >> (raise_if
                            (is_outside (neg (decimal 10000 1)) (decimal 100000 1) packet.gps.alt)
                            (protocol_error (
                              concat "Altitude out of bounds (-1000m to 10000m). Received: "
                                (fl.str_float packet.gps.alt)))
                          >> (raise_if (is_bad_heading packet.gps.dir) (
                                protocol_error (
                                  concat
                                    "Heading direction must be between 0 and 360 degrees. Received: "
                                    (float_text packet.gps.dir)))
                              >> check_time now_utc packet.info.dt))))))
