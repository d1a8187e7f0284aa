-- ===== src/Command/Rows.antt =====
-- The rows and the bodies of the requests of app/routers/device_command.py, and what each request
-- writes to a row.
use welogical_vehicle_tracki.Common.{
  ℕ, String, Bool, Option, none, some, ◌==◌, str_eq, if◌then◌else◌, value_or, Result, ok, err,
  http_exception, value_error,
}
use welogical_vehicle_tracki.Models.{DateTime, DeviceCommand}

-- A message on the "commands" channel; `detail` is its response or its error message.
pub record Message : Type 0 where
  pub event : String
  pub command_id : ℕ
  pub vehicle_id : ℕ
  pub command_type : Option String
  pub status : String
  pub detail : Option String

pub record CreateCommandBody : Type 0 where
  pub vehicle_id : ℕ
  pub command_type : Option String
  pub payload : Option String
  pub command_name : Option String
  pub command_value : Option String

-- `a or b`, where the empty string is false
abbrev pub or_else : Option String → Option String → Option String
or_else none b = b
or_else (some a) b = if str_eq a "" then b else some a

abbrev pub resolved : Option String → Result String
resolved none = err value_error
resolved (some text) = if str_eq text "" then err value_error else ok text

abbrev pub resolved_command_type : CreateCommandBody → Result String
resolved_command_type body = resolved (or_else body.command_type body.command_name)

abbrev pub resolved_payload : CreateCommandBody → Option String
resolved_payload body = or_else body.payload body.command_value

abbrev pub is_command : ℕ → DeviceCommand → Bool
is_command command_id c = c.id == command_id

abbrev pub required : Option DeviceCommand → Result DeviceCommand
required none = err (http_exception 404 "Command not found.")
required (some c) = ok c

abbrev pub new_command : ℕ → ℕ → String → Option String → DateTime → DeviceCommand
new_command id vehicle_id command_type payload now = record {
  id = id;
  vehicle_id = vehicle_id;
  command_type = command_type;
  payload = payload;
  status = "Queued";
  created_at = now;
  sent_at = none;
  acknowledged_at = none;
  completed_at = none;
  response = none;
  error_message = none;
}

abbrev pub created_message : DeviceCommand → Message
created_message c = record {
  event = "command_created";
  command_id = c.id;
  vehicle_id = c.vehicle_id;
  command_type = some c.command_type;
  status = c.status;
  detail = none;
}

abbrev pub cancelled : DeviceCommand → DeviceCommand
cancelled c = record c { status = "Cancelled" }

abbrev pub acknowledged : DateTime → DeviceCommand → DeviceCommand
acknowledged now c = record c { status = "Acknowledged"; acknowledged_at = some now }

-- `body.response or response_qs or "Execution success"`
abbrev pub response_of : Option String → Option String → String
response_of body_response response_qs =
    value_or "Execution success" (or_else body_response (or_else response_qs none))

abbrev pub finished : DateTime → String → DeviceCommand → DeviceCommand
finished now response c = record c {
  status = "Completed";
  completed_at = some now;
  response = some response;
}

-- `(body.error if body else None) or error_qs or "Unknown failure"`
abbrev pub error_of : Option String → Option String → String
error_of body_error error_qs =
    value_or "Unknown failure" (or_else body_error (or_else error_qs none))

abbrev pub failed : String → DeviceCommand → DeviceCommand
failed message c = record c { status = "Failed"; error_message = some message }
