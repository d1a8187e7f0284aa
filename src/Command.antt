-- ===== src/Command.antt =====
-- app/routers/device_command.py: the requests on device commands. The state is the database and the
-- messages broadcast so far. A time stamp is an argument; the serialised answer is the row.
mod Rows
mod Lookup
unfoldable pub use Rows.*
pub mod Laws
mod Tests
use welogical_vehicle_tracki.Common.{
  ℕ, String, Bool, true, false, not, Option, none, some, List, [], ◌∷◌, ◌++◌, ◌==◌, str_eq,
  if◌then◌else◌, value_or, find?, select, update_first, Result, ok, err, ◌>>=◌, http_exception,
  value_error,
}
use welogical_vehicle_tracki.Models.{DateTime, DeviceCommand, CommandLog, Database, insert}

pub record State (F : Type 0) : Type 0 where
  pub db : Database F
  pub sent : List Message

module _ {F : Type 0} where
  unfoldable pub get_command_by_id : ℕ → State F → Result DeviceCommand
  get_command_by_id command_id s = required (find? (is_command command_id) s.db.commands.rows)

  -- Commit a change of one command, and broadcast a message.
  abbrev pub commit : ℕ → (DeviceCommand → DeviceCommand) → Message → State F → State F
  commit command_id change message s = record {
    db = record (s.db) {
      commands = record (s.db.commands) {
        rows = update_first (is_command command_id) change s.db.commands.rows;
      };
    };
    sent = s.sent ++ (message ∷ []);
  }

  -- Store a queued command, and broadcast it.
  abbrev pub queue : ℕ → String → Option String → DateTime → State F → DeviceCommand × State F
  queue vehicle_id command_type payload now s =
      let c = new_command s.db.commands.next_id vehicle_id command_type payload now in
      (
        c,
        record {
          db = record (s.db) { commands = insert c s.db.commands };
          sent = s.sent ++ (created_message c ∷ []);
        },
      )

  unfoldable pub create_command :
      CreateCommandBody → DateTime → State F → Result (DeviceCommand × State F)
  create_command body now s = resolved_command_type body >>= λ cmd_type.
      ok (queue body.vehicle_id cmd_type (resolved_payload body) now s)

  abbrev pub restart_vehicle_device : ℕ → DateTime → State F → DeviceCommand × State F
  restart_vehicle_device vehicle_id now s = queue vehicle_id "Restart Device" none now s

  abbrev pub immobilize_vehicle : ℕ → DateTime → State F → DeviceCommand × State F
  immobilize_vehicle vehicle_id now s = queue vehicle_id "Immobilize Vehicle" none now s

  abbrev pub restore_vehicle : ℕ → DateTime → State F → DeviceCommand × State F
  restore_vehicle vehicle_id now s = queue vehicle_id "Restore Vehicle" none now s

  unfoldable pub cancel_command : ℕ → State F → Result (State F)
  unfolding get_command_by_id
  cancel_command command_id s = get_command_by_id command_id s >>= λ c. ok (
      commit command_id cancelled
        (record {
          event = "command_failed";
          command_id = c.id;
          vehicle_id = c.vehicle_id;
          command_type = some c.command_type;
          status = "Cancelled";
          detail = some "Command cancelled by dispatcher";
        })
        s)

  -- The audit log of a command is deleted with it.
  abbrev pub without : ℕ → State F → State F
  without command_id s = record s {
    db = record (s.db) {
      commands = record (s.db.commands) {
        rows = select (λ (x : DeviceCommand). not (x.id == command_id)) s.db.commands.rows;
      };
      command_logs = record (s.db.command_logs) {
        rows = select (λ (l : CommandLog). not (l.command_id == command_id)) s.db.command_logs.rows;
      };
    };
  }

  unfoldable pub delete_command : ℕ → State F → Result (State F)
  unfolding get_command_by_id
  delete_command command_id s = get_command_by_id command_id s >>= λ c. ok (without command_id s)

  unfoldable pub acknowledge_command_state : ℕ → DateTime → State F → Result (State F)
  unfolding get_command_by_id
  acknowledge_command_state command_id now s = get_command_by_id command_id s >>= λ c. ok (
      commit command_id (acknowledged now)
        (record {
          event = "command_ack";
          command_id = c.id;
          vehicle_id = c.vehicle_id;
          command_type = none;
          status = "Acknowledged";
          detail = none;
        })
        s)

  unfoldable pub complete_command_state :
      ℕ → Option String → Option String → DateTime → State F → Result (State F)
  unfolding get_command_by_id
  complete_command_state command_id body_response response_qs now s =
      get_command_by_id command_id s >>= λ c. ok (
        commit command_id (finished now (response_of body_response response_qs))
          (record {
            event = "command_completed";
            command_id = c.id;
            vehicle_id = c.vehicle_id;
            command_type = none;
            status = "Completed";
            detail = some (response_of body_response response_qs);
          })
          s)

  unfoldable pub fail_command_state : ℕ → Option String → Option String → State F → Result (State F)
  unfolding get_command_by_id
  fail_command_state command_id body_error error_qs s = get_command_by_id command_id s >>= λ c. ok (
      commit command_id (failed (error_of body_error error_qs))
        (record {
          event = "command_failed";
          command_id = c.id;
          vehicle_id = c.vehicle_id;
          command_type = none;
          status = "Failed";
          detail = some (error_of body_error error_qs);
        })
        s)
