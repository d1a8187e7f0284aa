-- ===== src/Command/Tests.antt =====
-- The requests of app/routers/device_command.py on one queued command.
use welogical_vehicle_tracki.Common.{none, some, [], ◌∷◌, arith, ℤ}
use welogical_vehicle_tracki.Models.{DeviceCommand, empty_database}
use welogical_vehicle_tracki.Settings.{secs}
use welogical_vehicle_tracki.Command.{State, CreateCommandBody, new_command, delete_command}
use welogical_vehicle_tracki.Command.Laws.{
  Request, complete, change, perform, IsNumbered, Outcome, perform-Outcome, delete_command-Outcome,
}

abbrev queued : DeviceCommand
queued = new_command 1 7 "Restart Device" none (secs 5)

abbrev one_queued : State ℤ
one_queued = record {
  db = record (empty_database ℤ) { commands = record { rows = queued ∷ []; next_id = 2 } };
  sent = [];
}

one_queued-IsNumbered : IsNumbered one_queued
one_queued-IsNumbered = (omega arith, tt)

abbrev completion : Request
completion = complete none (some "done") (secs 9)

perform-Outcome_example :
    Outcome 1 (λ c. some (change completion c)) one_queued (perform completion 1 one_queued)
perform-Outcome_example = perform-Outcome completion 1 one_queued one_queued-IsNumbered

delete_command-Outcome_example : Outcome 1 (λ _. none) one_queued (delete_command 1 one_queued)
delete_command-Outcome_example = delete_command-Outcome 1 one_queued one_queued-IsNumbered

-- A body in the legacy names.
abbrev legacy_body : CreateCommandBody
legacy_body = record {
  vehicle_id = 7;
  command_type = none;
  payload = none;
  command_name = some "RESUME";
  command_value = some "30";
}
