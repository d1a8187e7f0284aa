-- ===== src/Command/Laws.antt =====
-- The requests of app/routers/device_command.py as operations on a finite map from ids to commands.
use welogical_vehicle_tracki.Common.{
  ℕ, ◌<◌, ◌≡◌, refl, inl, inr, String, Option, none, some, ◌==◌, if◌then◌else◌, find?,
  update_first-All, All, All-select, Option-cases, Result, ok, err, http_exception,
}
use welogical_vehicle_tracki.Models.{DateTime, DeviceCommand}
use welogical_vehicle_tracki.Command.{
  State, Message, without, is_command, commit, get_command_by_id, cancelled, cancel_command,
  delete_command, acknowledged, acknowledge_command_state, response_of, finished,
  complete_command_state, error_of, failed, fail_command_state,
}
use welogical_vehicle_tracki.Command.Lookup.{find-update, find-delete}

-- The requests that change the state of a command.
pub data Request : Type 0 where
  cancel : Request
  acknowledge : DateTime → Request
  complete : Option String → Option String → DateTime → Request
  fail : Option String → Option String → Request

abbrev pub change : Request → DeviceCommand → DeviceCommand
change cancel = cancelled
change (acknowledge now) = acknowledged now
change (complete body_response response_qs now) =
    finished now (response_of body_response response_qs)
change (fail body_error error_qs) = failed (error_of body_error error_qs)

change_id : (q : Request) (c : DeviceCommand) → (change q c).id ≡ c.id
change_id cancel c = refl
change_id (acknowledge now) c = refl
change_id (complete _ _ now) c = refl
change_id (fail _ _) c = refl

module _ {F : Type 0} where
  abbrev pub lookup : State F → ℕ → Option DeviceCommand
  lookup s j = find? (is_command j) s.db.commands.rows

  -- Every id has been handed out.
  abbrev pub IsNumbered : State F → Type 0
  IsNumbered s = All (λ (c : DeviceCommand). c.id < s.db.commands.next_id) s.db.commands.rows

  abbrev pub perform : Request → ℕ → State F → Result (State F)
  perform cancel k s = cancel_command k s
  perform (acknowledge now) k s = acknowledge_command_state k now s
  perform (complete body_response response_qs now) k s =
      complete_command_state k body_response response_qs now s
  perform (fail body_error error_qs) k s = fail_command_state k body_error error_qs s

  -- `s'` has `entry` for `k`, the commands of `s` otherwise, and no table changed but the audit log.
  pub record IsWritten (k : ℕ) (entry : Option DeviceCommand) (s s' : State F) : Type 0 where
    pub lookups : (j : ℕ) → lookup s' j ≡ (if j == k then entry else lookup s j)
    pub numbered : IsNumbered s'
    pub tables :
        record (s'.db) { commands = s.db.commands; command_logs = s.db.command_logs } ≡ s.db

  -- The outcome of a request on `k`: an error if there is none, else what it writes.
  pub data Outcome (k : ℕ) (entry : DeviceCommand → Option DeviceCommand) (s : State F)
      (r : Result (State F)) : Type 0 where
    not_found :
        lookup s k ≡ none → r ≡ err (http_exception 404 "Command not found.") → Outcome k entry s r
    written :
        (c : DeviceCommand) (s' : State F)
        → lookup s k ≡ some c
        → r ≡ ok s'
        → IsWritten k (entry c) s s'
        → Outcome k entry s r

  commit-IsWritten :
      (q : Request) (k : ℕ) (c : DeviceCommand) (s : State F) (message : Message)
      → IsNumbered s
      → lookup s k ≡ some c
      → IsWritten k (some (change q c)) s (commit k (change q) message s)
  commit-IsWritten q k c s message h e = record {
    lookups = λ j. find-update k (change q) (change_id q) s.db.commands.rows c j e;
    numbered =
        update_first-All _ (is_command k) (change q) s.db.commands.rows
          (λ x p. rw (change_id q x) p) h;
    tables = refl;
  }

  perform_missing :
      (q : Request) (k : ℕ) (s : State F)
      → lookup s k ≡ none
      → perform q k s ≡ err (http_exception 404 "Command not found.")
  unfolding get_command_by_id cancel_command acknowledge_command_state complete_command_state
      fail_command_state
  perform_missing cancel k s e = rw e
  perform_missing (acknowledge now) k s e = rw e
  perform_missing (complete _ _ now) k s e = rw e
  perform_missing (fail _ _) k s e = rw e

  perform_found :
      (q : Request) (k : ℕ) (s : State F) (c : DeviceCommand)
      → lookup s k ≡ some c
      → (message : Message) × (perform q k s ≡ ok (commit k (change q) message s))
  unfolding get_command_by_id cancel_command acknowledge_command_state complete_command_state
      fail_command_state
  perform_found cancel k s c e = rw e (_, refl)
  perform_found (acknowledge now) k s c e = rw e (_, refl)
  perform_found (complete _ _ now) k s c e = rw e (_, refl)
  perform_found (fail _ _) k s c e = rw e (_, refl)

  -- When all ids are below the next one: a request on a command that is not there raises 404;
  -- otherwise it returns, writes what the request says to that command alone, whatever its status
  -- was, and leaves all other commands and all tables but the audit log as they were. All ids are
  -- below the next one again.
  pub perform-Outcome :
      (q : Request) (k : ℕ) (s : State F)
      → IsNumbered s
      → Outcome k (λ c. some (change q c)) s (perform q k s)
  perform-Outcome q k s h = elim (Option-cases (lookup s k)) [
    | inl e ↦ not_found e (perform_missing q k s e)
    | inr (c, e) ↦
        let (message, r) = perform_found q k s c e in
        written c (commit k (change q) message s) e r (commit-IsWritten q k c s message h e)
  ]

  -- When all ids are below the next one: deleting a command that is not there raises 404; otherwise
  -- it returns, the command is gone, and all other commands and all tables but the audit log are as
  -- they were. All ids are below the next one again.
  pub delete_command-Outcome :
      (k : ℕ) (s : State F) → IsNumbered s → Outcome k (λ _. none) s (delete_command k s)
  unfolding get_command_by_id delete_command
  delete_command-Outcome k s h = elim (Option-cases (lookup s k)) [
    | inl e ↦ not_found e (rw e)
    | inr (c, e) ↦ written c (without k s) e (rw e) record {
      lookups = find-delete k s.db.commands.rows;
      numbered = All-select _ _ s.db.commands.rows h;
      tables = refl;
    }
  ]
