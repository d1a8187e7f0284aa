-- ===== src/Command/Lookup.antt =====
-- Looking up a command by its id in the changed table of app/routers/device_command.py.
use welogical_vehicle_tracki.Common.{
  ℕ, ◌<◌, ◌≡◌, not, none, some, List, [], ◌∷◌, ◌++◌, arith, ◌==◌, if◌then◌else◌, find?, select,
  update_first, All,
}
use welogical_vehicle_tracki.Models.{DeviceCommand}
use welogical_vehicle_tracki.Command.Rows.{is_command}

module _ (k : ℕ) (f : DeviceCommand → DeviceCommand)
    (same : (c : DeviceCommand) → (f c).id ≡ c.id) where
  pub find-update :
      (rows : List DeviceCommand) (c : DeviceCommand) (j : ℕ)
      → find? (is_command k) rows ≡ some c
      → find? (is_command j) (update_first (is_command k) f rows)
        ≡ (if j == k then some (f c) else find? (is_command j) rows)
  find-update [] c j e = cc
  find-update (x ∷ xs) c j e = ground (arith, find-update xs c j, same x)

pub find-delete :
    (k : ℕ) (rows : List DeviceCommand) (j : ℕ)
    → find? (is_command j) (select (λ (x : DeviceCommand). not (x.id == k)) rows)
      ≡ (if j == k then none else find? (is_command j) rows)
find-delete k [] j = ground arith
find-delete k (x ∷ xs) j = ground (arith, find-delete k xs j)

-- A new id is above all ids.
pub find-insert :
    (rows : List DeviceCommand) (c : DeviceCommand) (j : ℕ)
    → All (λ (x : DeviceCommand). x.id < c.id) rows
    → find? (is_command j) (rows ++ (c ∷ []))
      ≡ (if j == c.id then some c else find? (is_command j) rows)
find-insert [] c j h = ground arith
find-insert (x ∷ xs) c j h = ground (arith, find-insert xs c j h.1)
