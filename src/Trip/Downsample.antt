-- ===== src/Trip/Downsample.antt =====
-- `simple_skipping_downsampler` of app/services/trip_replay.py. For a total and a target below 2 ^ 52
-- `int(total / target_count)` is the whole quotient.
use welogical_vehicle_tracki.Common.{
  ℕ, zero, suc, ◌-◌, ◌*◌, ◌/◌, List, [], ◌∷◌, ◌++◌, leb, ◌==◌, if◌then◌else◌, length, ℤ, pos,
  negsuc, Result, ok, err, zero_division,
}
use welogical_vehicle_tracki.Models.{Location}

module _ {ℓ} {A : Type ℓ} where
  -- `points[::step]`, where the first `skip` points are passed over.
  unfoldable pub every : ℕ → ℕ → List A → List A
  every step skip [] = []
  every step zero (x ∷ xs) = x ∷ every step (step - 1) xs
  every step (suc skip) (x ∷ xs) = every step skip xs

  -- `points[-1]` of the points `x ∷ xs`
  unfoldable pub last_of : A → List A → A
  last_of x [] = x
  last_of x (y ∷ ys) = last_of y ys

-- `max(1, quotient * multiplier)`
abbrev pub step_of : ℕ → ℤ → ℕ
step_of quotient (pos m) = if leb (quotient * m) 1 then 1 else quotient * m
step_of quotient (negsuc m) = 1

module _ {F : Type 0} where
  -- Append the last point unless the last sampled point has its id; no sampled point is an index
  -- error, which does not occur.
  abbrev pub with_last : List (Location F) → Location F → List (Location F)
  with_last [] last = []
  with_last (x ∷ xs) last = if (last_of x xs).id == last.id then x ∷ xs else (x ∷ xs) ++ (last ∷ [])

  abbrev pub decimate : List (Location F) → ℕ → List (Location F)
  decimate [] step = []
  decimate (x ∷ xs) step = with_last (every step 0 (x ∷ xs)) (last_of x xs)

  unfoldable pub simple_skipping_downsampler :
      List (Location F) → ℕ → ℤ → Result (List (Location F))
  simple_skipping_downsampler points target_count multiplier =
      let total = length points in
      if leb total target_count
      then ok points
      else if target_count == 0
      then err zero_division
      else ok (decimate points (step_of (total / target_count) multiplier))
