-- ===== src/Trip/Score.antt =====
-- app/services/trip_scoring.py: the driving score of a trip. The penalties and the counts are
-- natural numbers; the score may become negative before it is bounded.
use native.Mathlib.Nat.{mul-le-mul_right}
use welogical_vehicle_tracki.Common.{
  ℕ, ◌+◌, ◌-◌, ◌*◌, ◌≤◌, ◌≡◌, ◌⊎◌, inl, inr, refl, false, arith, leb, if◌then◌else◌, ℤ, pos, negsuc,
  ltb_ℤ, Bool-cases,
}
use welogical_vehicle_tracki.Settings.{Settings}

-- `max(a, b)` and `min(a, b)`
abbrev max_ℤ : ℤ → ℤ → ℤ
max_ℤ a b = if ltb_ℤ a b then b else a

abbrev min_ℤ : ℤ → ℤ → ℤ
min_ℤ a b = if ltb_ℤ b a then b else a

-- `a - b`
abbrev minus : ℕ → ℕ → ℤ
minus a b = if leb b a then pos (a - b) else negsuc (b - a - 1)

-- `max(low, min(start, start - total))`
abbrev bounded : ℕ → ℕ → ℕ → ℤ
bounded low start total = max_ℤ (pos low) (min_ℤ (pos start) (minus start total))

-- The score that is `low` or, above it, what `total` leaves of `start`.
pub record IsScore (low start total : ℕ) (score : ℤ) : Type 0 where
  pub value : ℕ
  pub natural : score ≡ pos value
  pub above : low ≤ value
  pub below : value ≤ start
  pub exact : (value + total ≡ start) ⊎ ((value ≡ low) × (start ≤ low + total))

bounded-IsScore :
    (low start total : ℕ) → low ≤ start → IsScore low start total (bounded low start total)
bounded-IsScore low start total h = elim (Bool-cases (leb (low + total) start)) [
  | inl e ↦ record {
    value = start - total;
    natural = ground arith;
    above = ground arith;
    below = ground arith;
    exact = inl (ground arith);
  }
  | inr e ↦ record {
    value = low;
    natural = ground arith;
    above = ground arith;
    below = h;
    exact = inr (refl, ground arith);
  }
]

bounded_mono :
    (low start a b : ℕ) → a ≤ b → ltb_ℤ (bounded low start a) (bounded low start b) ≡ false
bounded_mono low start a b h = ground arith

module _ {F : Type 0} (cfg : Settings F) where
  abbrev total_penalty : ℕ → ℕ → ℕ → ℕ → ℕ
  total_penalty overspeeds idles brakings accelerations =
      overspeeds * cfg.driving_score_overspeed_penalty
      + idles * cfg.driving_score_idle_penalty
      + brakings * 5
      + accelerations * 5

  unfoldable pub calculate_driving_score : ℕ → ℕ → ℕ → ℕ → ℤ
  calculate_driving_score overspeeds idles brakings accelerations =
      bounded cfg.driving_score_min cfg.driving_score_start
        (total_penalty overspeeds idles brakings accelerations)

  -- When the least score is at most the first, the score lies between them; it is the first less the
  -- penalties, or the least where the penalties reach beyond it.
  pub calculate_driving_score-IsScore :
      (overspeeds idles brakings accelerations : ℕ)
      → cfg.driving_score_min ≤ cfg.driving_score_start
      → IsScore cfg.driving_score_min cfg.driving_score_start
          (total_penalty overspeeds idles brakings accelerations)
          (calculate_driving_score overspeeds idles brakings accelerations)
  unfolding calculate_driving_score
  calculate_driving_score-IsScore overspeeds idles brakings accelerations h =
      bounded-IsScore _ _ _ h

  -- More violations of any kind never give a higher score.
  pub calculate_driving_score_mono :
      (o o' i i' b b' a a' : ℕ)
      → o ≤ o'
      → i ≤ i'
      → b ≤ b'
      → a ≤ a'
      → ltb_ℤ (calculate_driving_score o i b a) (calculate_driving_score o' i' b' a') ≡ false
  unfolding calculate_driving_score
  calculate_driving_score_mono o o' i i' b b' a a' ho hi hb ha =
      bounded_mono cfg.driving_score_min cfg.driving_score_start (total_penalty o i b a)
        (total_penalty o' i' b' a')
        (omega (
          arith,
          mul-le-mul_right cfg.driving_score_overspeed_penalty ho,
          mul-le-mul_right cfg.driving_score_idle_penalty hi,
        ))
