-- ===== src/Settings.antt =====
-- The thresholds of app/config.py that the modelled code reads. They come from the environment, so
-- they are a parameter of the model; `defaults` are the values in the class.
use welogical_vehicle_tracki.Common.{ℕ, ◌*◌}
use welogical_vehicle_tracki.Float.{Float}

pub record Settings (F : Type 0) : Type 0 where
  pub trip_start_speed_threshold : F
  pub trip_end_timeout : ℕ
  pub trip_gap_timeout : ℕ
  pub default_speed_limit : F
  pub trip_stop_speed : F
  pub trip_stop_duration : ℕ
  pub driving_score_start : ℕ
  pub driving_score_overspeed_penalty : ℕ
  pub driving_score_idle_penalty : ℕ
  pub driving_score_min : ℕ

abbrev pub defaults : {F : Type 0} ⦃fl : Float F⦄ → Settings F
defaults ⦃fl⦄ = record {
  trip_start_speed_threshold = fl.decimal 50 1;
  trip_end_timeout = 300;
  trip_gap_timeout = 600;
  default_speed_limit = fl.decimal 800 1;
  trip_stop_speed = fl.decimal 30 1;
  trip_stop_duration = 120;
  driving_score_start = 100;
  driving_score_overspeed_penalty = 5;
  driving_score_idle_penalty = 2;
  driving_score_min = 0;
}

-- A whole number of seconds, in microseconds.
abbrev pub secs : ℕ → ℕ
secs n = n * 1000000
