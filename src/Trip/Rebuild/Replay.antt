-- ===== src/Trip/Rebuild/Replay.antt =====
-- The loop of `rebuild_vehicle_trips` (app/services/trip_engine.py) keeps its session open: sound trips,
-- in order of time, and everything else as it was.
use welogical_vehicle_tracki.Common.{ℕ, ◌≡◌, List, [], ◌∷◌, subst, >>=-eq-ok, ok, SortedFrom}
use welogical_vehicle_tracki.Float.{Float, Trig}
use welogical_vehicle_tracki.Models.{DateTime, Location}
use welogical_vehicle_tracki.Settings.{Settings}
use welogical_vehicle_tracki.Trip.Frame.{Frame, Frame-refl, Frame-trans}
use welogical_vehicle_tracki.Trip.Session.{Session, evaluate_in}
use welogical_vehicle_tracki.Trip.Open.{IsOpen}
use welogical_vehicle_tracki.Trip.Carried.{evaluate_in-Carries}
use welogical_vehicle_tracki.Trip.Rebuild.{replay, location_ignition}

module _ {F : Type 0} where
  -- What a replay that ends well has kept and made.
  pub record IsReplayed (v : ℕ) (s s' : Session F) : Type 0 where
    pub until : DateTime
    pub kept : IsOpen v until s'
    pub frame : Frame v s.stored s'.stored

module _ {F : Type 0} ⦃fl : Float F⦄ ⦃tr : Trig F⦄ (cfg : Settings F) where
  pub replay-IsReplayed :
      (v : ℕ) (limit : F) (locs : List (Location F)) (now : DateTime) (s s' : Session F)
      → SortedFrom (λ (l : Location F). l.timestamp) now locs
      → IsOpen v now s
      → replay cfg v limit locs s ≡ ok s'
      → IsReplayed v s s'
  unfolding replay
  replay-IsReplayed v limit [] now s s' sorted o e =
      let same : s ≡ s' = cc in
      subst (IsReplayed v s) same (record { until = now; kept = o; frame = Frame-refl v s.stored })
  replay-IsReplayed v limit (loc ∷ locs) now s s' sorted o e =
      let (ign, _, rest) = >>=-eq-ok (location_ignition loc.extra_data) _ s' e in
      let at = loc.timestamp in
      let step = evaluate_in cfg s v loc.latitude loc.longitude loc.speed at ign limit in
      let (kept, frame) =
        evaluate_in-Carries cfg v at now sorted.0 s loc.latitude loc.longitude loc.speed ign limit
          o in
      let r = replay-IsReplayed v limit locs at step s' sorted.1 kept rest in
      record {
        until = r.until;
        kept = r.kept;
        frame = Frame-trans v s.stored step.stored s'.stored frame r.frame;
      }
