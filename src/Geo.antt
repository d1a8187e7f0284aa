-- ===== src/Geo.antt =====
-- app/utils/geo.py: the great-circle distance in kilometres.
use welogical_vehicle_tracki.Float.{Float, Trig}

module _ {F : Type 0} ⦃fl : Float F⦄ ⦃tr : Trig F⦄ where
  open fl use {decimal, add, sub, mul, div}
  open tr use {radians, sin, cos, asin, sqrt}

  -- `x ** 2`
  abbrev square : F → F
  square x = mul x x

  unfoldable pub haversine_distance_km : F → F → F → F → F
  haversine_distance_km lat1 lon1 lat2 lon2 =
      let d_lat = radians (sub lat2 lat1) in
      let d_lon = radians (sub lon2 lon1) in
      let a = add (square (sin (div d_lat (decimal 20 1)))) (
        mul (mul (cos (radians lat1)) (cos (radians lat2)))
          (square (sin (div d_lon (decimal 20 1))))) in
      let c = mul (decimal 20 1) (asin (sqrt a)) in mul (decimal 63710 1) c
