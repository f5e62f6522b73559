-- ===== src/Control/Util.antt =====
-- `norm_angle`, `GPSDistance`, `GPSLatLonScale` and `Sign` of control/util.cc and control/util.h,
-- over the floating point operations.
use boat.Prelude.{if◌then◌else◌}
use boat.Prelude.Int.{ℤ, pos, negsuc}
use boat.Prelude.Floats.{Floats}

module _ (fl : Floats) where
  open fl use {
    F, add, sub, mul, div, neg, lt, trunc, of_int, literal, pi, sqrt, cos, sin, pow, atan2,
  }

  pub norm_angle : F → F
  norm_angle a =
      let tau = mul (literal 2 1) pi in
      if lt pi a
      then sub a (mul (of_int (trunc (add (div a tau) (literal 1 2)))) tau)
      else if lt a (neg pi)
      then sub a (mul (of_int (trunc (sub (div a tau) (literal 1 2)))) tau)
      else a

  pub gps_distance_rad : F → F → F → F → F
  gps_distance_rad lat1 lon1 lat2 lon2 =
      let half = λ (a : F). pow (sin (div a (literal 2 1))) (literal 2 1) in
      let a = add (half (sub lat2 lat1)) (mul (mul (cos lat1) (cos lat2)) (half (sub lon2 lon1))) in
      let c = mul (literal 2 1) (atan2 (sqrt a) (sqrt (sub (literal 1 1) a))) in
      mul (literal 6371000 1) c

  pub gps_distance : F → F → F → F → F
  unfolding gps_distance_rad
  gps_distance lat1 lon1 lat2 lon2 =
      let rad = λ (a : F). div (mul a pi) (literal 180 1) in
      gps_distance_rad (rad lat1) (rad lon1) (rad lat2) (rad lon2)

  -- Metres for a degree of latitude and of longitude.
  pub gps_lat_lon_scale : F → F × F
  gps_lat_lon_scale lat =
      let clat = cos (div (mul lat pi) (literal 180 1)) in
      let clat2 = mul clat clat in
      let squash = literal 67394967565868823004 10000000000000000000000 in
      let denom = sqrt (add (literal 1 1) (mul squash clat2)) in
      let metres = literal 11169397955992134774 100000000000000 in
      (div metres (mul (mul denom denom) denom), div (mul metres clat) denom)

  pub sign : F → ℤ
  sign val =
      if lt (literal 0 1) val
      then (if lt val (literal 0 1) then pos 0 else pos 1)
      else (if lt val (literal 0 1) then negsuc 0 else pos 0)
