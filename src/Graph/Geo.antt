-- ===== src/Graph/Geo.antt =====
-- engine/internal/graph/geo.go: great-circle distance in meters.
use convergent_routing_analy.Float.{
  Float64, Float, of_nat, add, sub, mul, div, pi, sin, cos, sqrt, atan2,
}
use convergent_routing_analy.Domain.{LatLon}

module _ ⦃f : Float64⦄ where
  abbrev pub earth_radius_m : Float
  earth_radius_m = of_nat 6371000

  unfoldable pub deg_to_rad : Float → Float
  deg_to_rad deg = div (mul deg pi) (of_nat 180)

  unfoldable pub haversine : LatLon → LatLon → Float
  unfolding deg_to_rad
  haversine a b =
      let lat1 = deg_to_rad a.lat in
      let lat2 = deg_to_rad b.lat in
      let sin_lat = sin (div (deg_to_rad (sub b.lat a.lat)) (of_nat 2)) in
      let sin_lon = sin (div (deg_to_rad (sub b.lon a.lon)) (of_nat 2)) in
      let value =
        add (mul sin_lat sin_lat) (mul (mul (mul (cos lat1) (cos lat2)) sin_lon) sin_lon) in
      mul earth_radius_m (mul (of_nat 2) (atan2 (sqrt value) (sqrt (sub (of_nat 1) value))))

  unfoldable pub great_circle_m : LatLon → LatLon → Float
  unfolding haversine
  great_circle_m = haversine
