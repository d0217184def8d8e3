-- ===== src/Simulator.antt =====
-- simulator/scootersim/geo.py: the geometry of the demo fleet. The functions of Python's `math` and
-- `random` modules and the operations on floats are parameters; `G` is the state of the generator.
pub mod Border
pub mod Fleet
pub mod Moves
pub mod Ready
pub mod Dispatch
pub mod Beats
pub mod Runner
pub mod NeverExits
pub mod Stays
use mad_devs_transport_shari.Prelude.{
  ℕ, zero, suc, Bool, true, false, not, List, [], ◌∷◌, length, ltb, if◌then◌else◌,
}
use mad_devs_transport_shari.Geo.{FloatOps, Point, next_vertex, crosses}

pub record MathOps (F G : Type 0) : Type 0 where
  pub floats : FloatOps F
  -- an int used as a float
  pub number : ℕ → F
  -- `x ** 2`, and the functions of `math`
  pub square : F → F
  pub sqrt : F → F
  pub sin : F → F
  pub cos : F → F
  pub asin : F → F
  pub radians : F → F
  pub earth_radius_km : F
  -- `rng.uniform(a, b)`
  pub uniform : F → F → G → F × G
  -- `rng.sample(population, k)` of the positions of the population
  pub sample : List ℕ → ℕ → G → List ℕ × G

pub record BBox (F : Type 0) : Type 0 where
  pub min_lat : F
  pub max_lat : F
  pub min_lon : F
  pub max_lon : F

-- A polygon with a vertex at least: the fleet keeps only rings of three or more points.
pub record Ring (F : Type 0) : Type 0 where
  pub first : Point F
  pub rest : List (Point F)

abbrev pub vertices : {F : Type 0} → Ring F → List (Point F)
vertices ring = ring.first ∷ ring.rest

module _ {F G : Type 0} (m : MathOps F G) where
  unfoldable pub haversine_km : Point F → Point F → F
  haversine_km p q =
      let fl = m.floats in
      let phi1 = m.radians p.lat in
      let phi2 = m.radians q.lat in
      let d_phi = m.radians (fl.sub q.lat p.lat) in
      let d_lambda = m.radians (fl.sub q.lon p.lon) in
      let a = fl.add (m.square (m.sin (fl.div d_phi (m.number 2)))) (
        fl.mul (fl.mul (m.cos phi1) (m.cos phi2))
          (m.square (m.sin (fl.div d_lambda (m.number 2))))) in
      fl.mul (fl.mul (m.number 2) m.earth_radius_km) (m.asin (m.sqrt a))

  -- The new position, and whether the target was reached.
  unfoldable pub step_towards : Point F → Point F → F → Point F × Bool
  step_towards p target distance_km =
      let fl = m.floats in
      let remaining = haversine_km p target in
      let fraction = fl.div distance_km remaining in
      if fl.le remaining distance_km then (target, true) else (
        record {
          lat = fl.add p.lat (fl.mul (fl.sub target.lat p.lat) fraction);
          lon = fl.add p.lon (fl.mul (fl.sub target.lon p.lon) fraction);
        },
        false,
      )

  unfoldable pub random_point : BBox F → G → Point F × G
  random_point box rng =
      let (lat, rng1) = m.uniform box.min_lat box.max_lat rng in
      let (lon, rng2) = m.uniform box.min_lon box.max_lon rng1 in
      (record { lat = lat; lon = lon }, rng2)

  unfoldable pub inner_box : BBox F → F → BBox F
  inner_box box share =
      let fl = m.floats in
      let d_lat = fl.mul (fl.sub box.max_lat box.min_lat) share in
      let d_lon = fl.mul (fl.sub box.max_lon box.min_lon) share in
      record {
        min_lat = fl.add box.min_lat d_lat;
        max_lat = fl.sub box.max_lat d_lat;
        min_lon = fl.add box.min_lon d_lon;
        max_lon = fl.sub box.max_lon d_lon;
      }

  -- The loop over the vertices: the parity of the edges that the ray crosses.
  unfoldable pub cast_ray : Point F → Point F → Bool → List (Point F) → Bool
  cast_ray p first inside [] = inside
  cast_ray p first inside (a ∷ rest) =
      cast_ray p first
        (if crosses m.floats p a (next_vertex first rest) then not inside else inside) rest

  unfoldable pub point_in_polygon : Point F → Ring F → Bool
  point_in_polygon p ring =
      if ltb (length (vertices ring)) 3 then false else cast_ray p ring.first false (vertices ring)

  -- `min` and `max` of the coordinates, as Python's builtins compare.
  unfoldable pub stretch : BBox F → List (Point F) → BBox F
  stretch box [] = box
  stretch box (p ∷ rest) =
      let lt = m.floats.lt in
      stretch
        (record {
          min_lat = if lt p.lat box.min_lat then p.lat else box.min_lat;
          max_lat = if lt box.max_lat p.lat then p.lat else box.max_lat;
          min_lon = if lt p.lon box.min_lon then p.lon else box.min_lon;
          max_lon = if lt box.max_lon p.lon then p.lon else box.max_lon;
        })
        rest

  unfoldable pub polygon_bbox : Ring F → BBox F
  polygon_bbox ring =
      let p = ring.first in
      stretch (record { min_lat = p.lat; max_lat = p.lat; min_lon = p.lon; max_lon = p.lon })
        ring.rest

  -- `sum(...)` of a coordinate, from 0
  unfoldable pub sum_by : (Point F → F) → F → List (Point F) → F
  sum_by coordinate acc [] = acc
  sum_by coordinate acc (p ∷ rest) = sum_by coordinate (m.floats.add acc (coordinate p)) rest

  abbrev pub centroid : Ring F → Point F
  centroid ring =
      let count = m.number (length (vertices ring)) in
      record {
        lat = m.floats.div (sum_by (λ p. p.lat) (m.number 0) (vertices ring)) count;
        lon = m.floats.div (sum_by (λ p. p.lon) (m.number 0) (vertices ring)) count;
      }

  -- The loop of rejection sampling, with the tries that are left.
  unfoldable pub try_points : BBox F → Ring F → ℕ → G → Point F × G
  try_points box ring zero rng = (centroid ring, rng)
  try_points box ring (suc tries) rng =
      let (point, rng') = random_point box rng in
      let rest = try_points box ring tries rng' in
      if point_in_polygon point ring then (point, rng') else rest

  unfoldable pub random_point_in_polygon : Ring F → ℕ → G → Point F × G
  random_point_in_polygon ring tries rng = try_points (polygon_bbox ring) ring tries rng

abbrev pub bbox_polygon : {F : Type 0} → BBox F → Ring F
bbox_polygon box = record {
  first = record { lat = box.min_lat; lon = box.min_lon };
  rest =
      record { lat = box.min_lat; lon = box.max_lon }
      ∷ record { lat = box.max_lat; lon = box.max_lon }
      ∷ record { lat = box.max_lat; lon = box.min_lon }
      ∷ [];
}
