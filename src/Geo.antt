-- ===== src/Geo.antt =====
-- backend/app/geo.py: the planar point-in-polygon test of the service zones.
-- Floats are not modelled: the type and the operations that the code calls are the parameter
-- `FloatOps`. `min`, `max` of two floats are written out by `<`, as Python's builtins compare.
pub mod Edges
pub mod Vertices
use mad_devs_transport_shari.Prelude.{
  Bool, true, false, not, ◌&&◌, ◌||◌, List, [], ◌∷◌, length, leb, ltb, if◌then◌else◌,
}

pub record FloatOps (F : Type 0) : Type 0 where
  pub add : F → F → F
  pub sub : F → F → F
  pub mul : F → F → F
  pub div : F → F → F
  pub magnitude : F → F
  -- `<`, `<=`, `==`
  pub lt : F → F → Bool
  pub le : F → F → Bool
  pub eq : F → F → Bool
  -- BOUNDARY_EPS
  pub boundary_eps : F

pub record Point (F : Type 0) : Type 0 where
  pub lat : F
  pub lon : F

module _ {F : Type 0} where
  -- The next vertex of the ring: `vertices[(index + 1) % len(vertices)]`.
  abbrev pub next_vertex : Point F → List (Point F) → Point F
  next_vertex first [] = first
  next_vertex first (b ∷ rest) = b

  abbrev pub last_vertex : Point F → List (Point F) → Point F
  last_vertex a [] = a
  last_vertex a (b ∷ rest) = last_vertex b rest

  -- `vertices.pop()`
  abbrev pub drop_last : Point F → List (Point F) → List (Point F)
  drop_last a [] = []
  drop_last a (b ∷ rest) = a ∷ drop_last b rest

module _ {F : Type 0} (fl : FloatOps F) where
  abbrev pub same_point : Point F → Point F → Bool
  same_point a b = fl.eq a.lat b.lat && fl.eq a.lon b.lon

  abbrev pub min_of : F → F → F
  min_of a b = if fl.lt b a then b else a

  abbrev pub max_of : F → F → F
  max_of a b = if fl.lt a b then b else a

  unfoldable pub on_segment : Point F → Point F → Point F → Bool
  on_segment p a b =
      let cross =
        fl.sub (fl.mul (fl.sub b.lat a.lat) (fl.sub p.lon a.lon))
          (fl.mul (fl.sub b.lon a.lon) (fl.sub p.lat a.lat)) in
      if fl.lt fl.boundary_eps (fl.magnitude cross)
      then false
      else (fl.le (min_of a.lat b.lat) p.lat && fl.le p.lat (max_of a.lat b.lat))
        && (fl.le (min_of a.lon b.lon) p.lon && fl.le p.lon (max_of a.lon b.lon))

  -- `a != b` on two Booleans
  abbrev pub differ : Bool → Bool → Bool
  differ true b = not b
  differ false b = b

  -- Does the ray along +lat cross the edge?
  unfoldable pub crosses : Point F → Point F → Point F → Bool
  crosses p a b =
      if differ (fl.lt p.lon a.lon) (fl.lt p.lon b.lon)
      then fl.lt p.lat (
          fl.add a.lat
            (fl.div (fl.mul (fl.sub p.lon a.lon) (fl.sub b.lat a.lat)) (fl.sub b.lon a.lon)))
      else false

  -- The loop over the vertices, from the vertex list that is left.
  unfoldable pub cast_ray : Point F → Point F → Bool → List (Point F) → Bool
  cast_ray p first inside [] = inside
  cast_ray p first inside (a ∷ rest) =
      let b = next_vertex first rest in
      let left = cast_ray p first (if crosses p a b then not inside else inside) rest in
      if on_segment p a b then true else left

  unfoldable pub in_ring : Point F → List (Point F) → Bool
  in_ring p [] = false
  in_ring p (first ∷ rest) =
      if ltb (length (first ∷ rest)) 3 then false else cast_ray p first false (first ∷ rest)

  unfoldable pub point_in_polygon : Point F → List (Point F) → Bool
  unfolding in_ring
  point_in_polygon p [] = in_ring p []
  point_in_polygon p (first ∷ rest) = in_ring p (
      if leb 2 (length (first ∷ rest)) && same_point first (last_vertex first rest)
      then drop_last first rest
      else first ∷ rest)

  -- `any(point_in_polygon(position, zone) for zone in zones)`
  unfoldable pub in_any_zone : Point F → List (List (Point F)) → Bool
  in_any_zone p [] = false
  in_any_zone p (zone ∷ zones) = point_in_polygon p zone || in_any_zone p zones
