-- ===== src/Geo/Vertices.antt =====
-- backend/app/geo.py: the vertices of a zone, on finite coordinates.
use mad_devs_transport_shari.Prelude.{
  ◌≡◌, ap, ◌∙◌, true, false, List, [], ◌∷◌, ◌++◌, length, leb, arith,
}
use mad_devs_transport_shari.Geo.{
  FloatOps, Point, next_vertex, last_vertex, same_point, on_segment, point_in_polygon,
}
use mad_devs_transport_shari.Geo.Edges.{edges, on_boundary, point_in_polygon_open}

-- What IEEE 754 gives for finite numbers: `<` implies `<=`, `<=` is reflexive, and the difference
-- of two products with a factor x - x is zero (of either sign), which is not above the tolerance.
pub record FiniteLaws {F : Type 0} (fl : FloatOps F) : Type 0 where
  pub le_of_lt : (a b : F) → fl.lt a b ≡ true → fl.le a b ≡ true
  pub le_self : (a : F) → fl.le a a ≡ true
  pub no_area :
      (x y a b : F)
      → fl.lt fl.boundary_eps
          (fl.magnitude (fl.sub (fl.mul x (fl.sub a a)) (fl.mul y (fl.sub b b))))
        ≡ false

module _ {F : Type 0} (fl : FloatOps F) (laws : FiniteLaws fl) where
  on_segment-start : (a b : Point F) → on_segment fl a a b ≡ true
  unfolding on_segment
  on_segment-start a b = ground (
    arith,
    laws.no_area (fl.sub b.lat a.lat) (fl.sub b.lon a.lon) a.lon a.lat,
    laws.le_of_lt b.lat a.lat,
    laws.le_of_lt a.lat b.lat,
    laws.le_of_lt b.lon a.lon,
    laws.le_of_lt a.lon b.lon,
    laws.le_self a.lat,
    laws.le_self a.lon,
  )

  on_boundary-vertex :
      (p first : Point F) (xs ys : List (Point F))
      → on_boundary fl p (edges first (xs ++ p ∷ ys)) ≡ true
  unfolding on_boundary edges
  on_boundary-vertex p first [] ys = rw (on_segment-start p (next_vertex first ys))
  on_boundary-vertex p first (x ∷ xs) ys = ground (arith, on_boundary-vertex p first xs ys)

  -- On finite coordinates every vertex of a ring of at least three vertices that is not closed
  -- counts as inside.
  pub point_in_polygon_vertex :
      (p first : Point F) (rest xs ys : List (Point F))
      → first ∷ rest ≡ xs ++ p ∷ ys
      → leb 3 (length (first ∷ rest)) ≡ true
      → same_point fl first (last_vertex first rest) ≡ false
      → point_in_polygon fl p (first ∷ rest) ≡ true
  point_in_polygon_vertex p first rest xs ys split three open_ring =
      let edge =
        ap (λ vs. on_boundary fl p (edges first vs)) split ∙ on_boundary-vertex p first xs ys in
      ground (arith, point_in_polygon_open fl p first rest open_ring, edge)
