-- ===== src/Simulator/Border.antt =====
-- simulator/scootersim/geo.py against backend/app/geo.py: where the two tests of a zone agree.
use mad_devs_transport_shari.Prelude.{
  ◌+◌, ◌%◌, ◌≡◌, refl, Bool, true, false, not, List, [], ◌∷◌, bit, arith, if◌then◌else◌, ◌==◌,
}
use mad_devs_transport_shari.Geo.{
  Point, next_vertex, last_vertex, same_point, crosses, point_in_polygon,
}
use mad_devs_transport_shari.Geo.Edges.{edges, on_boundary, crossings, point_in_polygon_open}
use mad_devs_transport_shari.Simulator.{
  MathOps, Ring, vertices, cast_ray, point_in_polygon as sim_point_in_polygon,
}

module _ {F G : Type 0} (m : MathOps F G) (p : Point F) where
  cast_ray_parity :
      (first : Point F) (inside : Bool) (vs : List (Point F))
      → cast_ray m p first inside vs
        ≡ ((bit inside + crossings m.floats p (edges first vs)) % 2 == 1)
  unfolding cast_ray crossings edges
  cast_ray_parity first true [] = refl
  cast_ray_parity first false [] = refl
  cast_ray_parity first inside (a ∷ rest) = ground (
    arith,
    cast_ray_parity first
        (if crosses m.floats p a (next_vertex first rest) then not inside else inside) rest,
  )

  -- Of a ring that is not closed, the simulator's test and the backend's give the same answer for
  -- every point that lies on no edge.
  pub point_in_polygon-agrees :
      (ring : Ring F)
      → same_point m.floats ring.first (last_vertex ring.first ring.rest) ≡ false
      → on_boundary m.floats p (edges ring.first (vertices ring)) ≡ false
      → sim_point_in_polygon m p ring ≡ point_in_polygon m.floats p (vertices ring)
  unfolding sim_point_in_polygon
  point_in_polygon-agrees ring open_ring off = ground (
    arith,
    point_in_polygon_open m.floats p ring.first ring.rest open_ring,
    cast_ray_parity ring.first false (vertices ring),
  )
