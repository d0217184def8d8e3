-- ===== src/Geo/Edges.antt =====
-- backend/app/geo.py, `point_in_polygon`: the loop against the even-odd rule over the edges.
use mad_devs_transport_shari.Prelude.{
  ℕ, ◌+◌, ◌%◌, ◌≡◌, refl, ◌∙◌, Bool, true, false, not, ◌&&◌, ◌||◌, List, [], ◌∷◌, ◌++◌, length,
  length-append, leb, bit, arith, if◌then◌else◌, ◌==◌, ap, Bool-cases, inl, inr,
}
use mad_devs_transport_shari.Geo.{
  FloatOps, Point, next_vertex, last_vertex, drop_last, same_point, on_segment, crosses, cast_ray,
  in_ring, point_in_polygon,
}

module _ {F : Type 0} where
  -- The edges of a ring that begins at `first`.
  unfoldable pub edges : Point F → List (Point F) → List (Point F × Point F)
  edges first [] = []
  edges first (a ∷ rest) = (a, next_vertex first rest) ∷ edges first rest

module _ {F : Type 0} (fl : FloatOps F) (p : Point F) where
  unfoldable pub on_boundary : List (Point F × Point F) → Bool
  on_boundary [] = false
  on_boundary ((a, b) ∷ es) = on_segment fl p a b || on_boundary es

  unfoldable pub crossings : List (Point F × Point F) → ℕ
  crossings [] = 0
  crossings ((a, b) ∷ es) = bit (crosses fl p a b) + crossings es

  cast_ray-even_odd :
      (first : Point F) (inside : Bool) (vs : List (Point F))
      → cast_ray fl p first inside vs
        ≡ (on_boundary (edges first vs) || ((bit inside + crossings (edges first vs)) % 2 == 1))
  unfolding cast_ray on_boundary crossings edges
  cast_ray-even_odd first true [] = refl
  cast_ray-even_odd first false [] = refl
  cast_ray-even_odd first inside (a ∷ rest) = ground (
    arith,
    cast_ray-even_odd first (if crosses fl p a (next_vertex first rest) then not inside else inside)
        rest,
  )

  -- A ring without the repetition of its first vertex at the end.
  abbrev pub open_ring : List (Point F) → List (Point F)
  open_ring [] = []
  open_ring (first ∷ rest) =
      if same_point fl first (last_vertex first rest) then drop_last first rest else first ∷ rest

  abbrev pub edges_of : List (Point F) → List (Point F × Point F)
  edges_of [] = []
  edges_of (first ∷ rest) = edges first (first ∷ rest)

  -- The even-odd rule over the edges of a ring of at least three vertices.
  abbrev pub is_inside_by_rule : List (Point F) → Bool
  is_inside_by_rule vs =
      leb 3 (length vs) && (on_boundary (edges_of vs) || (crossings (edges_of vs) % 2 == 1))

  in_ring-is_inside_by_rule : (vs : List (Point F)) → in_ring fl p vs ≡ is_inside_by_rule vs
  unfolding in_ring
  in_ring-is_inside_by_rule [] = refl
  in_ring-is_inside_by_rule (first ∷ rest) =
      ground (arith, cast_ray-even_odd first false (first ∷ rest))

  -- Of any list of vertices: once a repetition of the first vertex at its end is taken off, the point counts as
  -- inside exactly when at least three vertices are left and the point lies on an edge or the ray
  -- from it crosses an odd number of edges.
  pub point_in_polygon_even_odd :
      (vs : List (Point F)) → point_in_polygon fl p vs ≡ is_inside_by_rule (open_ring vs)
  unfolding point_in_polygon in_ring
  point_in_polygon_even_odd [] = refl
  point_in_polygon_even_odd (first ∷ []) = elim (Bool-cases (same_point fl first first)) [
    | inl same ↦ rw same refl
    | inr other ↦ rw other refl
  ]
  point_in_polygon_even_odd (first ∷ b ∷ rest) =
      elim (Bool-cases (same_point fl first (last_vertex b rest))) [
        | inl closed ↦ ground (arith, closed, in_ring-is_inside_by_rule (first ∷ drop_last b rest))
        | inr open_one ↦ ground (arith, open_one, in_ring-is_inside_by_rule (first ∷ b ∷ rest))
      ]

  -- The same of a ring that is not closed, its edges written out.
  pub point_in_polygon_open :
      (first : Point F) (rest : List (Point F))
      → same_point fl first (last_vertex first rest) ≡ false
      → point_in_polygon fl p (first ∷ rest) ≡ (
          leb 3 (length (first ∷ rest))
          && (on_boundary (edges first (first ∷ rest))
              || (crossings (edges first (first ∷ rest)) % 2 == 1)))
  point_in_polygon_open first rest apart =
      point_in_polygon_even_odd (first ∷ rest) ∙ (rw apart refl)

module _ {F : Type 0} where
  last_vertex-snoc : (a z : Point F) (rest : List (Point F)) → last_vertex a (rest ++ z ∷ []) ≡ z
  last_vertex-snoc a z [] = refl
  last_vertex-snoc a z (b ∷ rest) = last_vertex-snoc b z rest

  drop_last-snoc : (a z : Point F) (rest : List (Point F)) → drop_last a (rest ++ z ∷ []) ≡ a ∷ rest
  drop_last-snoc a z [] = refl
  drop_last-snoc a z (b ∷ rest) = ap (λ vs. a ∷ vs) (drop_last-snoc b z rest)

-- A ring may be given closed: repeating the first vertex at the end of a ring that is not closed
-- changes no answer, if `==` holds of the first vertex and itself (no coordinate is NaN).
point_in_polygon_closed :
    {F : Type 0} (fl : FloatOps F) (p first : Point F) (rest : List (Point F))
    → same_point fl first first ≡ true
    → same_point fl first (last_vertex first rest) ≡ false
    → point_in_polygon fl p (first ∷ rest ++ first ∷ []) ≡ point_in_polygon fl p (first ∷ rest)
unfolding point_in_polygon
point_in_polygon_closed fl p first rest equal open_ring =
    rw (last_vertex-snoc first first rest, drop_last-snoc first first rest)
      (ground (arith, length-append rest (first ∷ [])))
