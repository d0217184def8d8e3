-- ===== src/Tests/Zones.antt =====
-- The theorems on backend/app/geo.py and services/scooters.py, at the zone of the centre of Bishkek.
use mad_devs_transport_shari.Prelude.{◌≡◌, refl, List, ◌++◌, true, false, [], ◌∷◌, arith}
use mad_devs_transport_shari.Prelude.Int.{ℤ, pos, negsuc, ◌+ℤ◌, ◌-ℤ◌, ◌*ℤ◌, ltb_ℤ}
use mad_devs_transport_shari.Models.Status.{ScooterStatus}
use mad_devs_transport_shari.Geo.{Point, point_in_polygon, on_segment, crosses, cast_ray}
use mad_devs_transport_shari.Geo.Edges.{is_inside_by_rule, open_ring, point_in_polygon_even_odd}
use mad_devs_transport_shari.Geo.Vertices.{FiniteLaws, point_in_polygon_vertex}
use mad_devs_transport_shari.Scooters.{status_after_telemetry}
use mad_devs_transport_shari.Outcome.{ok}
use mad_devs_transport_shari.Configuration.{
  Thresholds, auto_finish_below_low_battery, flat_scooter_stays,
}
use mad_devs_transport_shari.Tests.Sample.{
  whole_numbers, abs_ℤ, at_point, center_first, center_rest,
}

-- Ala-Too Square lies in the zone, Osh Bazaar outside of it.
square_inside :
    point_in_polygon whole_numbers (at_point 428756 746036) (center_first ∷ center_rest) ≡ true
unfolding point_in_polygon on_segment crosses cast_ray ◌+ℤ◌ ◌-ℤ◌ ◌*ℤ◌
square_inside = refl

bazaar_outside :
    point_in_polygon whole_numbers (at_point 428747 745731) (center_first ∷ center_rest) ≡ false
unfolding point_in_polygon on_segment crosses cast_ray ◌+ℤ◌ ◌-ℤ◌ ◌*ℤ◌
bazaar_outside = refl

abbrev closed_center : List (Point ℤ)
closed_center = center_first ∷ center_rest ++ center_first ∷ []

point_in_polygon_even_odd_example :
    point_in_polygon whole_numbers (at_point 428756 746036) closed_center
    ≡ is_inside_by_rule whole_numbers
        (at_point 428756 746036)
        (open_ring whole_numbers (at_point 428756 746036) closed_center)
point_in_polygon_even_odd_example =
    point_in_polygon_even_odd whole_numbers (at_point 428756 746036) closed_center

self_zero : (a : ℤ) → a -ℤ a ≡ pos 0
unfolding ◌-ℤ◌
self_zero (pos n) = ground arith
self_zero (negsuc n) = ground arith

mul_zero : (a : ℤ) → a *ℤ pos 0 ≡ pos 0
unfolding ◌*ℤ◌
mul_zero (pos n) = ground arith
mul_zero (negsuc n) = ground arith

zero_area : (x y a b : ℤ) → ltb_ℤ (pos 0) (abs_ℤ (x *ℤ (a -ℤ a) -ℤ y *ℤ (b -ℤ b))) ≡ false
zero_area x y a b = rw (self_zero a, self_zero b, mul_zero x, mul_zero y, self_zero (pos 0)) refl

whole_laws : FiniteLaws whole_numbers
whole_laws = record {
  le_of_lt = λ a b h. ground arith;
  le_self = λ a. ground arith;
  no_area = λ x y a b. zero_area x y a b;
}

point_in_polygon_vertex_example :
    point_in_polygon whole_numbers center_first (center_first ∷ center_rest) ≡ true
point_in_polygon_vertex_example =
    point_in_polygon_vertex whole_numbers whole_laws center_first center_first center_rest []
      center_rest refl refl refl

abbrev defaults : Thresholds
defaults = record { low_battery_threshold = 15; ride_auto_finish_battery = 10 }

defaults_valid : auto_finish_below_low_battery defaults ≡ ok defaults
unfolding auto_finish_below_low_battery
defaults_valid = refl

flat_scooter_stays_example :
    status_after_telemetry ScooterStatus.unavailable 9 15 ≡ ScooterStatus.unavailable
flat_scooter_stays_example = flat_scooter_stays defaults 9 defaults_valid refl
