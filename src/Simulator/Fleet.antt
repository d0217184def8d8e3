-- ===== src/Simulator/Fleet.antt =====
-- simulator/scootersim/fleet.py: the fleet of simulated scooters. The scooters of `_by_code` are those of
-- the list, and a change of one shows in both; of two with one code the dictionary has the later.
-- `active_scooters` is not negative; `now` and `dt` are floats.
use mad_devs_transport_shari.Prelude.{
  ℕ, Bool, true, false, not, ◌&&◌, ◌||◌, Option, none, some, List, [], ◌∷◌, length, map, leb,
  if◌then◌else◌, or_else, is_some,
}
use mad_devs_transport_shari.Text.{String, text_eq}
use mad_devs_transport_shari.Geo.{Point}
use mad_devs_transport_shari.Simulator.{
  MathOps, BBox, Ring, point_in_polygon, random_point_in_polygon, inner_box, bbox_polygon,
}

pub data Phase : Type 0 where
  idle riding charging : Phase

abbrev pub is_riding : Phase → Bool
is_riding Phase.riding = true
is_riding _ = false

abbrev pub is_idle : Phase → Bool
is_idle Phase.idle = true
is_idle _ = false

abbrev pub is_charging : Phase → Bool
is_charging Phase.charging = true
is_charging _ = false

pub record SimScooter (F : Type 0) : Type 0 where
  pub code : String
  pub lat : F
  pub lon : F
  pub battery : F
  pub phase : Phase
  pub target : Option (Point F)
  pub charging_until : Option F
  pub idle_ticks : ℕ
  pub parked : Bool
  pub user_ride : Bool
  pub user_ride_started : Bool

-- simulator/scootersim/config.py, with the city box of geo.py and the 0.3 of FALLBACK_RIDE_AREA
pub record Config (F : Type 0) : Type 0 where
  pub active_scooters : ℕ
  pub speed_kmh : F
  pub drain_per_km : F
  pub user_ride_drain_per_minute : F
  pub recharge_seconds : F
  pub min_ride_battery : F
  pub heartbeat_ticks : ℕ
  pub held_heartbeat_ticks : ℕ
  pub bishkek_bbox : BBox F
  pub fallback_share : F

-- What the backend reports of a scooter.
pub record StatusItem : Type 0 where
  pub code : String
  pub status : String
  pub paused : Bool

-- An item of GET /api/scooters.
pub record ServerItem (F : Type 0) : Type 0 where
  pub lat : F
  pub lon : F
  pub battery : F
  pub item : StatusItem

pub record Fleet (F G : Type 0) : Type 0 where
  pub scooters : List (SimScooter F)
  -- `zones`, never empty
  pub first_zone : Ring F
  pub more_zones : List (Ring F)
  pub rng : G

abbrev pub zones_of : {F G : Type 0} → Fleet F G → List (Ring F)
zones_of fleet = fleet.first_zone ∷ fleet.more_zones

abbrev pub spot : {F : Type 0} → SimScooter F → Point F
spot s = record { lat = s.lat; lon = s.lon }

-- `tries` of `random_point_in_polygon`
abbrev pub tries : ℕ
tries = 1000

abbrev pub start_ride : {F : Type 0} → SimScooter F → Point F → SimScooter F
start_ride s target = record s { phase = Phase.riding; target = some target; idle_ticks = 0 }

unfoldable pub stop : {F : Type 0} → SimScooter F → SimScooter F
stop s = if is_riding s.phase then record s { phase = Phase.idle; target = none } else s

-- `scooter.parked = scooter.user_ride = scooter.user_ride_started = False`
abbrev pub released : {F : Type 0} → SimScooter F → SimScooter F
released s = record s { parked = false; user_ride = false; user_ride_started = false }

abbrev pub new_scooter : {F : Type 0} → ServerItem F → SimScooter F
new_scooter i = record {
  code = i.item.code;
  lat = i.lat;
  lon = i.lon;
  battery = i.battery;
  phase = Phase.idle;
  target = none;
  charging_until = none;
  idle_ticks = 0;
  parked = false;
  user_ride = false;
  user_ride_started = false;
}

-- `[z for z in polygons if len(z) >= 3]`
unfoldable pub rings : {F : Type 0} → List (List (Point F)) → List (Ring F)
rings [] = []
rings ([] ∷ zones) = rings zones
rings ((p ∷ rest) ∷ zones) =
    let kept = rings zones in
    if leb 3 (length (p ∷ rest)) then record { first = p; rest = rest } ∷ kept else kept

module _ {F G : Type 0} (m : MathOps F G) where
  unfoldable pub zone_of : Point F → List (Ring F) → Option (Ring F)
  zone_of p [] = none
  zone_of p (zone ∷ zones) = if point_in_polygon m p zone then some zone else zone_of p zones

  module _ (c : Config F) (first_zone : Ring F) (more_zones : List (Ring F)) where
    unfoldable pub next_user_target : SimScooter F → G → Point F × G
    next_user_target s rng =
        random_point_in_polygon m (or_else (zone_of (spot s) (first_zone ∷ more_zones)) first_zone)
          tries rng

    unfoldable pub leaves_zone : SimScooter F → Point F → Bool
    leaves_zone s new_position = elim (zone_of (spot s) (first_zone ∷ more_zones)) [
      | none ↦ false
      | some zone ↦ not (point_in_polygon m new_position zone)
    ]

    abbrev pub charge : F → SimScooter F → SimScooter F
    charge now s = if is_charging s.phase then released s else record (released s) {
      phase = Phase.charging;
      target = none;
      charging_until = some (m.floats.add now c.recharge_seconds);
    }

    -- The flags of a user's ride; the first report of it drops the demo target.
    abbrev pub taken : Bool → SimScooter F → SimScooter F
    taken paused s = record s {
      user_ride = true;
      user_ride_started = true;
      parked = paused;
      target = if s.user_ride_started then s.target else none;
    }

    -- The status `riding`.
    unfoldable pub drive : Bool → SimScooter F → G → SimScooter F × G
    drive paused s rng =
        let s' = taken paused s in
        if paused
        then (record s' { phase = Phase.idle; idle_ticks = 0 }, rng)
        else if (not (is_riding s'.phase) || not (is_some s'.target))
            && m.floats.lt (m.number 0) s'.battery
        then elim s'.target [
          | some target ↦ (start_ride s' target, rng)
          | none ↦ let (target, rng') = next_user_target s' rng in (start_ride s' target, rng')
        ]
        else (s', rng)

    unfoldable pub apply_status : String → F → Bool → SimScooter F → G → SimScooter F × G
    apply_status status now paused s rng =
        if text_eq status "unavailable"
        then (charge now s, rng)
        else if text_eq status "reserved"
        then (stop (record s { parked = true; user_ride = false; user_ride_started = false }), rng)
        else if text_eq status "riding"
        then drive paused s rng
        else if text_eq status "available"
        then (released (if s.user_ride then stop s else s), rng)
        else (s, rng)

    -- The scooter that `_by_code` has for the code is changed.
    unfoldable pub apply_by_code :
        String → F → Bool → String → List (SimScooter F) → G → Option (List (SimScooter F) × G)
    apply_by_code status now paused code [] rng = none
    apply_by_code status now paused code (s ∷ rest) rng =
        elim (apply_by_code status now paused code rest rng) [
          | some (rest', rng') ↦ some (s ∷ rest', rng')
          | none ↦
              if text_eq s.code code
              then (let (s', rng') = apply_status status now paused s rng in some (s' ∷ rest, rng'))
              else none
        ]

  module _ (c : Config F) where
    -- A status for an unknown code changes nothing.
    unfoldable pub apply_server_status : StatusItem → F → Fleet F G → Fleet F G
    apply_server_status item now fleet =
        elim (apply_by_code c fleet.first_zone fleet.more_zones item.status now item.paused
          item.code fleet.scooters fleet.rng) [
            | none ↦ fleet
            | some (scooters, rng) ↦ record fleet { scooters = scooters; rng = rng }
          ]

    unfoldable pub refresh_statuses : List StatusItem → F → Fleet F G → Fleet F G
    refresh_statuses [] now fleet = fleet
    refresh_statuses (item ∷ payload) now fleet =
        refresh_statuses payload now (apply_server_status item now fleet)

    -- `Fleet.__init__`: without a zone, the fallback area; `from_server` drops the short rings.
    unfoldable pub build : List (SimScooter F) → G → List (Ring F) → Fleet F G
    build scooters rng [] = record {
      scooters = scooters;
      first_zone = bbox_polygon (inner_box m c.bishkek_bbox c.fallback_share);
      more_zones = [];
      rng = rng;
    }
    build scooters rng (zone ∷ zones) = record {
      scooters = scooters;
      first_zone = zone;
      more_zones = zones;
      rng = rng;
    }

    unfoldable pub from_server : List (ServerItem F) → G → F → List (List (Point F)) → Fleet F G
    from_server payload rng now zones =
        refresh_statuses (map (λ i. i.item) payload) now
          (build (map new_scooter payload) rng (rings zones))
