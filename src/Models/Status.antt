-- ===== src/Models/Status.antt =====
-- The enumerations of backend/app/models and backend/app/billing.py, with the `is` tests on them.
use mad_devs_transport_shari.Prelude.{Bool, true, false}

pub data ScooterStatus : Type 0 where
  available reserved riding unavailable : ScooterStatus

pub data BookingStatus : Type 0 where
  active cancelled expired used : BookingStatus

pub data RideStatus : Type 0 where
  active paused finished : RideStatus

pub data FinishReason : Type 0 where
  user battery : FinishReason

pub data SegmentKind : Type 0 where
  ride pause : SegmentKind

abbrev pub is_available : ScooterStatus → Bool
is_available ScooterStatus.available = true
is_available _ = false

abbrev pub is_reserved : ScooterStatus → Bool
is_reserved ScooterStatus.reserved = true
is_reserved _ = false

abbrev pub is_riding : ScooterStatus → Bool
is_riding ScooterStatus.riding = true
is_riding _ = false

abbrev pub is_active : BookingStatus → Bool
is_active BookingStatus.active = true
is_active _ = false

abbrev pub is_used : BookingStatus → Bool
is_used BookingStatus.used = true
is_used _ = false

abbrev pub is_finished : RideStatus → Bool
is_finished RideStatus.finished = true
is_finished _ = false

abbrev pub is_paused : RideStatus → Bool
is_paused RideStatus.paused = true
is_paused _ = false

-- `status in UNFINISHED` of services/rides.py
abbrev pub is_unfinished : RideStatus → Bool
is_unfinished RideStatus.active = true
is_unfinished RideStatus.paused = true
is_unfinished RideStatus.finished = false
