-- ===== src/Sweeper/Loop.antt =====
-- backend/app/services/booking_sweeper.py, `run_booking_sweeper`: the rounds of the loop until `stop` is set,
-- each with its own instant and the rows that other transactions hold during it.
use mad_devs_transport_shari.Prelude.{ℕ, Bool, true, false, List, [], ◌∷◌}
use mad_devs_transport_shari.Models.{Db}
use mad_devs_transport_shari.Sweeper.{expire_overdue, sweep_bookings}

-- Where a round raises: before its first commit, between the two, after them, or nowhere. The rows
-- that are committed stay.
pub data Failure : Type 0 where
  before_expiry before_warning while_sending nowhere : Failure

pub record Round : Type 0 where
  pub locked : ℕ → Bool
  pub now : ℕ
  pub failure : Failure

-- Has the round committed the expiry?
abbrev pub has_expired : Failure → Bool
has_expired before_expiry = false
has_expired before_warning = true
has_expired while_sending = true
has_expired nowhere = true

module _ {F : Type 0} (warn_before low_battery_threshold : ℕ) where
  -- `except Exception`: the loop goes on.
  unfoldable pub sweep_until : Failure → (ℕ → Bool) → ℕ → Db F → Db F
  sweep_until before_expiry locked now db = db
  sweep_until before_warning locked now db = (expire_overdue locked now low_battery_threshold db).1
  sweep_until while_sending locked now db =
      (sweep_bookings locked now warn_before low_battery_threshold db).1
  sweep_until nowhere locked now db =
      (sweep_bookings locked now warn_before low_battery_threshold db).1

  abbrev pub sweep_round : Round → Db F → Db F
  sweep_round r db = sweep_until r.failure r.locked r.now db

  unfoldable pub run_booking_sweeper : List Round → Db F → Db F
  run_booking_sweeper [] db = db
  run_booking_sweeper (r ∷ rounds) db = run_booking_sweeper rounds (sweep_round r db)
