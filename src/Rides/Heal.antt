-- ===== src/Rides/Heal.antt =====
-- backend/app/services/rides.py, `_store_receipt`: the receipt e-mail that the database refused, and the next
-- finish.
use mad_devs_transport_shari.Prelude.{
  ℕ, ◌≡◌, refl, sym, ◌∙◌, ap, Bool, true, false, Option, none, some, List, Option-cases, inl, inr,
  subst, ==_refl,
}
use mad_devs_transport_shari.Table.{scalar}
use mad_devs_transport_shari.Table.Laws.{scalar-insert}
use mad_devs_transport_shari.Models.{Db, Scooter, Ride, Email, ride_receipt}
use mad_devs_transport_shari.Models.Status.{FinishReason, is_finished}
use mad_devs_transport_shari.Geo.{FloatOps, Point, in_any_zone}
use mad_devs_transport_shari.Scooters.{release_status}
use mad_devs_transport_shari.Mail.{has_key, store_receipt, send_receipt, send_email}
use mad_devs_transport_shari.Timeline.Phases.{settled}
use mad_devs_transport_shari.Database.{get_ride_row, get_scooter, put_ride, put_scooter}
use mad_devs_transport_shari.Database.Invariant.{IsValid}
use mad_devs_transport_shari.Outcome.{ok}
use mad_devs_transport_shari.Rides.{FinishResult, finish_ride, with_receipt, flush_settled}
use mad_devs_transport_shari.Rides.PauseSane.{ride-IsSound}
use mad_devs_transport_shari.Rides.Finish.{
  position, parked, finish_ride-inside, finish_ride-finished,
}
use mad_devs_transport_shari.Rides.FinishSane.{running}
use mad_devs_transport_shari.Rides.Telemetry.{with_receipt-ride}
use mad_devs_transport_shari.Rides.Receipt.{
  flush_settled-HasFinished, with_receipt-now, with_receipt-rides,
}

-- The e-mail of the ride's receipt, as the rows have it.
abbrev pub receipt_email : {F : Type 0} → ℕ → Db F → Option Email
receipt_email i db = scalar (has_key (ride_receipt i)) db.emails

-- A database that refuses every e-mail, and one that takes every one.
abbrev pub refuses_all : Email → Bool
refuses_all e = false

abbrev pub takes_all : Email → Bool
takes_all e = true

with_receipt-refused :
    {F : Type 0} (r : Ride) (now : Bool) (db : Db F)
    → with_receipt refuses_all r now db
      ≡ (record { ride = r; finished_now = now; email_id = none }, db)
unfolding with_receipt store_receipt send_receipt send_email
with_receipt-refused r now db = refl

-- Stored already, or stored now: afterwards it is there.
with_receipt-stored :
    {F : Type 0} (r : Ride) (now : Bool) (db : Db F)
    → (e : Email) × (receipt_email r.id (with_receipt takes_all r now db).1 ≡ some e)
unfolding with_receipt store_receipt send_receipt send_email
with_receipt-stored r now db =
    let row : Email = record {
      id = db.next_email;
      user_id = r.user_id;
      dedup_key = ride_receipt r.id;
    } in
    elim (Option-cases (scalar (has_key (ride_receipt r.id)) db.emails)) [
      | inl missing ↦ (
        row,
        rw
            (
              missing,
              scalar-insert (has_key (ride_receipt r.id)) db.emails row,
              missing,
              ==_refl r.id,
            )
            refl,
      )
      | inr (e, stored) ↦ (e, rw (stored, stored) refl)
    ]

-- Finishing one's own unfinished ride inside a zone while the database refuses every e-mail, on valid rows: the
-- ride is finished all the same, by this call, and no receipt e-mail is announced. The next finish
-- of the ride, at any instant and wherever the zones are now, once the database takes e-mails, changes
-- no ride and leaves the receipt e-mail stored.
pub finish_ride_heals :
    {F : Type 0} (fl : FloatOps F) (db : Db F) (user_id i : ℕ)
    (zones zones' : List (List (Point F))) (threshold threshold' now now' : ℕ) (r : Ride)
    (s : Scooter F)
    → IsValid db
    → get_ride_row i db ≡ some r
    → r.user_id ≡ user_id
    → is_finished r.status ≡ false
    → get_scooter r.scooter_id db ≡ some s
    → in_any_zone fl (position s) zones ≡ true
    → (result : FinishResult) × (db' : Db F) × (again : FinishResult) × (db'' : Db F) × (finish_ride
          fl refuses_all user_id i zones threshold now db
        ≡ ok (result, db'))
      × (result.finished_now ≡ true)
      × (result.email_id ≡ none)
      × (get_ride_row i db' ≡ some result.ride)
      × (is_finished result.ride.status ≡ true)
      × (finish_ride fl takes_all user_id i zones' threshold' now' db' ≡ ok (again, db''))
      × (db''.rides ≡ db'.rides)
      × ((e : Email) × (receipt_email result.ride.id db'' ≡ some e))
finish_ride_heals fl db user_id i zones zones' threshold threshold' now now' r s v found owner going
      at inside =
    let (k, run) = running r (ride-IsSound db user_id i now v r found) going in
    let s' = parked s (release_status s.battery threshold) in
    let done = settled r run.0 run.1 now FinishReason.user in
    let rows = put_scooter s' (put_ride done db) in
    let (result, db') = flush_settled refuses_all (done, s') db in
    let (again, db'') = with_receipt takes_all done false db' in
    let (_, _, row, _) =
      flush_settled-HasFinished db refuses_all i r r found refl s s' at refl k run now
        FinishReason.user in
    let same = with_receipt-ride refuses_all done true rows in
    (
      result,
      db',
      again,
      db'',
      finish_ride-inside db refuses_all i r found fl user_id zones threshold now owner going s at
          inside k run,
      with_receipt-now refuses_all done true rows,
      ap (λ x. x.0.email_id) (with_receipt-refused done true rows),
      row,
      ap (λ x. is_finished x.status) same ∙ refl,
      finish_ride-finished db' takes_all i done (row ∙ ap (λ x. some x) same) fl user_id zones'
          threshold' now' owner refl,
      with_receipt-rides takes_all done false db',
      subst (λ x. (e : Email) × (receipt_email x.id db'' ≡ some e)) (sym same)
          (with_receipt-stored done false db'),
    )
