-- ===== src/Rides/FinishSane.antt =====
-- backend/app/services/rides.py, `finish_ride` and `auto_finish_ride`: what they keep.
use mad_devs_transport_shari.Prelude.{
  ℕ, ◌+◌, ◌≤◌, [], ◌∷◌, ◌++◌, ◌≡◌, refl, Bool, true, false, Option, none, some, List, ◌==◌, arith,
  is_some, Bool-cases, Option-cases, inl, inr, ==_iff, subst,
}
use mad_devs_transport_shari.Table.{scalar, count}
use mad_devs_transport_shari.Table.Laws.{count-insert, count-scalar-none}
use mad_devs_transport_shari.Models.{Db, Scooter, Ride, Email, DedupKey, ride_receipt}
use mad_devs_transport_shari.Models.Status.{
  RideStatus, SegmentKind, FinishReason, ScooterStatus, is_finished, is_unfinished, is_riding,
  is_reserved,
}
use mad_devs_transport_shari.Geo.{FloatOps, Point, in_any_zone}
use mad_devs_transport_shari.Scooters.{release_status}
use mad_devs_transport_shari.Mail.{
  store_receipt, send_receipt, send_email, has_key, receipt_dedup_key, caught,
}
use mad_devs_transport_shari.Timeline.Phases.{IsRunning, IsSound, Phase, settled, settled-IsSettled}
use mad_devs_transport_shari.Database.{get_ride_row, get_scooter, put_scooter, put_ride}
use mad_devs_transport_shari.Database.Invariant.{IsValid}
use mad_devs_transport_shari.Database.Held.{ride_scooter}
use mad_devs_transport_shari.Database.Sane.{Sane}
use mad_devs_transport_shari.Outcome.{Outcome, ok, raise}
use mad_devs_transport_shari.Rides.{finish_ride, auto_finish_ride, with_receipt, flush_settled}
use mad_devs_transport_shari.Rides.Update.{SameRide, update-IsValid}
use mad_devs_transport_shari.Rides.Pause.{RideStatus-cases, locked_ride-stranger}
use mad_devs_transport_shari.Rides.PauseSane.{locked_ride-missing, ride-IsSound}
use mad_devs_transport_shari.Rides.Finish.{
  position, parked, drained, explained, finish_ride-finished, finish_ride-outside,
  finish_ride-inside, auto_finish_ride-finished, auto_finish_ride-running, emails-IsValid,
}

-- The rows after an insert that went through; a failed one is undone.
abbrev Stored : {F : Type 0} → Outcome (Option Email × Db F) → Type 0
Stored (ok (e, db)) = IsValid db
Stored (raise e) = Unit

caught-IsValid :
    {F : Type 0} (db : Db F)
    → IsValid db
    → (o : Outcome (Option Email × Db F)) → Stored o
    → IsValid (caught db o).1
caught-IsValid db v (raise e) h = v
caught-IsValid db v (ok (none, db')) h = h
caught-IsValid db v (ok (some email, db')) h = h

inserted_once :
    {F : Type 0} (user_id : ℕ) (key : DedupKey) (db : Db F)
    → IsValid db
    → is_some (scalar (has_key key) db.emails) ≡ false
    → let row : Email = record { id = db.next_email; user_id = user_id; dedup_key = key } in
      (j : ℕ) → count (has_key (ride_receipt j)) (db.emails ++ row ∷ []) ≤ 1
inserted_once user_id (ride_receipt k) db v fresh j =
    let row : Email = record {
      id = db.next_email;
      user_id = user_id;
      dedup_key = ride_receipt k;
    } in
    let none_yet = count-scalar-none (has_key (ride_receipt k)) db.emails (ground (arith, fresh)) in
    elim (Bool-cases (k == j)) [
      | inl same ↦ ground (
        arith,
        same,
        count-insert (has_key (ride_receipt j)) db.emails row,
        subst (λ i. count (has_key (ride_receipt i)) db.emails ≡ 0) ((==_iff k j).0 same) none_yet,
      )
      | inr other ↦
          ground (arith, v.mailed j, other, count-insert (has_key (ride_receipt j)) db.emails row)
    ]

send_email-Sane :
    {F : Type 0} (accepts : Email → Bool) (user_id : ℕ) (key : DedupKey) (db : Db F)
    → IsValid db
    → Stored (send_email accepts user_id key db)
unfolding send_email
send_email-Sane accepts user_id key db v =
    let row : Email = record { id = db.next_email; user_id = user_id; dedup_key = key } in
    elim (Bool-cases (accepts row)) [
      | inr refused ↦ rw refused tt
      | inl taken ↦ elim (Bool-cases (is_some (scalar (has_key key) db.emails))) [
        | inl stored ↦ rw (taken, stored) v
        | inr fresh ↦
            rw (taken, fresh)
              (emails-IsValid db v (db.emails ++ row ∷ []) (db.next_email + 1)
                (inserted_once user_id key db v fresh))
      ]
    ]

-- Storing the receipt e-mail keeps the rows valid, whether or not the insert goes through.
pub with_receipt-IsValid :
    {F : Type 0} (accepts : Email → Bool) (r : Ride) (now : Bool) (db : Db F)
    → IsValid db
    → IsValid (with_receipt accepts r now db).1
unfolding with_receipt store_receipt send_receipt
with_receipt-IsValid accepts r now db v =
    caught-IsValid db v (send_email accepts r.user_id (receipt_dedup_key r) db)
      (send_email-Sane accepts r.user_id (receipt_dedup_key r) db v)

-- An unfinished ride runs, in one of the two kinds.
pub running :
    (r : Ride) → IsSound r → is_finished r.status ≡ false → (k : SegmentKind) × IsRunning r k
running r sound going = elim (RideStatus-cases r.status) [
  | inl active ↦ (SegmentKind.ride, subst (λ st. Phase st r) active sound)
  | inr (inl paused) ↦ (SegmentKind.pause, subst (λ st. Phase st r) paused sound)
  | inr (inr finished) ↦ absurd (ground (arith, going, finished))
]

pub is_unfinished-not : (st : RideStatus) → is_finished st ≡ false → is_unfinished st ≡ true
is_unfinished-not st h = ground arith

pub release_status_free :
    (battery threshold : ℕ)
    → (is_riding (release_status battery threshold) ≡ false)
      × (is_reserved (release_status battery threshold) ≡ false)
unfolding release_status
release_status_free battery threshold = (ground arith, ground arith)

module _ {F : Type 0} (db : Db F) (v : IsValid db) (accepts : Email → Bool) (i : ℕ) (r : Ride)
    (found : get_ride_row i db ≡ some r) (going : is_finished r.status ≡ false) (s s' : Scooter F)
    (at : get_scooter r.scooter_id db ≡ some s) (held : is_riding s.status ≡ true)
    (same : s'.id ≡ s.id) where
  -- Flushing a settled ride and its freed scooter keeps the rows valid.
  flush_settled-IsValid :
      (r' : Ride) (k : SegmentKind) (run : IsRunning r' k) (now : ℕ) (reason : FinishReason)
      → SameRide r r'
      → is_riding s'.status ≡ false
      → is_reserved s'.status ≡ false
      → s'.paused ≡ false
      → IsValid (flush_settled accepts (settled r' run.0 run.1 now reason, s') db).1
  flush_settled-IsValid r' k run now reason keeps free unreserved unpaused =
      with_receipt-IsValid accepts (settled r' run.0 run.1 now reason) true
        (put_scooter s' (put_ride (settled r' run.0 run.1 now reason) db))
        (update-IsValid db v i r found (is_unfinished-not r.status going) s at held
          (settled r' run.0 run.1 now reason) s'
          (record {
            id = keeps.id;
            user_id = keeps.user_id;
            scooter_id = keeps.scooter_id;
            booking_id = keeps.booking_id;
          })
          same (rw free) (rw unpaused) unreserved (settled-IsSettled r' k now run reason))

module _ {F : Type 0} (db : Db F) (v : IsValid db) (accepts : Email → Bool) (i : ℕ) where
  module _ (fl : FloatOps F) (user_id : ℕ) (zones : List (List (Point F))) (threshold now : ℕ) where
    finish_row-Sane :
        (r : Ride)
        → get_ride_row i db ≡ some r
        → r.user_id ≡ user_id
        → Sane (finish_ride fl accepts user_id i zones threshold now db)
    finish_row-Sane r found owner = elim (Bool-cases (is_finished r.status)) [
      | inl done ↦
          rw (finish_ride-finished db accepts i r found fl user_id zones threshold now owner done)
            (with_receipt-IsValid accepts r false db v)
      | inr going ↦
          let (s, at, held) = ride_scooter db v i r found (is_unfinished-not r.status going) in
          let (k, run) = running r (ride-IsSound db user_id i now v r found) going in
          elim (Bool-cases (in_any_zone fl (position s) zones)) [
            | inr outside ↦
                rw
                  (finish_ride-outside db accepts i r found fl user_id zones threshold now owner
                    going s at outside)
                  tt
            | inl inside ↦
                rw
                  (finish_ride-inside db accepts i r found fl user_id zones threshold now owner
                    going s at inside k run)
                  (flush_settled-IsValid db v accepts i r found going s
                    (parked s (release_status s.battery threshold)) at held refl r k run now
                    FinishReason.user
                    (record { id = refl; user_id = refl; scooter_id = refl; booking_id = refl })
                    (release_status_free s.battery threshold).0
                    (release_status_free s.battery threshold).1 refl)
          ]
    ]

    -- On valid rows `finish_ride` never ends in an uncaught exception, and it leaves valid rows.
    pub finish_ride-Sane : Sane (finish_ride fl accepts user_id i zones threshold now db)
    unfolding finish_ride
    finish_ride-Sane = elim (Option-cases (get_ride_row i db)) [
      | inl missing ↦ rw (locked_ride-missing db user_id i now missing) tt
      | inr (r, found) ↦ elim (Bool-cases (r.user_id == user_id)) [
        | inl owner ↦ finish_row-Sane r found ((==_iff r.user_id user_id).0 owner)
        | inr stranger ↦ rw (locked_ride-stranger db user_id i r found stranger) tt
      ]
    ]

  module _ (lat lon : F) (battery threshold now : ℕ) where
    pub auto_finish_missing :
        get_ride_row i db ≡ none
        → auto_finish_ride accepts i lat lon battery threshold now db ≡ ok (none, db)
    unfolding auto_finish_ride
    auto_finish_missing missing = ground arith

    -- On valid rows `auto_finish_ride` never ends in an uncaught exception, and it leaves valid rows.
    pub auto_finish_ride-Sane : Sane (auto_finish_ride accepts i lat lon battery threshold now db)
    auto_finish_ride-Sane = elim (Option-cases (get_ride_row i db)) [
      | inl missing ↦ rw (auto_finish_missing missing) v
      | inr (r, found) ↦ elim (Bool-cases (is_finished r.status)) [
        | inl done ↦
            rw (auto_finish_ride-finished db accepts i r found lat lon battery threshold now done) v
        | inr going ↦
            let (s, at, held) = ride_scooter db v i r found (is_unfinished-not r.status going) in
            let (k, run) = running r (ride-IsSound db 0 i now v r found) going in
            rw
              (auto_finish_ride-running db accepts i r found lat lon battery threshold now going s
                at k run)
              (flush_settled-IsValid db v accepts i r found going s
                (parked (drained s lat lon battery) ScooterStatus.unavailable) at held refl
                (explained r battery threshold) k run now FinishReason.battery
                (record { id = refl; user_id = refl; scooter_id = refl; booking_id = refl }) refl
                refl refl)
      ]
    ]
