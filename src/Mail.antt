-- ===== src/Mail.antt =====
-- backend/app/services/mail.py, `send_email`, and receipts.py, `send_receipt`: an e-mail is a row,
-- stored at most once for each dedup key. The texts (address, subject, body) are not modelled. Whether
-- the database takes the row, whose address may be too long for its column, is the parameter
-- `accepts`; a refusal raises before the key is looked at.
use mad_devs_transport_shari.Prelude.{
  ℕ, ◌+◌, Bool, Option, none, some, [], ◌∷◌, ◌++◌, ◌==◌, is_some, if◌then◌else◌,
}
use mad_devs_transport_shari.Table.{scalar}
use mad_devs_transport_shari.Models.{Db, Email, DedupKey, ride_receipt, Ride}
use mad_devs_transport_shari.Outcome.{Outcome, ok, raise, fault, database_error}

abbrev pub same_key : DedupKey → DedupKey → Bool
same_key (ride_receipt a) (ride_receipt b) = a == b

abbrev pub has_key : DedupKey → Email → Bool
has_key key e = same_key e.dedup_key key

abbrev pub receipt_dedup_key : Ride → DedupKey
receipt_dedup_key r = ride_receipt r.id

-- `try` with `begin_nested()`, and `except Exception`
abbrev pub caught : {F : Type 0} → Db F → Outcome (Option Email × Db F) → Option ℕ × Db F
caught db (raise e) = (none, db)
caught db (ok (none, db')) = (none, db')
caught db (ok (some email, db')) = (some email.id, db')

module _ {F : Type 0} (accepts : Email → Bool) where
  unfoldable pub send_email : ℕ → DedupKey → Db F → Outcome (Option Email × Db F)
  send_email user_id dedup_key db =
      let row : Email = record { id = db.next_email; user_id = user_id; dedup_key = dedup_key } in
      if accepts row
      then (if is_some (scalar (has_key dedup_key) db.emails)
          then ok (none, db)
          else ok (
            some row,
            record db { emails = db.emails ++ row ∷ []; next_email = db.next_email + 1 },
          ))
      else raise (fault database_error)

  unfoldable pub send_receipt : Ride → Db F → Outcome (Option Email × Db F)
  send_receipt r db = send_email r.user_id (receipt_dedup_key r) db

  -- The id of the stored e-mail; the savepoint undoes a failed insert, and the failure is swallowed.
  unfoldable pub store_receipt : Ride → Db F → Option ℕ × Db F
  store_receipt r db = caught db (send_receipt r db)
