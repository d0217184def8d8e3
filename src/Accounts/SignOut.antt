-- ===== src/Accounts/SignOut.antt =====
-- backend/app/services/auth.py, `change_password`: the sessions that it ends and the one that it keeps.
use mad_devs_transport_shari.Prelude.{
  ℕ, ◌≡◌, refl, Bool, true, false, not, ◌&&◌, none, some, List, [], ◌∷◌, ◌==◌, arith, filter_by,
  Bool-cases, inl, inr,
}
use mad_devs_transport_shari.Text.{String, text_eq}
use mad_devs_transport_shari.Table.{scalar, put}
use mad_devs_transport_shari.Models.{User}
use mad_devs_transport_shari.Outcome.{ok}
use mad_devs_transport_shari.Accounts.{
  Secrets, AccountDb, UserSession, user_key, has_token, user_from_token, revoke_other_sessions,
  change_password,
}
use text.Mathlib.TextEquality.{eq_iff}

-- What the revocation keeps.
abbrev kept : ℕ → String → UserSession → Bool
kept user_id hash s = not (s.user_id == user_id && not (has_token hash s))

-- A token of somebody else's session.
abbrev pub has_foreign : ℕ → String → UserSession → Bool
has_foreign user_id hash s = has_token hash s && not (s.user_id == user_id)

filter_by-other :
    (user_id : ℕ) (hash keep : String) (ss : List UserSession)
    → text_eq hash keep ≡ false
    → scalar (has_foreign user_id hash) ss ≡ none
    → scalar (has_token hash) (filter_by (kept user_id keep) ss) ≡ none
unfolding scalar
filter_by-other user_id hash keep [] other own = refl
filter_by-other user_id hash keep (s ∷ ss) other own = elim (Bool-cases (has_token hash s)) [
  | inl hit ↦
      let e : text_eq s.token_hash keep ≡ false = rw ((eq_iff s.token_hash hash).0 hit) other in
      ground (arith, hit, e, own, filter_by-other user_id hash keep ss other)
  | inr miss ↦ ground (arith, miss, own, filter_by-other user_id hash keep ss other)
]

filter_by-kept :
    (user_id : ℕ) (keep : String) (ss : List UserSession)
    → scalar (has_token keep) (filter_by (kept user_id keep) ss) ≡ scalar (has_token keep) ss
unfolding scalar
filter_by-kept user_id keep [] = refl
filter_by-kept user_id keep (s ∷ ss) = ground (arith, filter_by-kept user_id keep ss)

module _ (sec : Secrets) where
  -- Changing the password with the right current one: the row of the user has the new hash, every
  -- other token of the user belongs to nobody, and the session of the kept token is as it was. Such
  -- a token has another hash than the kept one, and only sessions of this user have its hash.
  pub change_password_signs_out :
      (u : User) (current new salt keep token hash : String) (now : ℕ) (db : AccountDb)
      → u.password_hash ≡ some hash
      → sec.verify_password hash current ≡ true
      → text_eq (sec.token_hash token) (sec.token_hash keep) ≡ false
      → scalar (has_foreign u.id (sec.token_hash token)) db.sessions ≡ none
      → (db' : AccountDb) × (change_password sec u current new salt keep db ≡ ok (tt, db'))
        × (db'.users
            ≡ put user_key
                (record u { password_hash = some (sec.hash_password salt new) })
                db.users)
        × (user_from_token sec token now db' ≡ (none, db'))
        × (scalar (has_token (sec.token_hash keep)) db'.sessions
            ≡ scalar (has_token (sec.token_hash keep)) db.sessions)
  unfolding change_password revoke_other_sessions user_from_token
  change_password_signs_out u current new salt keep token hash now db old right other own =
      let row : User = record u { password_hash = some (sec.hash_password salt new) } in
      (
        revoke_other_sessions sec u.id keep (record db { users = put user_key row db.users }),
        ground (arith, old, right),
        refl,
        rw
            (
              user_from_token,
              filter_by-other u.id (sec.token_hash token) (sec.token_hash keep) db.sessions other
                  own,
            )
            refl,
        filter_by-kept u.id (sec.token_hash keep) db.sessions,
      )
