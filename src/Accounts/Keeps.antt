-- ===== src/Accounts/Keeps.antt =====
-- backend/app/services/auth.py: registration and the change of a password on sound rows.
use mad_devs_transport_shari.Prelude.{
  ℕ, ◌+◌, ◌≤◌, ◌≡◌, refl, true, not, ◌&&◌, Option, none, some, [], ◌∷◌, ◌++◌, ◌==◌, arith,
  Bool-cases, Option-cases, inl, inr, subst, is_some,
}
use mad_devs_transport_shari.Text.{String}
use mad_devs_transport_shari.Table.{scalar, get, put, count}
use mad_devs_transport_shari.Table.Laws.{count-scalar-none, count-put, count-insert}
use mad_devs_transport_shari.Models.{User}
use mad_devs_transport_shari.Http.Ends.{Answers}
use mad_devs_transport_shari.Accounts.{
  Secrets, AccountDb, user_key, has_token, registered_as, registered_user_by_email, legacy_account,
  account_row, store_account, commit_account, register, revoke_other_sessions, change_password,
}
use mad_devs_transport_shari.Accounts.Rows.{
  legacy_account-Stands, store_account-get, Stands, row_id,
}
use mad_devs_transport_shari.Accounts.SignIn.{
  account_row-hash, account_row-id, store_account-sessions,
}
use text.Mathlib.TextEquality.{eq_iff}
use mad_devs_transport_shari.Accounts.Sound.{
  IsSound, filter_by-IsSound, add_session-IsSound, put-IsSound, insert-IsSound,
}
use mad_devs_transport_shari.Accounts.Tokens.{
  account_row-email, IsAccount, SignsIn, add_session-IsOpen,
}

module _ (sec : Secrets) where
  module _ (db : AccountDb) (v : IsSound sec db) where
    -- A row under an address that no account has is the only one of its address.
    module _ (row : User) (email : String) (spelled : row.email ≡ some email)
        (free : scalar (registered_as sec (sec.sql_lower email)) db.users ≡ none) where
      free-count :
          (address : String)
          → registered_as sec address row ≡ true
          → count (registered_as sec address) db.users ≡ 0
      free-count address hit =
          let same = (eq_iff (sec.sql_lower email) address).0 (ground (arith, hit, spelled)) in
          subst (λ e. count (registered_as sec e) db.users ≡ 0) same
            (count-scalar-none (registered_as sec (sec.sql_lower email)) db.users free)

      insert-one_owner :
          (address : String) → count (registered_as sec address) (db.users ++ row ∷ []) ≤ 1
      insert-one_owner address = ground (
        arith,
        v.one_owner address,
        free-count address,
        count-insert (registered_as sec address) db.users row,
      )

      put-one_owner :
          (old : User)
          → get user_key row.id db.users ≡ some old
          → (address : String) → count (registered_as sec address) (put user_key row db.users) ≤ 1
      put-one_owner old at address = ground (
        arith,
        v.one_owner address,
        free-count address,
        count-put user_key (registered_as sec address) row old db.users v.numbered.keyed at,
      )

      store_account-IsSound :
          (legacy : Option User)
          → Stands db.users legacy
          → row.id ≡ row_id db legacy
          → is_some row.password_hash ≡ true
          → IsSound sec (store_account legacy row db)
      store_account-IsSound none stands same kept =
          insert-IsSound sec db v row same insert-one_owner
      store_account-IsSound (some u) stands same kept =
          let at : get user_key row.id db.users ≡ some u = rw same stands in
          put-IsSound sec db v row u at kept (put-one_owner u at)

      commit_account-Answers :
          (ouch : Type 0) (legacy : Option User) (now ttl : ℕ) (token : String)
          → Stands db.users legacy
          → row.id ≡ row_id db legacy
          → is_some row.password_hash ≡ true
          → Answers
              (IsSound sec)
              ouch
              (SignsIn sec (now + ttl))
              (commit_account sec legacy row email now token ttl db)
      unfolding commit_account
      commit_account-Answers ouch legacy now ttl token stands same kept =
          elim (Option-cases (scalar (has_token (sec.token_hash token)) db.sessions)) [
            | inr (s, taken) ↦ rw (Answers, commit_account, free, taken) tt
            | inl new ↦
                let db' = store_account legacy row db in
                let at = store_account-get sec db v.numbered legacy row stands same in
                rw (Answers, commit_account, free, new)
                  (
                    (
                      add_session-IsSound sec db' (store_account-IsSound legacy stands same kept)
                          row.id now ttl token (rw at kept)
                          (rw (store_account-sessions legacy row db) new),
                      at,
                      kept,
                    ),
                    add_session-IsOpen sec row token now ttl db'
                        (rw (store_account-sessions legacy row db) new),
                  )
          ]

    pub register-Answers :
        (ouch : Type 0) (name address password salt token : String) (clock now ttl : ℕ)
        → Answers
            (IsSound sec)
            ouch
            (SignsIn sec (now + ttl))
            (register sec name address password salt token clock now ttl db)
    unfolding register commit_account
    register-Answers ouch name address password salt token clock now ttl =
        let email = sec.normalize_email address in
        let hash = sec.hash_password salt password in
        let legacy = legacy_account sec email name db in
        let row = account_row legacy name email hash clock db in
        elim (Bool-cases (is_some (registered_user_by_email sec email db))) [
          | inl taken ↦ rw (Answers, register, taken) tt
          | inr open_address ↦
              elim (Option-cases (scalar (registered_as sec (sec.sql_lower email)) db.users)) [
                | inr (other, taken) ↦
                    rw (Answers, register, open_address, commit_account, taken) tt
                | inl free ↦
                    rw (Answers, register, open_address)
                      (commit_account-Answers row email
                        (account_row-email legacy name email hash clock db) free ouch legacy now ttl
                        token (legacy_account-Stands sec db v.numbered email name)
                        (account_row-id legacy name email hash clock db)
                        (rw (account_row-hash legacy name email hash clock db) refl))
              ]
        ]

    pub change_password-Answers :
        (ouch : Type 0) (u : User) (current new salt keep : String)
        → IsAccount sec u db
        → Answers
            (IsSound sec)
            ouch
            (λ _. IsSound sec)
            (change_password sec u current new salt keep db)
    unfolding change_password revoke_other_sessions
    change_password-Answers ouch u current new salt keep (sound, at, kept) =
        let row : User = record u { password_hash = some (sec.hash_password salt new) } in
        let same : (address : String)
            → registered_as sec address row ≡ registered_as sec address u =
          λ address. ground (arith, kept) in
        let db' : AccountDb = record db { users = put user_key row db.users } in
        let sound' : IsSound sec db' = put-IsSound sec db v row u at refl (λ address. ground (
          arith,
          v.one_owner address,
          same address,
          count-put user_key (registered_as sec address) row u db.users v.numbered.keyed at,
        )) in
        elim (Bool-cases (elim u.password_hash [
          | none ↦ true
          | some hash ↦ not (sec.verify_password hash current)
        ])) [
          | inl wrong ↦ rw (Answers, change_password, wrong) tt
          | inr right ↦
              rw (Answers, change_password, right)
                (filter_by-IsSound sec db' sound'
                  (λ s. not (s.user_id == u.id && not (has_token (sec.token_hash keep) s))))
        ]
