-- ===== src/Accounts/Sound.antt =====
-- backend/app/models/user.py and session.py: the rows of accounts and sessions that belong together, under
-- the changes that services/auth.py makes.
use mad_devs_transport_shari.Prelude.{
  ℕ, ◌≤◌, ◌≡◌, Bool, true, false, Option, none, some, List, [], ◌∷◌, ◌++◌, ◌==◌, arith, All,
  Bool-cases, inl, inr, subst, filter_by, ==_iff, is_some, All-append,
}
use mad_devs_transport_shari.Text.{String}
use mad_devs_transport_shari.Table.{scalar, get, put, count, IsKeyed}
use mad_devs_transport_shari.Table.Laws.{
  scalar-insert, count-scalar-none, get-put_self, get-put_ne, count-put, count-insert, put-IsKeyed,
  insert-IsKeyed, key-get,
}
use mad_devs_transport_shari.Sweeper.Keeps.{count-filter_by-le, All-filter_by}
use mad_devs_transport_shari.Models.{User}
use mad_devs_transport_shari.Accounts.{
  Secrets, AccountDb, UserSession, user_key, has_token, registered_as, store_account, new_session,
  add_session,
}
use mad_devs_transport_shari.Accounts.Rows.{IsNumbered}
use text.Mathlib.TextEquality.{eq_iff}

abbrev pub session_key : UserSession → ℕ
session_key s = s.id

-- A user who can sign in.
abbrev pub is_account : Option User → Bool
is_account none = false
is_account (some u) = is_some u.password_hash

-- The session belongs to an account of the table.
abbrev pub IsOwned : List User → UserSession → Type 0
IsOwned users s = is_account (get user_key s.user_id users) ≡ true

pub record IsSound (sec : Secrets) (db : AccountDb) : Type 0 where
  pub numbered : IsNumbered db
  -- the index `uq_users_email_registered`
  pub one_owner : (email : String) → count (registered_as sec email) db.users ≤ 1
  pub sessions_keyed : IsKeyed session_key db.sessions
  pub sessions_fresh :
      (i : ℕ) → db.next_session ≤ i → count (λ s. session_key s == i) db.sessions ≡ 0
  -- the unique column `token_hash`
  pub one_session : (hash : String) → count (has_token hash) db.sessions ≤ 1
  pub owned : All (IsOwned db.users) db.sessions

All-implies {ℓ κ μ} :
    {A : Type ℓ} (P : A → Type κ) (Q : A → Type μ)
    → ((x : A) → P x → Q x)
    → (xs : List A) → All P xs
    → All Q xs
All-implies P Q f [] h = tt
All-implies P Q f (x ∷ xs) h = (f x h.0, All-implies P Q f xs h.1)

module _ (sec : Secrets) (db : AccountDb) (v : IsSound sec db) where
  -- Sessions are deleted.
  pub filter_by-IsSound :
      (p : UserSession → Bool) → IsSound sec (record db { sessions = filter_by p db.sessions })
  filter_by-IsSound p = record {
    numbered = record { keyed = v.numbered.keyed; fresh = v.numbered.fresh };
    one_owner = v.one_owner;
    sessions_keyed = λ i.
        omega
          (arith, v.sessions_keyed i, count-filter_by-le p (λ s. session_key s == i) db.sessions);
    sessions_fresh = λ i h.
        omega
          (arith, v.sessions_fresh i h, count-filter_by-le p (λ s. session_key s == i) db.sessions);
    one_session = λ hash.
        omega (arith, v.one_session hash, count-filter_by-le p (has_token hash) db.sessions);
    owned =
        All-implies (λ s. IsOwned db.users s × (p s ≡ true)) (IsOwned db.users) (λ s h. h.0)
          (filter_by p db.sessions) (All-filter_by p (IsOwned db.users) db.sessions v.owned);
  }

  -- An account opens a session under a new token.
  pub add_session-IsSound :
      (user_id now ttl : ℕ) (token : String)
      → is_account (get user_key user_id db.users) ≡ true
      → scalar (has_token (sec.token_hash token)) db.sessions ≡ none
      → IsSound sec (add_session sec (new_session sec user_id now token ttl db) db)
  add_session-IsSound user_id now ttl token own new =
      let row = new_session sec user_id now token ttl db in
      record {
        numbered = record { keyed = v.numbered.keyed; fresh = v.numbered.fresh };
        one_owner = v.one_owner;
        sessions_keyed =
            insert-IsKeyed session_key db.sessions row v.sessions_keyed
              (v.sessions_fresh db.next_session (omega arith));
        sessions_fresh = λ i h.
            ground (
              arith,
              h,
              v.sessions_fresh i,
              count-insert (λ s. session_key s == i) db.sessions row,
            );
        one_session = λ hash. elim (Bool-cases (has_token hash row)) [
          | inl hit ↦
              let e = (eq_iff row.token_hash hash).0 hit in
              let none_yet : count (has_token hash) db.sessions ≡ 0 =
                subst (λ h. count (has_token h) db.sessions ≡ 0) e
                  (count-scalar-none (has_token row.token_hash) db.sessions new) in
              ground (arith, hit, none_yet, count-insert (has_token hash) db.sessions row)
          | inr miss ↦
              ground
                (arith, miss, v.one_session hash, count-insert (has_token hash) db.sessions row)
        ];
        owned = All-append (IsOwned db.users) db.sessions (row ∷ []) v.owned (own, tt);
      }

  module _ (row old : User) (at : get user_key row.id db.users ≡ some old)
      (kept : is_some row.password_hash ≡ true) where
    put-IsOwned : (s : UserSession) → IsOwned db.users s → IsOwned (put user_key row db.users) s
    put-IsOwned s h = elim (Bool-cases (s.user_id == row.id)) [
      | inl same ↦
          let e = (==_iff s.user_id row.id).0 same in
          ground (arith, e, kept, get-put_self user_key row old db.users at)
      | inr other ↦
          ground
            (arith, h, get-put_ne user_key s.user_id row db.users (λ e. ground (arith, other, e)))
    ]

    -- The row of an account is written back, with its address free or its own.
    pub put-IsSound :
        ((email : String) → count (registered_as sec email) (put user_key row db.users) ≤ 1)
        → IsSound sec (record db { users = put user_key row db.users })
    put-IsSound single = record {
      numbered = record {
        keyed = put-IsKeyed user_key row old db.users v.numbered.keyed at;
        fresh = λ i h. ground (
          arith,
          v.numbered.fresh i h,
          count-put user_key (λ u. user_key u == i) row old db.users v.numbered.keyed at,
          key-get user_key row.id db.users old at,
        );
      };
      one_owner = single;
      sessions_keyed = v.sessions_keyed;
      sessions_fresh = v.sessions_fresh;
      one_session = v.one_session;
      owned =
          All-implies (IsOwned db.users) (IsOwned (put user_key row db.users)) put-IsOwned
            db.sessions v.owned;
    }

  insert-IsOwned :
      (row : User) (s : UserSession) → IsOwned db.users s → IsOwned (db.users ++ row ∷ []) s
  insert-IsOwned row s h =
      ground (arith, h, scalar-insert (λ u. user_key u == s.user_id) db.users row)

  -- A new row.
  pub insert-IsSound :
      (row : User)
      → row.id ≡ db.next_user
      → ((email : String) → count (registered_as sec email) (db.users ++ row ∷ []) ≤ 1)
      → IsSound sec (store_account none row db)
  insert-IsSound row id single = record {
    numbered = record {
      keyed =
          insert-IsKeyed user_key db.users row v.numbered.keyed
            (v.numbered.fresh row.id (omega (arith, id)));
      fresh = λ i h.
          ground
            (arith, h, id, v.numbered.fresh i, count-insert (λ u. user_key u == i) db.users row);
    };
    one_owner = single;
    sessions_keyed = v.sessions_keyed;
    sessions_fresh = v.sessions_fresh;
    one_session = v.one_session;
    owned =
        All-implies (IsOwned db.users) (IsOwned (db.users ++ row ∷ [])) (insert-IsOwned row)
          db.sessions v.owned;
  }
