-- ===== src/Accounts/Rows.antt =====
-- backend/app/services/auth.py: the rows that `register` writes and reads.
use mad_devs_transport_shari.Prelude.{
  ℕ, ◌≤◌, ◌≡◌, Bool, true, Option, none, some, List, [], ◌∷◌, ◌==◌, arith, All, Bool-cases,
  Option-cases, inl, inr, subst, filter_by, ==_refl,
}
use mad_devs_transport_shari.Text.{String}
use mad_devs_transport_shari.Table.{scalar, get, put, count, IsKeyed}
use mad_devs_transport_shari.Table.Laws.{scalar-insert, scalar-count_zero, get-put_self}
use mad_devs_transport_shari.Sweeper.Keeps.{All-filter_by, All-get}
use mad_devs_transport_shari.Models.{User}
use mad_devs_transport_shari.Accounts.{
  Secrets, AccountDb, user_key, newer, latest, only, legacy_as, legacy_named, legacy_account,
  registered_as, store_account,
}

-- The ids of the users are unique and below their sequence.
pub record IsNumbered (db : AccountDb) : Type 0 where
  pub keyed : IsKeyed user_key db.users
  pub fresh : (i : ℕ) → db.next_user ≤ i → count (λ u. user_key u == i) db.users ≡ 0

-- A legacy row to claim stands in the table.
abbrev pub Stands : List User → Option User → Type 0
Stands users none = Unit
Stands users (some u) = get user_key (user_key u) users ≡ some u

module _ (users : List User) where
  latest-Stands :
      (us : List User)
      → All (λ u. get user_key (user_key u) users ≡ some u) us
      → Stands users (latest us)
  unfolding latest
  latest-Stands [] h = tt
  latest-Stands (u ∷ rest) (hu, h) = elim (Option-cases (latest rest)) [
    | inl last ↦ rw last hu
    | inr (v, found) ↦ elim (Bool-cases (newer v u)) [
      | inl later ↦ rw found (rw later (subst (Stands users) found (latest-Stands rest h)))
      | inr earlier ↦ rw found (rw earlier hu)
    ]
  ]

  only-Stands :
      (us : List User)
      → All (λ u. get user_key (user_key u) users ≡ some u) us
      → Stands users (only us)
  unfolding only
  only-Stands [] h = tt
  only-Stands (u ∷ []) (hu, h) = hu
  only-Stands (u ∷ v ∷ rest) h = tt

All-first {ℓ κ μ} :
    {A : Type ℓ} (P : A → Type κ) (Q : A → Type μ) (xs : List A)
    → All (λ x. P x × Q x) xs
    → All P xs
All-first P Q [] h = tt
All-first P Q (x ∷ xs) ((p, q), h) = (p, All-first P Q xs h)

module _ (test : User → Bool) (row : User) (hit : test row ≡ true) where
  -- A row that the query takes, written back where the query found nothing, is what it finds.
  pub scalar-put :
      (old : User) (us : List User)
      → scalar test us ≡ none
      → get user_key (user_key row) us ≡ some old
      → scalar test (put user_key row us) ≡ some row
  unfolding scalar put
  scalar-put old [] h at = cc
  scalar-put old (u ∷ us) h at = ground (arith, hit, scalar-put old us)

-- The id of the account's row: the next one, or the claimed row's.
abbrev pub row_id : AccountDb → Option User → ℕ
row_id db none = db.next_user
row_id db (some u) = u.id

module _ (sec : Secrets) (db : AccountDb) (v : IsNumbered db) where
  pub legacy_account-Stands :
      (email name : String) → Stands db.users (legacy_account sec email name db)
  unfolding legacy_account
  legacy_account-Stands email name =
      let all = All-get user_key db.users v.keyed in
      let P : User → Type 0 = λ u. get user_key (user_key u) db.users ≡ some u in
      let by_email =
        All-first P (λ u. legacy_as sec email u ≡ true) (filter_by (legacy_as sec email) db.users)
          (All-filter_by (legacy_as sec email) P db.users all) in
      let by_name =
        All-first P (λ u. legacy_named sec name u ≡ true)
          (filter_by (legacy_named sec name) db.users)
          (All-filter_by (legacy_named sec name) P db.users all) in
      elim (Option-cases (latest (filter_by (legacy_as sec email) db.users))) [
        | inl missing ↦
            rw (legacy_account, missing)
              (only-Stands db.users (filter_by (legacy_named sec name) db.users) by_name)
        | inr (u, found) ↦
            rw (legacy_account, found)
              (subst (Stands db.users) found
                (latest-Stands db.users (filter_by (legacy_as sec email) db.users) by_email))
      ]

  pub store_account-registered :
      (legacy : Option User) (row : User) (email : String)
      → Stands db.users legacy
      → row.id ≡ row_id db legacy
      → registered_as sec email row ≡ true
      → scalar (registered_as sec email) db.users ≡ none
      → scalar (registered_as sec email) (store_account legacy row db).users ≡ some row
  store_account-registered none row email stands same hit free =
      ground (arith, hit, free, scalar-insert (registered_as sec email) db.users row)
  store_account-registered (some u) row email stands same hit free =
      scalar-put (registered_as sec email) row hit u db.users free (rw same stands)

  pub store_account-get :
      (legacy : Option User) (row : User)
      → Stands db.users legacy
      → row.id ≡ row_id db legacy
      → get user_key row.id (store_account legacy row db).users ≡ some row
  store_account-get none row stands same = ground (
    arith,
    ==_refl row.id,
    scalar-insert (λ u. user_key u == row.id) db.users row,
    scalar-count_zero (λ u. user_key u == row.id) db.users (v.fresh row.id (omega arith)),
  )
  store_account-get (some u) row stands same = get-put_self user_key row u db.users (rw same stands)
