-- ===== src/Accounts/Tokens.antt =====
-- backend/app/services/auth.py: a sign-in and the look-up of a token on sound rows.
use mad_devs_transport_shari.Prelude.{
  ℕ, ◌+◌, ◌≡◌, refl, true, not, Option, none, some, ◌==◌, leb, arith, Bool-cases, Option-cases, inl,
  inr, is_some,
}
use mad_devs_transport_shari.Text.{String}
use mad_devs_transport_shari.Table.{scalar, get}
use mad_devs_transport_shari.Table.Laws.{
  scalar-holds, scalar-insert, get-scalar, All-scalar, get_self,
}
use mad_devs_transport_shari.Models.{User}
use mad_devs_transport_shari.Outcome.{ok, raise, ◌>>=◌, auth, Code}
use mad_devs_transport_shari.Http.Ends.{Answers}
use mad_devs_transport_shari.Accounts.{
  Secrets, AccountDb, UserSession, user_key, has_token, registered_as, registered_user_by_email,
  legacy_as, account_row, new_session, add_session, create_session, authenticate, user_from_token,
}
use text.Mathlib.TextPositions.{eq_refl}
use mad_devs_transport_shari.Accounts.Sound.{
  IsOwned, IsSound, filter_by-IsSound, add_session-IsSound,
}

pub account_row-email :
    (legacy : Option User) (name email hash : String) (clock : ℕ) (db : AccountDb)
    → (account_row legacy name email hash clock db).email ≡ some email
account_row-email none name email hash clock db = refl
account_row-email (some u) name email hash clock db = refl

module _ (sec : Secrets) where
  -- The row is the account of this user.
  abbrev pub IsAccount : User → AccountDb → Type 0
  IsAccount u db =
      IsSound sec db × (get user_key u.id db.users ≡ some u) × (is_some u.password_hash ≡ true)

  -- The token belongs to a session of the user that ends at `expires`.
  abbrev pub IsOpen : ℕ → User → String → AccountDb → Type 0
  IsOpen expires u token db =
      (s : UserSession) × (scalar (has_token (sec.token_hash token)) db.sessions ≡ some s)
      × (s.user_id ≡ u.id)
      × (s.expires_at ≡ expires)

  abbrev pub SignsIn : ℕ → User × String → AccountDb → Type 0
  SignsIn expires (u, token) db = IsAccount u db × IsOpen expires u token db

  pub add_session-IsOpen :
      (u : User) (token : String) (now ttl : ℕ) (db : AccountDb)
      → scalar (has_token (sec.token_hash token)) db.sessions ≡ none
      → IsOpen (now + ttl) u token (add_session sec (new_session sec u.id now token ttl db) db)
  add_session-IsOpen u token now ttl db new =
      let row = new_session sec u.id now token ttl db in
      (
        row,
        ground (
          arith,
          new,
          eq_refl (sec.token_hash token),
          scalar-insert (has_token (sec.token_hash token)) db.sessions row,
        ),
        refl,
        refl,
      )

  module _ (db : AccountDb) (v : IsSound sec db) where
    abbrev pub IsTaken : String → Type 0
    IsTaken token = is_some (scalar (has_token (sec.token_hash token)) db.sessions) ≡ true

    pub registered-IsAccount :
        (email : String) (u : User)
        → registered_user_by_email sec email db ≡ some u
        → IsAccount u db
    unfolding registered_user_by_email
    registered-IsAccount email u found = (
      v,
      get-scalar user_key (registered_as sec email) db.users u v.numbered.keyed found,
      ground (arith, scalar-holds (registered_as sec email) db.users u found),
    )

    pub create_session-Answers :
        (u : User) (token : String) (now ttl : ℕ)
        → IsAccount u db
        → Answers
            (IsSound sec)
            (IsTaken token)
            (SignsIn (now + ttl))
            (create_session sec u.id now token ttl db >>= λ db'. ok ((u, token), db'))
    unfolding create_session
    create_session-Answers u token now ttl (sound, at, kept) =
        elim (Option-cases (scalar (has_token (sec.token_hash token)) db.sessions)) [
          | inr (s, taken) ↦ rw taken refl
          | inl new ↦ rw new (
            (add_session-IsSound sec db v u.id now ttl token (rw at kept) new, at, kept),
            add_session-IsOpen u token now ttl db new,
          )
        ]

    pub authenticate-Answers :
        (address password token : String) (now ttl : ℕ)
        → Answers
            (IsSound sec)
            (IsTaken token)
            (SignsIn (now + ttl))
            (authenticate sec address password token now ttl db)
    unfolding authenticate create_session
    authenticate-Answers address password token now ttl =
        let email = sec.normalize_email address in
        elim (Option-cases (registered_user_by_email sec email db)) [
          | inl missing ↦
              rw (Answers, authenticate, missing)
                (elim (Bool-cases (is_some (scalar (legacy_as sec email) db.users))) [
                  | inl legacy ↦ rw (Answers, legacy) tt
                  | inr unknown ↦ rw (Answers, unknown) tt
                ])
          | inr (u, found) ↦
              let own = registered-IsAccount email u found in
              elim (Option-cases u.password_hash) [
                | inl bare ↦ absurd (ground (arith, bare, own.2))
                | inr (hash, stored) ↦ elim (Bool-cases (sec.verify_password hash password)) [
                  | inr wrong ↦
                      let refused : authenticate sec address password token now ttl db
                          ≡ raise (auth Code.invalid_credentials) =
                        ground (arith, found, stored, wrong) in
                      rw (Answers, refused) tt
                  | inl right ↦
                      let opened : authenticate sec address password token now ttl db ≡ (
                          create_session sec u.id now token ttl db >>= λ db'.
                          ok ((u, token), db')) =
                        ground (arith, found, stored, right) in
                      rw (Answers, opened) (create_session-Answers u token now ttl own)
                ]
              ]
        ]

    pub user_from_token-IsSound :
        (token : String) (now : ℕ) → IsSound sec (user_from_token sec token now db).1
    unfolding user_from_token
    user_from_token-IsSound token now =
        elim (Option-cases (scalar (has_token (sec.token_hash token)) db.sessions)) [
          | inl missing ↦ rw (user_from_token, missing) v
          | inr (stored, found) ↦
              rw (user_from_token, found)
                (elim (Bool-cases (leb stored.expires_at now)) [
                  | inl old ↦ rw old (filter_by-IsSound sec db v (λ s. not (s.id == stored.id)))
                  | inr live ↦ rw live v
                ])
        ]

    pub user_from_token-IsAccount :
        (token : String) (now : ℕ) (u : User)
        → (user_from_token sec token now db).0 ≡ some u
        → IsAccount u (user_from_token sec token now db).1
    unfolding user_from_token
    user_from_token-IsAccount token now u h =
        elim (Option-cases (scalar (has_token (sec.token_hash token)) db.sessions)) [
          | inl missing ↦ absurd (ground (arith, h, missing))
          | inr (stored, found) ↦ elim (Bool-cases (leb stored.expires_at now)) [
            | inl old ↦ absurd (ground (arith, h, found, old))
            | inr live ↦
                let at : get user_key stored.user_id db.users ≡ some u =
                  ground (arith, h, found, live) in
                let own : IsOwned db.users stored =
                  All-scalar (IsOwned db.users) (has_token (sec.token_hash token)) db.sessions
                    stored v.owned found in
                rw (user_from_token, found, live)
                  (v, get_self user_key stored.user_id db.users u at, ground (arith, own, at))
          ]
        ]
