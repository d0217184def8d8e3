-- ===== src/AccountApi/Sessions.antt =====
-- backend/app/api/deps.py and auth.py: which session lets a request in, what a sign-in opens and what a
-- sign-out ends.
use mad_devs_transport_shari.Prelude.{
  ℕ, ◌+◌, ◌<◌, ◌≡◌, ◌⊎◌, refl, ◌∙◌, Bool, false, not, Option, none, some, List, [], ◌∷◌, leb, arith,
  Bool-cases, Option-cases, inl, inr, filter_by, subst,
}
use mad_devs_transport_shari.Text.{String, text_eq}
use mad_devs_transport_shari.Table.{scalar, get}
use mad_devs_transport_shari.Models.{User}
use mad_devs_transport_shari.Accounts.{
  AccountDb, UserSession, Secrets, user_key, has_token, user_from_token, revoke_session,
}
use mad_devs_transport_shari.Accounts.Sound.{IsSound}
use text.Mathlib.TextEquality.{eq_iff}
use mad_devs_transport_shari.Http.{done, refused, user_required, ◌>>=◌}
use mad_devs_transport_shari.Http.Ends.{Ends, bind-done}
use mad_devs_transport_shari.AccountApi.{
  Site, Carrier, Answer, UserOut, delete_cookie, user_out, auth_out, no_content, session_token,
  get_current_user, current_token, signed_in_or_401, session_ttl, or_none, starts_with_bearer,
  as_user_out,
}
use mad_devs_transport_shari.AccountApi.Endpoints.{login, logout, get_me, sign_out, give_profile}
use mad_devs_transport_shari.AccountApi.Signing.{Signed, CanFail, login-Ends}

-- A session that `token` opens for the user at `now`.
abbrev pub IsLive : Secrets → String → ℕ → AccountDb → User → UserSession → Type 0
IsLive sec token now db u s =
    (scalar (has_token (sec.token_hash token)) db.sessions ≡ some s)
    × (now < s.expires_at)
    × (get user_key s.user_id db.users ≡ some u)

pub user_from_token_live :
    (sec : Secrets) (token : String) (now : ℕ) (db : AccountDb) (u : User) (s : UserSession)
    → IsLive sec token now db u s
    → user_from_token sec token now db ≡ (some u, db)
unfolding user_from_token
user_from_token_live sec token now db u s (found, live, at) = ground (arith, found, live, at)

pub user_from_token_cases :
    (sec : Secrets) (token : String) (now : ℕ) (db : AccountDb)
    → ((u : User) × (s : UserSession) × IsLive sec token now db u s)
      ⊎ (((u : User) (s : UserSession) → ¬ IsLive sec token now db u s)
          × ((user_from_token sec token now db).0 ≡ none))
unfolding user_from_token
user_from_token_cases sec token now db =
    elim (Option-cases (scalar (has_token (sec.token_hash token)) db.sessions)) [
      | inl missing ↦ inr (λ u s h. ground (arith, missing, h.0), ground (arith, missing))
      | inr (s, found) ↦ elim (Bool-cases (leb s.expires_at now)) [
        | inl old ↦ inr (
          λ u s' h.
              let same : s ≡ s' = ground (arith, found, h.0) in ground (arith, same, h.1, old),
          ground (arith, found, old),
        )
        | inr live ↦ elim (Option-cases (get user_key s.user_id db.users)) [
          | inl gone ↦ inr (
            λ u s' h.
                let same : s ≡ s' = ground (arith, found, h.0) in ground (arith, same, h.2, gone),
            ground (arith, found, live, gone),
          )
          | inr (u, at) ↦ inl (u, s, (found, ground (arith, live), at))
        ]
      ]
    ]

filter_by-none :
    (test : UserSession → Bool) (ss : List UserSession)
    → scalar test (filter_by (λ s. not (test s)) ss) ≡ none
unfolding scalar
filter_by-none test [] = refl
filter_by-none test (s ∷ ss) = ground (arith, filter_by-none test ss)

filter_by-others :
    (hash gone : String) (ss : List UserSession)
    → text_eq hash gone ≡ false
    → scalar (has_token hash) (filter_by (λ s. not (has_token gone s)) ss)
      ≡ scalar (has_token hash) ss
unfolding scalar
filter_by-others hash gone [] other = refl
filter_by-others hash gone (s ∷ ss) other = elim (Bool-cases (has_token gone s)) [
  | inl hit ↦
      let e = (eq_iff s.token_hash gone).0 hit in
      let miss : has_token hash s ≡ false =
        rw e (ground (arith, other, eq_iff hash gone, eq_iff gone hash)) in
      ground (arith, hit, miss, filter_by-others hash gone ss other)
  | inr kept ↦ ground (arith, kept, filter_by-others hash gone ss other)
]

module _ (site : Site) where
  -- The request carries the token of a live session of the user.
  abbrev pub HasSession : Carrier → ℕ → AccountDb → User → Type 0
  HasSession carrier now db u =
      (token : String) × (s : UserSession) × (session_token site carrier ≡ some token)
      × IsLive site.secrets token now db u s

  refused_nobody :
      (r : Option User × AccountDb)
      → r.0 ≡ none
      → (signed_in_or_401 r).0 ≡ refused 401 user_required
  refused_nobody (none, db) h = refl
  refused_nobody (some u, db) h = cc

  pub get_current_user_live :
      (carrier : Carrier) (now : ℕ) (db : AccountDb) (u : User)
      → HasSession carrier now db u
      → get_current_user site carrier now db ≡ (done u, db)
  unfolding get_current_user
  get_current_user_live carrier now db u (token, s, carried, live) =
      rw (get_current_user, carried)
        (rw (user_from_token_live site.secrets token now db u s live) refl)

  -- A request that needs a signed-in user acts as the user of a session whose token it carries and that
  -- has not expired, and changes no row by that; without such a session it is refused with 401
  -- `user_required`, whatever else it carries.
  pub get_current_user_rule :
      (carrier : Carrier) (now : ℕ) (db : AccountDb)
      → ((u : User) × HasSession carrier now db u
          × (get_current_user site carrier now db ≡ (done u, db)))
        ⊎ (((u : User) → ¬ HasSession carrier now db u)
            × ((get_current_user site carrier now db).0 ≡ refused 401 user_required))
  unfolding get_current_user
  get_current_user_rule carrier now db = elim (Option-cases (session_token site carrier)) [
    | inl missing ↦ inr (λ u h. ground (arith, missing, h.2), rw (get_current_user, missing) refl)
    | inr (token, carried) ↦ elim (user_from_token_cases site.secrets token now db) [
      | inl (u, s, live) ↦ inl (
        u,
        (token, s, carried, live),
        get_current_user_live carrier now db u (token, s, carried, live),
      )
      | inr (dead, nobody) ↦ inr (
        λ u h.
            let same : h.0 ≡ token = ground (arith, carried, h.2) in
            dead u h.1 (subst (λ t. IsLive site.secrets t now db u h.1) same h.3),
        rw (get_current_user, carried)
            (refused_nobody (user_from_token site.secrets token now db) nobody),
      )
    ]
  ]

  current_token_carried :
      (carrier : Carrier) (token : String) (db : AccountDb)
      → session_token site carrier ≡ some token
      → current_token site carrier db ≡ (done token, db)
  unfolding current_token
  current_token_carried carrier token db carried = rw (current_token, carried) refl

  logout_live :
      (carrier : Carrier) (now : ℕ) (db : AccountDb) (u : User)
      → (h : HasSession carrier now db u) → logout site carrier now db ≡ sign_out site h.0 db
  unfolding logout
  logout_live carrier now db u h =
      bind-done (get_current_user site carrier now)
        (λ user. current_token site carrier >>= λ token. sign_out site token) db db u
        (get_current_user_live carrier now db u h)
      ∙ bind-done (current_token site carrier) (sign_out site) db db h.0
          (current_token_carried carrier h.0 db h.2)

  revoked_nobody :
      (token : String) (now : ℕ) (db : AccountDb)
      → (user_from_token site.secrets token now (revoke_session site.secrets token db)).0 ≡ none
  unfolding user_from_token revoke_session
  revoked_nobody token now db =
      rw
        (
          user_from_token,
          revoke_session,
          filter_by-none (has_token (site.secrets.token_hash token)) db.sessions,
        )
        refl

  -- A sign-out with a live session answers 204 and clears the cookie; from then on the same request is
  -- refused with 401 at any time, and the session of every token with another hash is as it was.
  pub logout_rule :
      (carrier : Carrier) (now later : ℕ) (db : AccountDb) (u : User) (hash : String)
      (h : HasSession carrier now db u)
      → text_eq hash (site.secrets.token_hash h.0) ≡ false
      → (db' : AccountDb) × (logout site carrier now db
          ≡ (done (record { status = 204; body = no_content; cookie = some delete_cookie }), db'))
        × ((get_current_user site carrier later db').0 ≡ refused 401 user_required)
        × (scalar (has_token hash) db'.sessions ≡ scalar (has_token hash) db.sessions)
  unfolding get_current_user
  logout_rule carrier now later db u hash h other =
      let db' = revoke_session site.secrets h.0 db in
      (
        db',
        logout_live carrier now db u h,
        rw (get_current_user, h.2)
            (refused_nobody (user_from_token site.secrets h.0 later db')
              (revoked_nobody h.0 later db)),
        unfold revoke_session in
            filter_by-others hash (site.secrets.token_hash h.0) db.sessions other,
      )

  -- The cookie that a successful sign-in sets lets its holder in until the session expires: the profile
  -- is the one that the sign-in answered with, and no row changes. Conditions: the ids and tokens of the
  -- rows are unique and sessions belong to accounts, and the token is not the empty text.
  pub login_shows_profile :
      (email password token : String) (now later : ℕ) (db db' : AccountDb) (answer : Answer)
      (out : UserOut) (t : String)
      → IsSound site.secrets db
      → login site email password token now db ≡ (done answer, db')
      → answer.body ≡ auth_out out t
      → or_none t ≡ some t
      → later < now + session_ttl site
      → get_me site (record { authorization = none; session_cookie = some t }) later db'
        ≡ (done (record { status = 200; body = user_out out; cookie = none }), db')
  unfolding get_me session_token starts_with_bearer
  login_shows_profile email password token now later db db' answer out t v signs names carried
        early =
      let (opened, made, (own, (s, found, whose, ends))) =
        subst
          (Ends (IsSound site.secrets) (CanFail site email token db)
            (Signed site 200 (now + session_ttl site)))
          signs (login-Ends site email password token now db v) in
      let same : opened.1 ≡ t = ground (arith, made, names) in
      let shown : as_user_out site opened.0 ≡ out = ground (arith, made, names) in
      let carrier : Carrier = record { authorization = none; session_cookie = some t } in
      let live : HasSession carrier later db' opened.0 = (
        t,
        s,
        carried,
        (
          subst (λ x. scalar (has_token (site.secrets.token_hash x)) db'.sessions ≡ some s) same
              found,
          ground (arith, early, ends),
          rw whose own.1,
        ),
      ) in
      bind-done (get_current_user site carrier later) (give_profile site) db' db' opened.0
        (get_current_user_live carrier later db' opened.0 live)
      ∙ rw shown refl
