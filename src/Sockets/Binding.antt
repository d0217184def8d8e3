-- ===== src/Sockets/Binding.antt =====
-- backend/app/api/ws.py, realtime/hub.py: who a socket is bound to, and so who gets the personal messages.
use mad_devs_transport_shari.Prelude.{
  ℕ, ◌≡◌, refl, ◌∙◌, Bool, true, false, ◌&&◌, ◌||◌, Option, none, some, List, [], ◌∷◌, ◌++◌, map,
  arith, ◌==◌, ==_iff, if◌then◌else◌, Bool-cases, Option-cases, inl, inr, ◌⊎◌, ap, is_some, subst,
}
use mad_devs_transport_shari.Text.{String}
use mad_devs_transport_shari.Table.{get, put}
use mad_devs_transport_shari.Models.{User}
use mad_devs_transport_shari.Accounts.{UserSession, AccountDb, user_from_token}
use mad_devs_transport_shari.AccountApi.{Site, cookie_or_none}
use mad_devs_transport_shari.AccountApi.Sessions.{
  IsLive, user_from_token_live, user_from_token_cases,
}
use mad_devs_transport_shari.Sockets.{
  Socket, Hub, client_key, register, identify, unregister, deliver, broadcast, is_owned, targets,
  send_to_user,
}
use mad_devs_transport_shari.Sockets.Delivery.{among}
use mad_devs_transport_shari.Sockets.Endpoint.{
  Json, Process, Turn, opens, shakes_hands, receives, closes, requests, tells_everyone, tells_user,
  session_user_id, parse_identify, authenticate_socket, bound_to, user_id_or_none, take_turn,
  take_turns,
}

-- A personal message to user `u` goes to the client.
unfoldable pub reaches : ℕ → ℕ → Hub → Bool
reaches u client [] = false
reaches u client (s ∷ hub) = (is_owned u s && s.client == client) || reaches u client hub

among-reaches : (u client : ℕ) (hub : Hub) → reaches u client hub ≡ among client (targets u hub)
unfolding reaches among
among-reaches u client [] = refl
among-reaches u client (s ∷ hub) = ground (arith, among-reaches u client hub)

reaches-append :
    (u client : ℕ) (hub : Hub) (s : Socket)
    → reaches u client (hub ++ s ∷ [])
      ≡ (reaches u client hub || (is_owned u s && s.client == client))
unfolding reaches
reaches-append u client [] s = ground arith
reaches-append u client (x ∷ hub) s = ground (arith, reaches-append u client hub s)

-- The row of another client, or of no user, adds nothing.
reaches-put :
    (u client : ℕ) (s : Socket) (hub : Hub)
    → (is_owned u s && s.client == client) ≡ false
    → reaches u client (put client_key s hub) ≡ true
    → reaches u client hub ≡ true
unfolding reaches put
reaches-put u client s [] silent h = h
reaches-put u client s (x ∷ hub) silent h =
    elim (Bool-cases (reaches u client (put client_key s hub))) [
      | inl later ↦ ground (arith, reaches-put u client s hub silent later)
      | inr none_later ↦ ground (arith, h, none_later, silent)
    ]

reaches-unregister :
    (u client gone : ℕ) (hub : Hub)
    → reaches u client (unregister gone hub) ≡ true
    → reaches u client hub ≡ true
unfolding reaches unregister
reaches-unregister u client gone [] h = h
reaches-unregister u client gone (x ∷ hub) h =
    elim (Bool-cases (reaches u client (unregister gone hub))) [
      | inl later ↦ ground (arith, reaches-unregister u client gone hub later)
      | inr none_later ↦ ground (arith, h, none_later)
    ]

reaches-deliver :
    (u client : ℕ) (fails : ℕ → Bool) (clients : List ℕ) (hub : Hub)
    → reaches u client (deliver fails clients hub) ≡ true
    → reaches u client hub ≡ true
unfolding deliver
reaches-deliver u client fails [] hub h = h
reaches-deliver u client fails (c ∷ clients) hub h =
    let next = if fails c then unregister c hub else hub in
    let kept : reaches u client next ≡ true = reaches-deliver u client fails clients next h in
    elim (Bool-cases (fails c)) [
      | inl lost ↦ reaches-unregister u client c hub (ground (arith, kept, lost))
      | inr fine ↦ ground (arith, kept, fine)
    ]

reaches-register :
    (u client c : ℕ) (hub : Hub)
    → reaches u client (register c hub) ≡ true
    → reaches u client hub ≡ true
unfolding register
reaches-register u client c hub h =
    let fresh : Socket = record { client = c; owner = none } in
    elim (Bool-cases (is_some (get client_key c hub))) [
      | inl there ↦ reaches-put u client fresh hub refl (ground (arith, h, there))
      | inr absent ↦ ground (arith, h, absent, reaches-append u client hub fresh)
    ]

reaches-identify :
    (u client c v : ℕ) (hub : Hub)
    → reaches u client (identify c v hub) ≡ true
    → (reaches u client hub ≡ true) ⊎ ((c ≡ client) × (v ≡ u))
unfolding identify
reaches-identify u client c v hub h = elim (Bool-cases (v == u && c == client)) [
  | inl own ↦ inr ((==_iff c client).0 (ground (arith, own)), (==_iff v u).0 (ground (arith, own)))
  | inr apart ↦ inl (reaches-put u client (record { client = c; owner = some v }) hub apart h)
]

module _ (site : Site) (loads : String → Option Json) where
  -- The token is the one of a live session of user `u`.
  abbrev pub Proves : Option String → ℕ → AccountDb → ℕ → Type 0
  Proves token now db u =
      (carried : String) × (user : User) × (s : UserSession) × (cookie_or_none token ≡ some carried)
      × IsLive site.secrets carried now db user s
      × (user.id ≡ u)

  -- In this turn the client carries such a token, in its cookie or in an `identify` message.
  abbrev pub Presents : ℕ → ℕ → Turn → Process → Type 0
  Presents u client (opens c) p = ⊥
  Presents u client (shakes_hands c cookie now) p = (c ≡ client) × Proves cookie now p.accounts u
  Presents u client (receives c raw now) p =
      (c ≡ client) × Proves (parse_identify site loads raw) now p.accounts u
  Presents u client (closes c) p = ⊥
  Presents u client (requests q) p = ⊥
  Presents u client (tells_everyone fails) p = ⊥
  Presents u client (tells_user fails v) p = ⊥

  abbrev pub Presented : ℕ → ℕ → List Turn → Process → Type 0
  Presented u client [] p = ⊥
  Presented u client (t ∷ turns) p =
      Presents u client t p ⊎ Presented u client turns (take_turn site loads t p)

  nobody-nobody : (r : Option User × AccountDb) → r.0 ≡ none → (user_id_or_none r).0 ≡ none
  nobody-nobody (none, db) h = refl
  nobody-nobody (some user, db) h = ground (arith, h)

  bound :
      (u client c : ℕ) (hub : Hub) (r : Option ℕ × AccountDb)
      → reaches u client (bound_to site loads c hub r).hub ≡ true
      → (reaches u client hub ≡ true) ⊎ ((c ≡ client) × (r.0 ≡ some u))
  bound u client c hub (none, db) h = inl h
  bound u client c hub (some v, db) h = elim (reaches-identify u client c v hub h) [
    | inl before ↦ inl before
    | inr (same, own) ↦ inr (same, ap (λ x. some x) own)
  ]

  -- Whom a token proves, if it proves anyone.
  proved :
      (token : Option String) (now : ℕ) (db : AccountDb)
      → ((v : ℕ) × ((session_user_id site loads token now db).0 ≡ some v) × Proves token now db v)
        ⊎ ((session_user_id site loads token now db).0 ≡ none)
  unfolding session_user_id
  proved token now db = elim (Option-cases (cookie_or_none token)) [
    | inl missing ↦ inr rw (session_user_id, missing) refl
    | inr (carried, e) ↦ elim (user_from_token_cases site.secrets carried now db) [
      | inl (user, s, live) ↦ inl (
        user.id,
        rw (session_user_id, e)
            (rw (user_from_token_live site.secrets carried now db user s live) refl),
        (carried, user, s, e, live, refl),
      )
      | inr (dead, nobody) ↦
          inr rw (session_user_id, e)
            (nobody-nobody (user_from_token site.secrets carried now db) nobody)
    ]
  ]

  authenticated :
      (u client c : ℕ) (token : Option String) (now : ℕ) (p : Process)
      → reaches u client (authenticate_socket site loads c token now p).hub ≡ true
      → (reaches u client p.hub ≡ true) ⊎ ((c ≡ client) × Proves token now p.accounts u)
  unfolding authenticate_socket
  authenticated u client c token now p h =
      elim (bound u client c p.hub (session_user_id site loads token now p.accounts) h) [
        | inl before ↦ inl before
        | inr (same, own) ↦ elim (proved token now p.accounts) [
          | inl (v, found, proof) ↦
              inr (same, subst (Proves token now p.accounts) (ground (arith, found, own)) proof)
          | inr nobody ↦ absurd (ground (arith, nobody, own))
        ]
      ]

  turn-reaches :
      (u client : ℕ) (t : Turn) (p : Process)
      → reaches u client (take_turn site loads t p).hub ≡ true
      → (reaches u client p.hub ≡ true) ⊎ Presents u client t p
  unfolding take_turn send_to_user broadcast
  turn-reaches u client (opens c) p h = inl (reaches-register u client c p.hub h)
  turn-reaches u client (shakes_hands c cookie now) p h = authenticated u client c cookie now p h
  turn-reaches u client (receives c raw now) p h =
      authenticated u client c (parse_identify site loads raw) now p h
  turn-reaches u client (closes c) p h = inl (reaches-unregister u client c p.hub h)
  turn-reaches u client (requests q) p h = inl h
  turn-reaches u client (tells_everyone fails) p h =
      inl (reaches-deliver u client fails (map client_key p.hub) p.hub h)
  turn-reaches u client (tells_user fails v) p h =
      inl (reaches-deliver u client fails (targets v p.hub) p.hub h)

  bound_before :
      (u client : ℕ) (turns : List Turn) (p : Process)
      → reaches u client (take_turns site loads turns p).hub ≡ true
      → (reaches u client p.hub ≡ true) ⊎ Presented u client turns p
  unfolding take_turns
  bound_before u client [] p h = inl h
  bound_before u client (t ∷ turns) p h =
      elim (bound_before u client turns (take_turn site loads t p) h) [
        | inr later ↦ inr (inr later)
        | inl now ↦ elim (turn-reaches u client t p now) [
          | inl before ↦ inl before
          | inr presents ↦ inr (inl presents)
        ]
      ]

  -- After any history of sockets opening, sending anything and closing, of account requests and of messages,
  -- from a process without sockets: if a personal message to user `u` would go to a client now, then this
  -- client has, in one of these turns, carried the token of a session of `u` that was live at that moment,
  -- in its cookie or in an `identify` message. Nothing else that it sends binds it.
  pub personal_messages_stay_personal :
      (u client : ℕ) (turns : List Turn) (db : AccountDb)
      → among client
          (targets u (take_turns site loads turns (record { hub = []; accounts = db })).hub)
        ≡ true
      → Presented u client turns (record { hub = []; accounts = db })
  unfolding reaches
  personal_messages_stay_personal u client turns db h =
      let empty : Process = record { hub = []; accounts = db } in
      elim (bound_before u client turns empty
        (among-reaches u client (take_turns site loads turns empty).hub ∙ h)) [
          | inl early ↦ absurd (ground (arith, early))
          | inr presented ↦ presented
        ]
