-- ===== src/Sockets/Delivery.antt =====
-- backend/app/realtime/hub.py: who gets a message, and who is dropped.
use mad_devs_transport_shari.Prelude.{
  ℕ, ◌≡◌, refl, Bool, false, ◌&&◌, ◌||◌, Option, none, some, List, [], ◌∷◌, map, arith, ◌==◌,
  ==_iff, if◌then◌else◌, Bool-cases, inl, inr, ap, is_some,
}
use mad_devs_transport_shari.Table.{scalar, get, count, IsKeyed}
use mad_devs_transport_shari.Table.Laws.{IsKeyed-tail, scalar-count_zero}
use mad_devs_transport_shari.Sockets.{
  Socket, Hub, client_key, unregister, deliver, broadcast, is_owned, targets, send_to_user,
}

unfoldable pub among : ℕ → List ℕ → Bool
among c [] = false
among c (d ∷ ds) = (d == c) || among c ds

unregister-get :
    (c d : ℕ) (hub : Hub)
    → get client_key c (unregister d hub) ≡ (if d == c then none else get client_key c hub)
unfolding unregister scalar
unregister-get c d [] = ground arith
unregister-get c d (s ∷ hub) = ground (arith, unregister-get c d hub)

deliver-get :
    (fails : ℕ → Bool) (c : ℕ) (ds : List ℕ) (hub : Hub)
    → get client_key c (deliver fails ds hub)
      ≡ (if fails c && among c ds then none else get client_key c hub)
unfolding deliver among
deliver-get fails c [] hub = ground arith
deliver-get fails c (d ∷ ds) hub = elim (Bool-cases (d == c)) [
  | inl same ↦
      let e : fails d ≡ fails c = ap fails ((==_iff d c).0 same) in
      ground (
        arith,
        same,
        e,
        unregister-get c d hub,
        deliver-get fails c ds (if fails d then unregister d hub else hub),
      )
  | inr ne ↦ ground (
    arith,
    ne,
    unregister-get c d hub,
    deliver-get fails c ds (if fails d then unregister d hub else hub),
  )
]

-- Does a client belong to the user?
abbrev pub belongs : ℕ → Option Socket → Bool
belongs u none = false
belongs u (some s) = is_owned u s

targets-among :
    (u c : ℕ) (hub : Hub)
    → IsKeyed client_key hub
    → among c (targets u hub) ≡ belongs u (get client_key c hub)
unfolding among scalar count
targets-among u c [] keyed = refl
targets-among u c (s ∷ hub) keyed = ground (
  arith,
  keyed c,
  targets-among u c hub (IsKeyed-tail client_key s hub keyed),
  scalar-count_zero (λ x. client_key x == c) hub,
)

among_all : (c : ℕ) (hub : Hub) → among c (map client_key hub) ≡ is_some (get client_key c hub)
unfolding among scalar
among_all c [] = refl
among_all c (s ∷ hub) = ground (arith, among_all c hub)

-- Of clients that are registered once each: after a message to a user a client is gone if it belongs
-- to this user and sending to it failed; every other client is as it was, with its user.
pub send_to_user_drops :
    (fails : ℕ → Bool) (u c : ℕ) (hub : Hub)
    → IsKeyed client_key hub
    → get client_key c (send_to_user fails u hub).1
      ≡ (if fails c && belongs u (get client_key c hub) then none else get client_key c hub)
unfolding send_to_user
send_to_user_drops fails u c hub keyed =
    ground (arith, targets-among u c hub keyed, deliver-get fails c (targets u hub) hub)

-- A broadcast drops exactly the clients for which sending failed, and every other client keeps its
-- user.
broadcast_drops :
    (fails : ℕ → Bool) (c : ℕ) (hub : Hub)
    → get client_key c (broadcast fails hub) ≡ (if fails c then none else get client_key c hub)
unfolding broadcast
broadcast_drops fails c hub =
    ground (arith, among_all c hub, deliver-get fails c (map client_key hub) hub)
