-- ===== src/Sockets.antt =====
-- backend/app/realtime/hub.py: the WebSocket clients and whom they belong to. A client is a number; the
-- dictionary is a list in its order of insertion. `fails` says for which clients sending raises.
pub mod Delivery
pub mod Endpoint
pub mod Binding
use mad_devs_transport_shari.Prelude.{
  ℕ, Bool, true, false, not, Option, none, some, List, [], ◌∷◌, ◌++◌, map, length, filter_by, ◌==◌,
  is_some, if◌then◌else◌,
}
use mad_devs_transport_shari.Table.{get, put}

pub record Socket : Type 0 where
  pub client : ℕ
  -- the user, once identified
  pub owner : Option ℕ

abbrev pub client_key : Socket → ℕ
client_key s = s.client

abbrev pub Hub : Type 0
Hub = List Socket

unfoldable pub client_count : Hub → ℕ
client_count hub = length hub

-- A client that is there already keeps its place and loses its user.
unfoldable pub register : ℕ → Hub → Hub
register client hub =
    let fresh : Socket = record { client = client; owner = none } in
    if is_some (get client_key client hub) then put client_key fresh hub else hub ++ fresh ∷ []

unfoldable pub identify : ℕ → ℕ → Hub → Hub
identify client user_id hub = put client_key (record { client = client; owner = some user_id }) hub

unfoldable pub unregister : ℕ → Hub → Hub
unregister client hub = filter_by (λ s. not (s.client == client)) hub

-- The loop over the results of the sends.
unfoldable pub deliver : (ℕ → Bool) → List ℕ → Hub → Hub
deliver fails [] hub = hub
deliver fails (client ∷ clients) hub =
    deliver fails clients (if fails client then unregister client hub else hub)

unfoldable pub broadcast : (ℕ → Bool) → Hub → Hub
broadcast fails hub = deliver fails (map client_key hub) hub

-- `owner == user_id`
abbrev pub is_owned : ℕ → Socket → Bool
is_owned user_id s = elim s.owner [ none ↦ false | some u ↦ u == user_id ]

abbrev pub targets : ℕ → Hub → List ℕ
targets user_id hub = map client_key (filter_by (is_owned user_id) hub)

-- The number of the sockets that the message was sent to, and the clients that are left.
unfoldable pub send_to_user : (ℕ → Bool) → ℕ → Hub → ℕ × Hub
send_to_user fails user_id hub =
    (length (targets user_id hub), deliver fails (targets user_id hub) hub)
