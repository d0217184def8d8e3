-- ===== src/Sockets/Endpoint.antt =====
-- backend/app/api/ws.py: the socket of a client, whom it is bound to, and what happens to it in turn with the
-- account requests and the messages of the rest of the application. `loads` is what json.loads gives, if it
-- raises no ValueError; a value that is neither text nor asked for is `other`.
use mad_devs_transport_shari.Prelude.{
  ℕ, Bool, false, Option, none, some, List, [], ◌∷◌, if◌then◌else◌,
}
use mad_devs_transport_shari.Text.{String, text_eq}
use mad_devs_transport_shari.Models.{User}
use mad_devs_transport_shari.Accounts.{AccountDb, user_from_token}
use mad_devs_transport_shari.AccountApi.{Site, or_none, cookie_or_none}
use mad_devs_transport_shari.AccountApi.Endpoints.{AccountRequest, serve_account}
use mad_devs_transport_shari.Sockets.{Hub, register, identify, unregister, broadcast, send_to_user}

pub data Value : Type 0 where
  text : String → Value
  other : Value

pub data Json : Type 0 where
  object : List (String × Value) → Json
  not_an_object : Json

-- `message.get(key)`
unfoldable pub field : String → List (String × Value) → Option Value
field key [] = none
field key ((name, value) ∷ fields) = if text_eq name key then some value else field key fields

abbrev pub is_identify : Option Value → Bool
is_identify none = false
is_identify (some other) = false
is_identify (some (text kind)) = text_eq kind "identify"

-- `token if isinstance(token, str) and token else None`
abbrev pub token_text : Option Value → Option String
token_text none = none
token_text (some other) = none
token_text (some (text token)) = or_none token

abbrev pub token_of : Option Json → Option String
token_of none = none
token_of (some not_an_object) = none
token_of (some (object fields)) =
    if is_identify (field "type" fields) then token_text (field "token" fields) else none

abbrev pub user_id_or_none : Option User × AccountDb → Option ℕ × AccountDb
user_id_or_none (none, db) = (none, db)
user_id_or_none (some user, db) = (some user.id, db)

-- The hub and the tables that a socket is checked against.
pub record Process : Type 0 where
  pub hub : Hub
  pub accounts : AccountDb

-- What a client or the rest of the application does; a client is registered before it is checked.
pub data Turn : Type 0 where
  opens : (client : ℕ) → Turn
  shakes_hands : (client : ℕ) (cookie : Option String) (now : ℕ) → Turn
  receives : (client : ℕ) (raw : String) (now : ℕ) → Turn
  closes : (client : ℕ) → Turn
  requests : AccountRequest → Turn
  tells_everyone : (fails : ℕ → Bool) → Turn
  tells_user : (fails : ℕ → Bool) (user_id : ℕ) → Turn

module _ (site : Site) (loads : String → Option Json) where
  unfoldable pub session_user_id : Option String → ℕ → AccountDb → Option ℕ × AccountDb
  session_user_id token now db = elim (cookie_or_none token) [
    | none ↦ (none, db)
    | some carried ↦ user_id_or_none (user_from_token site.secrets carried now db)
  ]

  unfoldable pub parse_identify : String → Option String
  parse_identify raw = token_of (loads raw)

  -- `if user_id is not None: hub.identify(websocket, user_id)`
  abbrev pub bound_to : ℕ → Hub → Option ℕ × AccountDb → Process
  bound_to client hub (none, db) = record { hub = hub; accounts = db }
  bound_to client hub (some user_id, db) = record {
    hub = identify client user_id hub;
    accounts = db;
  }

  -- A token is looked up and its user bound in one turn.
  unfoldable pub authenticate_socket : ℕ → Option String → ℕ → Process → Process
  authenticate_socket client token now p =
      bound_to client p.hub (session_user_id token now p.accounts)

  unfoldable pub take_turn : Turn → Process → Process
  take_turn (opens client) p = record p { hub = register client p.hub }
  take_turn (shakes_hands client cookie now) p = authenticate_socket client cookie now p
  take_turn (receives client raw now) p = authenticate_socket client (parse_identify raw) now p
  take_turn (closes client) p = record p { hub = unregister client p.hub }
  take_turn (requests q) p = record p { accounts = (serve_account site q p.accounts).1 }
  take_turn (tells_everyone fails) p = record p { hub = broadcast fails p.hub }
  take_turn (tells_user fails user_id) p = record p { hub = (send_to_user fails user_id p.hub).1 }

  unfoldable pub take_turns : List Turn → Process → Process
  take_turns [] p = p
  take_turns (t ∷ turns) p = take_turns turns (take_turn t p)
