-- ===== src/Tests/Sockets.antt =====
-- The theorem on the sockets, at a client that names its token and one that sends noise.
use mad_devs_transport_shari.Prelude.{refl, false, Option, none, some, List, [], ◌∷◌, if◌then◌else◌}
use mad_devs_transport_shari.Text.{String, text_eq}
use mad_devs_transport_shari.Table.{scalar, put}
use mad_devs_transport_shari.Accounts.{user_from_token}
use mad_devs_transport_shari.Sockets.{register, identify, deliver, broadcast}
use mad_devs_transport_shari.Sockets.Delivery.{among}
use mad_devs_transport_shari.Sockets.Endpoint.{
  Json, object, not_an_object, text, field, Turn, opens, shakes_hands, receives, tells_everyone,
  session_user_id, parse_identify, authenticate_socket, take_turn, take_turns,
}
use mad_devs_transport_shari.Sockets.Binding.{Presented, personal_messages_stay_personal}
use mad_devs_transport_shari.Tests.Accounts.{accounts}
use mad_devs_transport_shari.Tests.Api.{site}

-- One message is an object, one is another value, the others are no JSON.
abbrev loads : String → Option Json
loads raw =
    if text_eq raw "identify phone"
    then some (object (("type", text "identify") ∷ ("token", text "phone") ∷ []))
    else if text_eq raw "[]"
    then some not_an_object
    else none

abbrev chatter : List Turn
chatter =
    opens 1
    ∷ shakes_hands 1 none 400
    ∷ opens 2
    ∷ receives 2 "[]" 450
    ∷ receives 1 "identify phone" 500
    ∷ tells_everyone (λ client. false)
    ∷ receives 2 "hello" 600
    ∷ []

personal_messages_stay_personal_example :
    Presented site loads 2 1 chatter (record { hub = []; accounts = accounts })
unfolding take_turns take_turn authenticate_socket session_user_id parse_identify user_from_token
    field register identify put scalar among deliver broadcast
personal_messages_stay_personal_example =
    personal_messages_stay_personal site loads 2 1 chatter accounts refl
