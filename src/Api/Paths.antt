-- ===== src/Api/Paths.antt =====
-- The paths that `Start` of internal/api/api.go registers, less the one of the websocket, and what the
-- server does with a request for a path.
use onionmsg.Base.{List, [], ◌∷◌, Bytes, same, if◌then◌else◌, codes}
use onionmsg.Api.Requests.{Codec, Backend, Handler, http_error, not_found, respond}
use onionmsg.Api.Routes.{
  route_status, route_tor_info, route_blob, route_contact_list, route_contact_create,
  route_contact_delete, route_request_list, route_request_accept, route_request_delete,
  route_room_info, route_room_list, route_room_create, route_room_delete, route_room_send_message,
  route_room_send_file, route_room_messages, route_room_command_useradd,
  route_room_command_name_room, route_room_command_set_nick, route_room_command_promote,
  route_room_command_remove_peer,
}

module _ {S : Type 0} (k : Codec) (b : Backend S) where
  -- `id` is what `uuid.New` returns.
  unfoldable pub paths : Bytes → List (Bytes × Handler S)
  paths id =
      (codes "/v1/status", route_status k b)
      ∷ (codes "/v1/tor", route_tor_info k b)
      ∷ (codes "/v1/blob", route_blob k b)
      ∷ (codes "/v1/contact/list", route_contact_list k b)
      ∷ (codes "/v1/contact/create", route_contact_create k b)
      ∷ (codes "/v1/contact/delete", route_contact_delete k b)
      ∷ (codes "/v1/request/list", route_request_list k b)
      ∷ (codes "/v1/request/accept", route_request_accept k b)
      ∷ (codes "/v1/request/delete", route_request_delete k b)
      ∷ (codes "/v1/room/info", route_room_info k b)
      ∷ (codes "/v1/room/list", route_room_list k b)
      ∷ (codes "/v1/room/create", route_room_create k b)
      ∷ (codes "/v1/room/delete", route_room_delete k b)
      ∷ (codes "/v1/room/send/message", route_room_send_message k b)
      ∷ (codes "/v1/room/send/file", route_room_send_file k b id)
      ∷ (codes "/v1/room/messages", route_room_messages k b)
      ∷ (codes "/v1/room/command/useradd", route_room_command_useradd k b)
      ∷ (codes "/v1/room/command/nameroom", route_room_command_name_room k b)
      ∷ (codes "/v1/room/command/setnick", route_room_command_set_nick k b)
      ∷ (codes "/v1/room/command/promote", route_room_command_promote k b)
      ∷ (codes "/v1/room/command/removepeer", route_room_command_remove_peer k b)
      ∷ []

  -- `http.ServeMux` looks a pattern without a slash at its end up as it stands.
  unfoldable pub dispatch : List (Bytes × Handler S) → Bytes → Handler S
  dispatch [] path req = respond (http_error (codes "404 page not found") not_found)
  dispatch ((p, handler) ∷ rest) path req =
      if same p path then handler req else dispatch rest path req

  unfoldable pub serve : Bytes → Bytes → Handler S
  unfolding paths dispatch
  serve id path req = dispatch (paths id) path req
