-- ===== src/Api/Calm.antt =====
-- Which requests leave the daemon alone, for the paths of internal/api/api.go.
use onionmsg.Base.{
  ◌≡◌, ◌≢◌, refl, sym, Bool-cases, inl, inr, List, [], ◌∷◌, Bytes, ok, codes, same, same_iff, All,
}
use onionmsg.Exec.{Exec}
use onionmsg.Command.{name_room, nick, promote, remove_peer}
use onionmsg.Api.Requests.{
  Request, Response, Codec, Backend, Host, Handler, bad_request, not_found, http_error, respond,
}
use onionmsg.Api.Routes.{
  route_status, route_tor_info, route_blob, route_contact_list, route_contact_delete,
  route_request_list, route_room_info, route_room_list, route_room_send_message,
  route_room_messages, route_room_command_name_room, route_room_command_set_nick,
  route_room_command_promote, route_room_command_remove_peer,
}
use onionmsg.Api.Paths.{paths, dispatch, serve}
use onionmsg.Api.Blame.{Blames, still-Blames}
use onionmsg.Api.EachRoute.{
  route_blob-still, room_info-still, room_list-still, room_messages-still, send_message-Blames,
  contact_create-Blames, delete_named-Blames, request_accept-Blames, request_delete-Blames,
  room_create-Blames, room_delete-Blames, useradd-Blames,
}

module _ {S : Type 0} where
  module _ (k : Codec) (b : Backend S) where
    dispatch-All :
        (P : Exec (Host S) Response → Type 0) (path : Bytes) (req : Request)
        (table : List (Bytes × Handler S))
        → P (respond (http_error (codes "404 page not found") not_found))
        → All (λ (p, handler). p ≡ path → P (handler req)) table
        → P (dispatch k b table path req)
    unfolding dispatch
    dispatch-All P path req [] missing h = missing
    dispatch-All P path req ((p, handler) ∷ table) missing h = elim (Bool-cases (same p path)) [
      | inl e ↦ rw e (h.0 ((same_iff p path).0 e))
      | inr e ↦ rw e (dispatch-All P path req table missing h.1)
    ]

    -- A request that is answered with 400, to any path but that of files, has changed neither the
    -- state of the daemon nor the blobs, whatever the daemon's operations do.
    pub serve-Blames :
        (new_id path : Bytes) (req : Request) (h : Host S) (w : Response)
        → path ≢ codes "/v1/room/send/file"
        → (serve k b new_id path req h).0 ≡ ok w
        → w.status ≡ bad_request
        → (serve k b new_id path req h).1 ≡ h
    unfolding serve paths route_status route_tor_info route_contact_list route_request_list
        route_contact_delete route_room_send_message route_room_command_name_room
        route_room_command_set_nick route_room_command_promote route_room_command_remove_peer
    serve-Blames new_id path req h w other =
        dispatch-All Blames path req (paths k b new_id) (λ h w e1 e2. refl)
          (
            λ e h w e1 e2. refl,
            (
              λ e h w e1 e2. refl,
              (
                λ e. still-Blames (route_blob k b req) (route_blob-still k b req),
                (
                  λ e h w e1 e2. refl,
                  (
                    λ e. contact_create-Blames k b req,
                    (
                      λ e. delete_named-Blames k b (req.form_value (codes "fingerprint")),
                      (
                        λ e h w e1 e2. refl,
                        (
                          λ e. request_accept-Blames k b req,
                          (
                            λ e. request_delete-Blames k b req,
                            (
                              λ e. still-Blames (route_room_info k b req) (room_info-still k b req),
                              (
                                λ e.
                                    still-Blames (route_room_list k b req)
                                      (room_list-still k b req),
                                (
                                  λ e. room_create-Blames k b req,
                                  (
                                    λ e. room_delete-Blames k b req,
                                    (
                                      λ e. send_message-Blames k b [] req,
                                      (
                                        λ e. absurd (other (sym e)),
                                        (
                                          λ e.
                                              still-Blames (route_room_messages k b req)
                                                (room_messages-still k b req),
                                          (
                                            λ e. useradd-Blames k b req,
                                            (
                                              λ e. send_message-Blames k b name_room req,
                                              (
                                                λ e. send_message-Blames k b nick req,
                                                (
                                                  λ e. send_message-Blames k b promote req,
                                                  (
                                                    λ e. send_message-Blames k b remove_peer req,
                                                    tt,
                                                  ),
                                                ),
                                              ),
                                            ),
                                          ),
                                        ),
                                      ),
                                    ),
                                  ),
                                ),
                              ),
                            ),
                          ),
                        ),
                      ),
                    ),
                  ),
                ),
              ),
            ),
          )
          h w

    -- The paths that read.
    abbrev pub read_paths : List Bytes
    read_paths =
        codes "/v1/status"
        ∷ codes "/v1/tor"
        ∷ codes "/v1/blob"
        ∷ codes "/v1/contact/list"
        ∷ codes "/v1/request/list"
        ∷ codes "/v1/room/info"
        ∷ codes "/v1/room/list"
        ∷ codes "/v1/room/messages"
        ∷ []

    -- A request to a path that reads, whatever it asks for and however it is answered, changes neither
    -- the state of the daemon nor the blobs.
    pub serve-still :
        (new_id : Bytes) (req : Request) (h : Host S)
        → All (λ path. (serve k b new_id path req h).1 ≡ h) read_paths
    unfolding serve paths dispatch same route_status route_tor_info route_contact_list
        route_request_list
    serve-still new_id req h = (
      refl,
      (
        refl,
        (
          route_blob-still k b req h,
          (
            refl,
            (
              refl,
              (
                room_info-still k b req h,
                (room_list-still k b req h, (room_messages-still k b req h, tt)),
              ),
            ),
          ),
        ),
      ),
    )
