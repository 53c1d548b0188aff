-- ===== src/Api/EachRoute.antt =====
-- What each route of internal/api/api.go leaves alone.
use onionmsg.Base.{
  ◌≡◌, ◌≢◌, refl, ap, ◌∙◌, Bool, true, false, inl, inr, if◌then◌else◌, ltb, List, [], ◌∷◌, none,
  Bytes, length, Error, codes, arith, malformed_json, ok-injective, Option-cases,
}
use onionmsg.Exec.{Exec}
use onionmsg.Sync.{file_of}
use onionmsg.Blob.{stream_to}
use onionmsg.Message.{content}
use onionmsg.Command.{construct_command}
use onionmsg.Api.Requests.{
  Request, Response, Codec, Backend, Host, bad_request, internal_server_error, http_error, on_core,
  respond, try, read_all, reply_from_header, empty, write_body, set_json_content_header,
}
use onionmsg.Api.Routes.{
  max_message_size, refused, malformed, of_option, form_id, send_blob, delete_named, create_with,
  send_message, send_content, message_type, count_of, route_blob, route_contact_create,
  route_request_accept, route_request_delete, route_room_info, route_room_list, route_room_create,
  route_room_delete, route_room_messages, route_room_command_useradd,
}
use onionmsg.Api.Blame.{Blames, answered-Blames, last-Blames, answered-still}

module _ {S : Type 0} where
  module _ (k : Codec) (b : Backend S) where
    pub refused-fine : (e : Error) → (refused k b internal_server_error e).status ≢ bad_request
    unfolding refused http_error
    refused-fine e = λ h. ground arith

    pub empty-fine : empty.status ≢ bad_request
    empty-fine = λ h. ground arith

    pub send_blob-still :
        (req : Request) (id : Bytes) (h : Host S)
        → (send_blob k b req id (file_of id h.blobs) h).1 ≡ h
    unfolding send_blob stream_to
    send_blob-still req id h = elim (Option-cases (file_of id h.blobs)) [
      | inl e ↦ rw e refl
      | inr (raw, e) ↦ rw (e, stream_to, e) refl
    ]

    pub route_blob-still : (req : Request) (h : Host S) → (route_blob k b req h).1 ≡ h
    unfolding route_blob
    route_blob-still req h =
        answered-still (form_id k b (codes "uuid") req) (refused k b bad_request) _ h
          (λ id. send_blob-still req id h)

    pub room_info-still : (req : Request) (h : Host S) → (route_room_info k b req h).1 ≡ h
    unfolding route_room_info
    room_info-still req h =
        answered-still (form_id k b (codes "uuid") req) (malformed k b) _ h
          (λ id. answered-still (b.room_info id h.core) _ _ h (λ i. refl))

    pub room_list-still : (req : Request) (h : Host S) → (route_room_list k b req h).1 ≡ h
    unfolding route_room_list
    room_list-still req h = answered-still (b.rooms h.core) _ _ h (λ i. refl)

    pub room_messages-still : (req : Request) (h : Host S) → (route_room_messages k b req h).1 ≡ h
    unfolding route_room_messages
    room_messages-still req h =
        answered-still (count_of k b (req.form_value (codes "count"))) _ _ h (λ n.
          answered-still (b.list_messages (req.form_value (codes "uuid")) n h.core) _ _ h
            (λ ms. refl))

    pub call-Blames :
        (m : Exec S (Unit {0}))
        → Blames (try (on_core m) (refused k b internal_server_error) (λ u. respond empty))
    call-Blames m =
        last-Blames m (refused k b internal_server_error) (λ u. empty) refused-fine
          (λ u. empty-fine)

    pub if-Blames :
        (c : Bool) (w : Response) (m : Exec (Host S) Response)
        → Blames m
        → Blames (if c then respond w else m)
    if-Blames true w m calm = λ h v e1 e2. refl
    if-Blames false w m calm = calm

    pub send_content-Blames :
        (command : Bytes) (req : Request) (raw : Bytes) → Blames (send_content k b command req raw)
    unfolding send_content
    send_content-Blames command req raw =
        answered-Blames (reply_from_header k req) (refused k b bad_request) _ λ reply. call-Blames (
          b.send_message (req.form_value (codes "uuid"))
            (content (message_type k b command) reply none (construct_command raw command)))

    pub send_message-Blames :
        (command : Bytes) (req : Request) → Blames (send_message k b command req)
    unfolding send_message
    send_message-Blames command req =
        answered-Blames (read_all req.body) (refused k b bad_request) _ λ raw.
          if-Blames (ltb max_message_size (length raw)) _ (send_content k b command req raw)
            (send_content-Blames command req raw)

    pub contact_create-Blames : (req : Request) → Blames (route_contact_create k b req)
    unfolding route_contact_create write_body set_json_content_header
    contact_create-Blames req =
        last-Blames b.create_contact_id (refused k b internal_server_error) _ refused-fine
          (λ fp e. ground arith)

    pub delete_named-Blames : (fp : Bytes) → Blames (delete_named k b fp)
    unfolding delete_named
    delete_named-Blames [] = λ h w e1 e2. refl
    delete_named-Blames (c ∷ fp) = call-Blames (b.delete_contact (c ∷ fp))

    pub request_accept-Blames : (req : Request) → Blames (route_request_accept k b req)
    unfolding route_request_accept
    request_accept-Blames req =
        answered-Blames (form_id k b (codes "uuid") req) (malformed k b) _
          λ id. call-Blames (b.accept_room_request id)

    -- The removal of a request gives no error.
    pub request_delete-Blames : (req : Request) → Blames (route_request_delete k b req)
    unfolding route_request_delete
    request_delete-Blames req =
        answered-Blames (form_id k b (codes "uuid") req) (malformed k b) _ λ id h w e1 bad. absurd (
          let e2 : empty ≡ w = ok-injective e1 in
          let e3 : 200 ≡ bad_request = ap (λ v. v.status) e2 ∙ bad in omega arith)

    pub create_with-Blames : (ids : List Bytes) → Blames (create_with k b ids)
    unfolding create_with
    create_with-Blames [] = λ h w e1 e2. refl
    create_with-Blames (id ∷ ids) = call-Blames (b.create_room (id ∷ ids))

    pub room_create-Blames : (req : Request) → Blames (route_room_create k b req)
    unfolding route_room_create
    room_create-Blames req = answered-Blames (read_all req.body) (refused k b bad_request) _ λ raw.
        answered-Blames (of_option k b malformed_json (k.unmarshal_ids raw))
          (refused k b bad_request) _ create_with-Blames

    pub room_delete-Blames : (req : Request) → Blames (route_room_delete k b req)
    unfolding route_room_delete
    room_delete-Blames req = call-Blames (b.delete_room (req.form_value (codes "uuid")))

    pub useradd-Blames : (req : Request) → Blames (route_room_command_useradd k b req)
    unfolding route_room_command_useradd
    useradd-Blames req =
        answered-Blames (form_id k b (codes "uuid") req) (refused k b bad_request) _ λ id.
          answered-Blames (read_all req.body) (refused k b bad_request) _
            λ fp. call-Blames (b.add_peer_to_room id fp)
