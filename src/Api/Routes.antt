-- ===== src/Api/Routes.antt =====
-- The routes of internal/api/api.go.
use onionmsg.Base.{
  ℕ, ◌^◌, if◌then◌else◌, ltb, List, [], ◌∷◌, ◌++◌, Option, none, some, Bytes, length, Outcome,
  Error, ok, err, panic, codes, malformed_json, malformed_number, malformed_uuid,
}
use onionmsg.Exec.{Exec, lift, ask}
use onionmsg.Message.{MessageContent, ContentType, Reply, content, text, cmd, file}
use onionmsg.Command.{construct_command, name_room, nick, promote, remove_peer}
use onionmsg.Daemon.Session.{append_blob}
use onionmsg.Sync.{file_of}
use onionmsg.Blob.{make_blob, write_into_file, stream_to}
use onionmsg.Api.Requests.{
  Request, Response, Codec, Backend, Host, Handler, bad_request, not_found, internal_server_error,
  empty, http_error, set_json_content_header, write_body, send_serialized, read_all,
  reply_from_header, on_core, respond, try,
}

-- 2 << 14
abbrev pub max_message_size : ℕ
max_message_size = 2 ^ 15

module _ {S : Type 0} (k : Codec) (b : Backend S) where
  -- `http.Error(w, err.Error(), code)`
  unfoldable pub refused : ℕ → Error → Response
  refused code e = http_error (k.error_text e) code

  unfoldable pub of_option : {A : Type 0} → Error → Option A → Outcome A
  of_option e none = err e
  of_option e (some a) = ok a

  abbrev pub form_id : Bytes → Request → Outcome Bytes
  form_id name req = of_option malformed_uuid (k.parse_uuid (req.form_value name))

  unfoldable pub malformed : Error → Response
  malformed e = http_error (codes "Malformed uuid") bad_request

  unfoldable pub route_status : Handler S
  route_status req =
      respond (write_body (codes "{\"status\":\"ok\"}") (set_json_content_header empty))

  unfoldable pub route_tor_info : Handler S
  route_tor_info req = respond (send_serialized k b.tor_info)

  -- The headers of a blob; the first only with a file name.
  unfoldable pub named_file : Bytes → Response → Response
  named_file [] w = w
  named_file (c ∷ name) w = record w {
    headers =
        w.headers
        ++ ((
          codes "Content-Disposition",
          codes "attachment; filename=\"" ++ ((c ∷ name) ++ codes "\""),
        )
            ∷ []);
  }

  unfoldable pub cached : Response → Response
  cached w = record w {
    headers =
        w.headers
        ++ ((codes "Cache-Control", codes "public, max-age=604800, immutable")
            ∷ (codes "Content-Type", codes "application/octet-stream")
            ∷ []);
  }

  unfoldable pub blob_response : Bytes → Bytes → Response
  unfolding named_file cached
  blob_response name raw = write_body raw (cached (named_file name empty))

  unfoldable pub send_blob : Request → Bytes → Option Bytes → Exec (Host S) Response
  unfolding blob_response
  send_blob req id none = respond (http_error (codes "Blob not found!") not_found)
  send_blob req id (some stat) = λ h.
      let (raw, bs) = stream_to id h.blobs in
      (ok (blob_response (req.form_value (codes "filename")) raw), record h { blobs = bs })

  unfoldable pub route_blob : Handler S
  unfolding send_blob refused of_option
  route_blob req =
      try (lift (form_id (codes "uuid") req)) (refused bad_request)
        λ id h. send_blob req id (file_of id h.blobs) h

  unfoldable pub route_contact_list : Handler S
  route_contact_list req h = (ok (send_serialized k (k.marshal_ids (b.list_contact_ids h.core))), h)

  unfoldable pub route_contact_create : Handler S
  unfolding refused
  route_contact_create req = try (on_core b.create_contact_id) (refused internal_server_error) λ fp.
      respond
        (write_body (codes "{\"id\":\"" ++ (fp ++ codes "\"}")) (set_json_content_header empty))

  unfoldable pub delete_named : Bytes → Exec (Host S) Response
  unfolding refused
  delete_named [] = respond (http_error (codes "Missing parameter \"fingerprint\"") bad_request)
  delete_named (c ∷ fp) =
      try (on_core (b.delete_contact (c ∷ fp))) (refused internal_server_error) λ u. respond empty

  unfoldable pub route_contact_delete : Handler S
  unfolding delete_named
  route_contact_delete req = delete_named (req.form_value (codes "fingerprint"))

  unfoldable pub route_request_list : Handler S
  route_request_list req h =
      (ok (send_serialized k (k.marshal_requests (b.request_list h.core))), h)

  unfoldable pub route_request_accept : Handler S
  unfolding refused malformed of_option
  route_request_accept req = try (lift (form_id (codes "uuid") req)) malformed λ id.
      try (on_core (b.accept_room_request id)) (refused internal_server_error) λ u. respond empty

  unfoldable pub route_request_delete : Handler S
  unfolding malformed of_option
  route_request_delete req =
      try (lift (form_id (codes "uuid") req)) malformed
        λ id h. (ok empty, record h { core = b.delete_room_request id h.core })

  unfoldable pub route_room_info : Handler S
  unfolding malformed of_option
  route_room_info req = try (lift (form_id (codes "uuid") req)) malformed λ id.
      try (on_core (ask (b.room_info id))) (λ e. http_error (codes "Room not found") not_found)
        λ info. respond (send_serialized k (k.marshal_info info))

  -- `Rooms` has no error; it may panic.
  unfoldable pub route_room_list : Handler S
  unfolding refused
  route_room_list req =
      try (on_core (ask b.rooms)) (refused internal_server_error)
        λ infos. respond (send_serialized k (k.marshal_infos infos))

  unfoldable pub create_with : List Bytes → Exec (Host S) Response
  unfolding refused
  create_with [] = respond (http_error (codes "Must provide at least one contactID") bad_request)
  create_with (id ∷ ids) =
      try (on_core (b.create_room (id ∷ ids))) (refused internal_server_error) λ u. respond empty

  unfoldable pub route_room_create : Handler S
  unfolding create_with refused of_option
  route_room_create req = try (lift (read_all req.body)) (refused bad_request) λ raw.
      try (lift (of_option malformed_json (k.unmarshal_ids raw))) (refused bad_request) create_with

  unfoldable pub route_room_delete : Handler S
  unfolding refused
  route_room_delete req =
      try (on_core (b.delete_room (req.form_value (codes "uuid")))) (refused internal_server_error)
        λ u. respond empty

  -- `types.ContentTypeCmd` where there is a command.
  unfoldable pub message_type : Bytes → ContentType
  message_type [] = text
  message_type (c ∷ command) = cmd

  -- The second half of `sendMessage` of api.go, on a body that is not too long.
  unfoldable pub send_content : Bytes → Request → Bytes → Exec (Host S) Response
  unfolding refused
  send_content command req raw = try (lift (reply_from_header k req)) (refused bad_request) λ reply.
      try
        (on_core (
          b.send_message (req.form_value (codes "uuid"))
            (content (message_type command) reply none (construct_command raw command))))
        (refused internal_server_error) λ u. respond empty

  -- `sendMessage` of api.go, with the response that its callers make of its result.
  unfoldable pub send_message : Bytes → Handler S
  unfolding refused send_content
  send_message command req = try (lift (read_all req.body)) (refused bad_request) λ raw.
      if ltb max_message_size (length raw)
      then respond (http_error (codes "message too big, cannot be greater 32768") bad_request)
      else send_content command req raw

  unfoldable pub route_room_send_message : Handler S
  unfolding send_message
  route_room_send_message = send_message []

  unfoldable pub route_room_command_name_room : Handler S
  unfolding send_message
  route_room_command_name_room = send_message name_room

  unfoldable pub route_room_command_set_nick : Handler S
  unfolding send_message
  route_room_command_set_nick = send_message nick

  unfoldable pub route_room_command_promote : Handler S
  unfolding send_message
  route_room_command_promote = send_message promote

  unfoldable pub route_room_command_remove_peer : Handler S
  unfolding send_message
  route_room_command_remove_peer = send_message remove_peer

  unfoldable pub route_room_command_useradd : Handler S
  unfolding refused of_option
  route_room_command_useradd req =
      try (lift (form_id (codes "uuid") req)) (refused bad_request) λ id.
        try (lift (read_all req.body)) (refused bad_request) λ fp.
          try (on_core (b.add_peer_to_room id fp)) (refused internal_server_error)
            λ u. respond empty

  unfoldable pub count_of : Bytes → Outcome ℕ
  unfolding of_option
  count_of [] = ok 0
  count_of (c ∷ number) = of_option malformed_number (k.atoi (c ∷ number))

  unfoldable pub route_room_messages : Handler S
  unfolding count_of refused
  route_room_messages req =
      try (lift (count_of (req.form_value (codes "count")))) (refused bad_request) λ count.
        try (on_core (ask (b.list_messages (req.form_value (codes "uuid")) count)))
          (refused bad_request) λ ms. respond (send_serialized k (k.marshal_messages ms))

  -- The type that the header gives, or that the file's name does.
  mimetype : Bytes → Bytes → Bytes
  mimetype name [] = k.type_by_name name
  mimetype name (c ∷ type) = c ∷ type

  -- Out of fuel, which does not happen, the loop would not end.
  unfoldable pub uploaded : Option Bytes → Outcome Bytes
  uploaded none = panic
  uploaded (some raw) = ok raw

  unfoldable pub file_content : Bytes → Bytes → Request → Reply → MessageContent
  unfolding mimetype
  file_content id raw req reply =
      content file reply
        (some (record {
          id = id;
          name = req.header (codes "X-Filename");
          type = mimetype (req.header (codes "X-Filename")) (req.header (codes "X-Mimetype"));
          size = length raw;
        }))
        []

  -- What is sent to the room once the file `raw` is there.
  unfoldable pub announce_file : Bytes → Bytes → Handler S
  unfolding refused file_content
  announce_file id raw req = try (lift (reply_from_header k req)) (refused bad_request) λ reply.
      try (on_core (b.send_message (req.form_value (codes "uuid")) (file_content id raw req reply)))
        (refused bad_request) λ u. respond empty

  -- `id` is what `uuid.New` returns.
  unfoldable pub route_room_send_file : Bytes → Handler S
  unfolding announce_file uploaded refused
  route_room_send_file id req =
      try (lift (uploaded (write_into_file req.body.pieces))) (refused internal_server_error)
        λ raw h.
          announce_file id raw req (record h { blobs = append_blob id raw (make_blob id h.blobs) })
