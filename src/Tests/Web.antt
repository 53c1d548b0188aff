-- ===== src/Tests/Web.antt =====
-- Requests to the HTTP interface of a daemon that counts the messages it sends.
use onionmsg.Base.{
  ℕ, zero, suc, ap, ◌≡◌, refl, true, false, List, [], ◌∷◌, none, some, Bytes, same, ok, err, codes,
  All, arith, if◌then◌else◌, room_not_found, connection_error, length,
}
use onionmsg.Exec.{Exec, raise}
use onionmsg.Blob.{write_into_file}
use onionmsg.Blob.Filling.{write_into_file-ends}
use onionmsg.Daemon.State.{Event}
use onionmsg.Api.Requests.{
  Request, Response, Codec, Backend, Host, bad_request, http_error, read_all,
}
use onionmsg.Api.Routes.{refused, route_room_create, route_blob, route_room_send_file}
use onionmsg.Api.Paths.{serve, paths, dispatch}
use onionmsg.Api.Calm.{serve-Blames, serve-still, read_paths}
use onionmsg.Api.Files.{route_blob-route_room_send_file}
use onionmsg.Api.Notifier.{Observers}
use onionmsg.Tests.Data.{repeat}

abbrev counted : Exec ℕ (Unit {0})
counted n = (ok tt, suc n)

abbrev counter : Backend ℕ
counter = record {
  tor_info = none;
  list_contact_ids = λ n. [];
  create_contact_id = raise connection_error;
  delete_contact = λ fp. counted;
  request_list = λ n. [];
  accept_room_request = λ id. counted;
  delete_room_request = λ id n. suc n;
  room_info = λ id n. err room_not_found;
  rooms = λ n. ok [];
  create_room = λ ids. counted;
  delete_room = λ id. counted;
  add_peer_to_room = λ id fp. counted;
  send_message = λ id c. counted;
  list_messages = λ id count n. ok [];
}

abbrev codec : Codec
codec = record {
  parse_uuid = λ b. if same b (codes "?") then none else some b;
  atoi = λ b. some 1;
  unmarshal_ids = λ b. none;
  unmarshal_message = λ b. none;
  marshal_ids = λ x. some [];
  marshal_requests = λ x. some [];
  marshal_info = λ x. some [];
  marshal_infos = λ x. some [];
  marshal_messages = λ x. some [];
  type_by_name = λ b. [];
  error_text = λ e. [];
}

abbrev host : Host ℕ
host = record { core = 5; blobs = [] }

abbrev about : Bytes → List Bytes → Request
about uid pieces = record {
  form_value = λ name. if same name (codes "uuid") then uid else [];
  header = λ name. [];
  body = record { pieces = pieces; broken = false };
}

abbrev broken : Request
broken = record (about (codes "?") []) { body = record { pieces = []; broken = true } }

abbrev refusal : Response
refusal = http_error [] bad_request

serve-Blames_example : (serve codec counter (9 ∷ []) (codes "/v1/room/create") broken host).1 ≡ host
unfolding serve paths dispatch same http_error route_room_create read_all refused
serve-Blames_example =
    serve-Blames codec counter (9 ∷ []) (codes "/v1/room/create") broken host refusal
      (λ e. ground arith) refl refl

serve-still_example :
    All
      (λ path. (serve codec counter (9 ∷ []) path (about (codes "r") []) host).1 ≡ host)
      (read_paths codec counter)
serve-still_example = serve-still codec counter (9 ∷ []) (about (codes "r") []) host

write_into_file-ends_example :
    write_into_file ((1 ∷ 2 ∷ []) ∷ (3 ∷ []) ∷ [] ∷ (4 ∷ []) ∷ []) ≡ some (1 ∷ 2 ∷ 3 ∷ [])
write_into_file-ends_example = write_into_file-ends ((1 ∷ 2 ∷ []) ∷ (3 ∷ []) ∷ [] ∷ (4 ∷ []) ∷ [])

route_blob-route_room_send_file_example :
    let t =
      (route_room_send_file codec counter
        (9 ∷ [])
        (about (codes "r") ((1 ∷ 2 ∷ []) ∷ (3 ∷ []) ∷ []))
        host).1 in
    (w : Response) × (route_blob codec counter (about (9 ∷ []) []) t ≡ (ok w, t))
    × (w.status ≡ 200)
    × (w.body ≡ 1 ∷ 2 ∷ 3 ∷ [])
unfolding same
route_blob-route_room_send_file_example =
    route_blob-route_room_send_file codec counter (9 ∷ [])
      (about (codes "r") ((1 ∷ 2 ∷ []) ∷ (3 ∷ []) ∷ [])) (about (9 ∷ []) []) host refl

abbrev observers : Observers
observers = record { sockets = some 1 ∷ some 2 ∷ []; written = [] }

abbrev encode : Bytes → Event → Bytes
encode type e = type

length-repeat : (n b : ℕ) → length (repeat n b) ≡ n
length-repeat zero b = refl
length-repeat (suc n) b = ap suc (length-repeat n b)
