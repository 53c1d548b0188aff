-- ===== src/Api/Implementation.antt =====
-- The operations of the daemon that the routes call: the functions that internal/daemon/util.go gives
-- out under other names.
use onionmsg.Base.{ℕ, Option, Bytes, Outcome}
use onionmsg.Ed25519.{Scheme}
use onionmsg.Identity.{Identity}
use onionmsg.Message.{Marshal}
use onionmsg.Peer.{Peer}
use onionmsg.Room.{Room}
use onionmsg.Tor.{Controller}
use onionmsg.Daemon.State.{Daemon, list_contact_ids, list_rooms, room_info, delete_room_request}
use onionmsg.Daemon.Services.{Ports, create_contact_id}
use onionmsg.Daemon.Rooms.{create_room, delete_room, delete_contact_id, add_peer_to_room}
use onionmsg.Daemon.Requests.{accept_room_request, send_message, list_messages}
use onionmsg.Api.Requests.{Backend}

-- `key` and `id` are what `GenerateKey` and `uuid.New` return during the request, and `times` are the
-- readings of the clock.
unfoldable pub daemon_backend :
    Scheme
    → Marshal
    → Controller
    → Ports
    → (Room → Identity → Outcome Peer)
    → (Bytes → Option Bytes)
    → Option Bytes
    → Bytes
    → Bytes
    → (ℕ → ℕ)
    → Backend Daemon
daemon_backend c j ctrl ports make parse info key id times = record {
  tor_info = info;
  list_contact_ids = list_contact_ids;
  create_contact_id = create_contact_id ctrl ports key;
  delete_contact = delete_contact_id ctrl ports;
  request_list = λ d. d.requests;
  accept_room_request = accept_room_request ctrl ports c j (times 0);
  delete_room_request = delete_room_request;
  room_info = room_info;
  rooms = list_rooms;
  create_room = create_room c j make times ctrl ports key id;
  delete_room = delete_room ctrl ports parse;
  add_peer_to_room = add_peer_to_room c j make times;
  send_message = send_message ctrl ports c j parse (times 0);
  list_messages = list_messages parse;
}
