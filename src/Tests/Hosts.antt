-- ===== src/Tests/Hosts.antt =====
-- A daemon with three rooms and a request, with a Tor that agrees and one that refuses.
use mathlib.Core.List.{Perm}
use onionmsg.Base.{true, false, ◌≡◌, refl, [], ◌∷◌, some, ok, err, panic, tor_error, arith, same}
use onionmsg.Ed25519.{toy}
use onionmsg.Tor.{register_service, deregister_service}
use onionmsg.Daemon.Slices.{find_first}
use onionmsg.Daemon.State.{Daemon, get_room, has_request_id}
use onionmsg.Daemon.Services.{deregister_room}
use onionmsg.Daemon.Services.Removal.{deregister_room-Perm}
use onionmsg.Daemon.Requests.{accept_room_request, with_context}
use onionmsg.Daemon.Requests.Acceptance.{accept_room_request-refused}
use onionmsg.Base.{◌++◌, Option, Bytes}
use onionmsg.Peer.{Peer, running, sleeping}
use onionmsg.Peer.Rounds.{queue_round, needs_sync, queue_round-settles}
use onionmsg.SyncMap.{SyncMap, lookup, sync_maps_equal}
use onionmsg.Contact.{ContactRequest, ContactResponse}
use onionmsg.Daemon.Session.{Session}
use onionmsg.Daemon.Conversations.{Formats, conv_client_handler}
use onionmsg.Daemon.Conversations.Members.{OnlyMembers, conv_client_handler-OnlyMembers}
use onionmsg.Daemon.Contacts.{cont_client_handler}
use onionmsg.Daemon.Contacts.Requested.{OnlyAsked, cont_client_handler-OnlyAsked}
use onionmsg.Tests.Data.{
  framed, log, bob_peer, alice_fp, bob_fp, uncompressed, alice_key, repeat, daemon, room, room_id,
  request, ports, plain, willing_tor, refusing_tor,
}

deregister_room-Perm_example :
    (t : Daemon) × (deregister_room willing_tor ports room_id daemon ≡ (ok tt, t))
    × Perm daemon.rooms (room ∷ t.rooms)
    × (t.onions ≡ [])
    × (t.contact_identities ≡ daemon.contact_identities)
    × (t.requests ≡ daemon.requests)
    × (t.events ≡ daemon.events)
unfolding get_room find_first same deregister_service
deregister_room-Perm_example =
    deregister_room-Perm willing_tor ports room_id daemon room (repeat 32 1) refl refl []
      (λ e. ground arith) refl

accept_room_request-refused_example :
    (t : Daemon) × (accept_room_request refusing_tor ports toy plain 5 (9 ∷ []) daemon
      ≡ (err tor_error, t))
    × (t.rooms ≡ daemon.rooms)
    × (t.onions ≡ daemon.onions)
    × (find_first (has_request_id (9 ∷ [])) t.requests
        ≡ some (record request { room = with_context room }))
unfolding find_first same register_service
accept_room_request-refused_example =
    accept_room_request-refused refusing_tor ports toy plain 5 (9 ∷ []) daemon request alice_key
      tor_error refl refl refl

-- A request of Alice to Bob's contact identity, as any decoder may read it.
abbrev session : Session
session = record {
  conn = record { arrived = (1 ∷ 0 ∷ 0 ∷ 0 ∷ 0 ∷ 1 ∷ []) ∷ []; buffered = []; sent = [] };
  daemon = daemon;
  blobs = [];
}

abbrev read_as_alice : Bytes → Option ContactRequest
read_as_alice raw = some (record { remote_fp = bob_fp; local_fp = alice_fp; id = room_id })

abbrev written : ContactResponse → Option Bytes
written resp = some (resp.conv_fp ++ resp.sig)

cont_client_handler-OnlyAsked_example :
    OnlyAsked daemon
      (cont_client_handler willing_tor ports toy plain uncompressed read_as_alice written false 5
        alice_key
        (4 ∷ [])
        session).1.daemon
cont_client_handler-OnlyAsked_example =
    cont_client_handler-OnlyAsked willing_tor ports toy plain uncompressed read_as_alice written 5
      alice_key (4 ∷ []) session

-- While the sync ran, another message came into the room.
abbrev after : SyncMap
after = (bob_fp, 9) ∷ []

queue_round-settles_example :
    ((q : Peer) × (queue_round (ok tt) room.sync_state after bob_peer ≡ ok q)
      × (q.queue ≡ running)
      × (q.wait ≡ sleeping)
      × (needs_sync after q ≡ false))
    × ((q : Peer) × (queue_round (err tor_error) room.sync_state after bob_peer ≡ ok q)
        × (q.queue ≡ running)
        × (q.wait ≡ sleeping)
        × (needs_sync after q ≡ needs_sync after bob_peer))
    × (queue_round panic room.sync_state after bob_peer ≡ panic)
unfolding lookup needs_sync sync_maps_equal
queue_round-settles_example =
    queue_round-settles room.sync_state after after bob_peer tor_error (refl, tt) refl refl

-- A peer sends the same log, whatever its bytes.
abbrev formats : Formats
formats = record {
  times = λ times. some [];
  message = λ m. [];
  messages_of = λ raw. log;
  ids_of = λ raw. [];
  from_bytes = some;
  can_open = λ id. true;
}

-- Bob meets the challenge, names the room and sends the log.
abbrev bob_calls : Session
bob_calls = record {
  conn = record {
    arrived =
        framed bob_fp
        ∷ framed (repeat 32 2 ++ repeat 32 5)
        ∷ framed room_id
        ∷ framed []
        ∷ framed []
        ∷ [];
    buffered = [];
    sent = [];
  };
  daemon = daemon;
  blobs = [];
}

conv_client_handler-OnlyMembers_example :
    OnlyMembers uncompressed formats toy plain
      (repeat 32 5)
      daemon
      (conv_client_handler uncompressed formats toy plain (repeat 32 5) bob_calls).1
conv_client_handler-OnlyMembers_example =
    conv_client_handler-OnlyMembers uncompressed formats toy plain (repeat 32 5) bob_calls refl
