-- ===== src/Daemon/Requests.antt =====
-- The operations of internal/daemon/util.go on requests and on the messages of a room.
pub mod Acceptance
use onionmsg.Base.{
  ℕ, ◌-◌, zero, suc, Bool, true, false, ◌&&◌, ltb, if◌then◌else◌, List, [], ◌∷◌, ◌++◌, map, take,
  drop, length, Option, none, some, Bytes, same, Outcome, Error, ok, err, panic, room_not_found,
  request_not_found, malformed_uuid,
}
use onionmsg.Base
use onionmsg.Exec.{Exec, done, raise, lift, ask, modify, try_modify, ◌>>=◌, ◌>>◌}
use onionmsg.Ed25519.{Scheme}
use onionmsg.Identity.{Identity, contact, new_identity, fingerprint}
use onionmsg.Message.{Message, MessageContent, Marshal, content, cmd, no_reply}
use onionmsg.Room.{Room, RoomInfo, info, set_context, stop_queues, run_message_queue_for_all_peers}
use onionmsg.Command.{construct_command, accept}
use onionmsg.Push.{send_message_to_all_peers}
use onionmsg.Tor.{Controller, Onion, register_service, deregister_service}
use onionmsg.Daemon.Slices.{find_first, write_first}
use onionmsg.Daemon.State.{
  Daemon, RoomRequest, has_id, has_request_id, get_room, delete_room_request,
}
use onionmsg.Daemon.Services.{Ports, register_room}

-- An error of `SetContext` is dropped.
unfoldable pub with_context : Room → Room
with_context r = elim (set_context r) [ ok s ↦ s | err e ↦ r | panic ↦ r ]

module _ (ctrl : Controller) (ports : Ports) where
  module _ (c : Scheme) (j : Marshal) where
    abbrev pub accept_content : MessageContent
    accept_content = content cmd no_reply none (construct_command [] accept)

    -- The room of a request, after it was registered: the same room is in the list of rooms.
    unfoldable pub open_room : ℕ → Room → Outcome Room
    open_room now r = Base.◌>>=◌ (run_message_queue_for_all_peers r) λ s.
        let (o, t) = send_message_to_all_peers c j now accept_content s in Base.◌>>=◌ o λ _. ok t

    unfoldable pub write_request_room : Bytes → RoomRequest → Room → Daemon → Daemon
    write_request_room id v r d = record d {
      requests = write_first (has_request_id id) (record v { room = r }) d.requests;
    }

    unfoldable pub write_last_room : Room → List Room → List Room
    write_last_room r [] = []
    write_last_room r (s ∷ []) = r ∷ []
    write_last_room r (s ∷ t ∷ rs) = s ∷ write_last_room r (t ∷ rs)

    unfoldable pub accept_found : ℕ → Bytes → Option RoomRequest → Exec Daemon (Unit {0})
    unfolding open_room with_context write_request_room write_last_room
    accept_found now id none = raise request_not_found
    accept_found now id (some v) = do
      modify (write_request_room id v (with_context v.room))
      register_room ctrl ports (with_context v.room)
      r ← lift (open_room now (with_context v.room))
      modify (λ d. record d { rooms = write_last_room r d.rooms })
      modify (delete_room_request id)

    unfoldable pub accept_room_request : ℕ → Bytes → Exec Daemon (Unit {0})
    unfolding accept_found
    accept_room_request now id = do
      found ← ask (λ d. ok (find_first (has_request_id id) d.requests))
      accept_found now id found

    -- A call of a method of the room with that id.
    unfoldable pub send_in : MessageContent → ℕ → Bytes → Option Room → Exec Daemon (Unit {0})
    send_in k now id none = raise room_not_found
    send_in k now id (some r) = do
      let (o, t) = send_message_to_all_peers c j now k r
      modify (λ d. record d { rooms = write_first (has_id id) t d.rooms })
      lift o

    -- `uuid.Parse`, of `google/uuid`, is a parameter.
    unfoldable pub send_message :
        (Bytes → Option Bytes) → ℕ → Bytes → MessageContent → Exec Daemon (Unit {0})
    unfolding send_in
    send_message parse now uid k = elim (parse uid) [
      | none ↦ raise malformed_uuid
      | some id ↦ do found ← ask (λ d. ok (get_room id d)); send_in k now id found
    ]

-- A negative `count` acts as 0 does.
last_messages : ℕ → List Message → List Message
last_messages count ms =
    if ltb 0 count && ltb count (length ms) then drop (length ms - count) ms else ms

unfoldable pub list_messages : (Bytes → Option Bytes) → Bytes → ℕ → Daemon → Outcome (List Message)
unfolding last_messages
list_messages parse uid count d = elim (parse uid) [
  | none ↦ err malformed_uuid
  | some id ↦ elim (get_room id d) [
    | none ↦ err room_not_found
    | some r ↦ ok (last_messages count r.messages)
  ]
]
