-- ===== src/Daemon/State.antt =====
-- The state of the daemon and its hooks: the variables of internal/daemon/daemon.go and hooks.go and
-- the lookups of util.go. Rooms are shared by pointers in the source: a change of a room is a change
-- of the entry that the room has in the list.
use onionmsg.Base.{
  ℕ, ◌-◌, zero, suc, Bool, true, false, ◌&&◌, ltb, if◌then◌else◌, List, [], ◌∷◌, ◌++◌, map, take,
  drop, length, Option, none, some, Bytes, same, Outcome, Error, ok, err, panic, room_not_found,
  request_not_found, malformed_uuid,
}
use onionmsg.Base
use onionmsg.Identity.{Identity, fingerprint}
use onionmsg.Message.{Message}
use onionmsg.Room.{Room, RoomInfo, info}
use onionmsg.Tor.{Onion}
use onionmsg.Daemon.Slices.{find_first, swap_remove}

pub record RoomRequest : Type 0 where
  pub room : Room
  pub via_fingerprint : Bytes
  pub id : Bytes

-- Which hooks are set.
pub record Hooks : Type 0 where
  pub new_message : Bool
  pub new_room : Bool
  pub on_error : Bool
  pub new_request : Bool

-- The calls of hooks, in the order in which they were started.
pub data Event : Type 0 where
  messages_arrived : Bytes → List Message → Event
  room_added : RoomInfo → Event
  failed : Error → Event
  request_arrived : RoomRequest → Event

pub record Daemon : Type 0 where
  pub contact_identities : List Identity
  pub rooms : List Room
  pub requests : List RoomRequest
  pub onions : List Onion
  pub hooks : Hooks
  pub events : List Event

abbrev pub pub_cont_port : ℕ
pub_cont_port = 10050

abbrev pub pub_conv_port : ℕ
pub_conv_port = 10051

abbrev pub has_id : Bytes → Room → Bool
has_id id r = same r.id id

abbrev pub has_request_id : Bytes → RoomRequest → Bool
has_request_id id v = same v.id id

abbrev pub has_fingerprint : Bytes → Identity → Bool
has_fingerprint fp i = same (fingerprint i) fp

unfoldable pub get_room : Bytes → Daemon → Option Room
get_room id d = find_first (has_id id) d.rooms

unfoldable pub get_contact_id : Bytes → Daemon → Option Identity
get_contact_id fp d = find_first (has_fingerprint fp) d.contact_identities

-- The room that `GetRoom` returned is the first with its id, and so is the one that is deleted.
unfoldable pub delete_room_from_slice : Bytes → Daemon → Daemon
delete_room_from_slice id d = record d { rooms = swap_remove (has_id id) d.rooms }

unfoldable pub delete_contact_id_from_slice : Identity → Daemon → Daemon
delete_contact_id_from_slice cid d = record d {
  contact_identities = swap_remove (has_fingerprint (fingerprint cid)) d.contact_identities;
}

unfoldable pub delete_room_request : Bytes → Daemon → Daemon
delete_room_request id d = record d { requests = swap_remove (has_request_id id) d.requests }

unfoldable pub emit : Event → Daemon → Daemon
emit e d = record d { events = d.events ++ (e ∷ []) }

-- A hook that is nil panics when it is called.
unfoldable pub call_hook : Bool → Event → Daemon → Outcome Daemon
unfolding emit
call_hook true e d = ok (emit e d)
call_hook false e d = panic

unfoldable pub notify_new_messages : Bytes → List Message → Daemon → Outcome Daemon
unfolding call_hook
notify_new_messages id ms d =
    if d.hooks.new_message then call_hook true (messages_arrived id ms) d else ok d

-- The test is of another hook than the one that is called.
unfoldable pub notify_new_room : RoomInfo → Daemon → Outcome Daemon
unfolding call_hook
notify_new_room i d =
    if d.hooks.new_message then call_hook d.hooks.new_room (room_added i) d else ok d

unfoldable pub notify_error : Error → Daemon → Outcome Daemon
unfolding call_hook
notify_error e d = if d.hooks.new_message then call_hook d.hooks.on_error (failed e) d else ok d

unfoldable pub notify_new_request : RoomRequest → Daemon → Outcome Daemon
unfolding call_hook
notify_new_request v d = if d.hooks.new_request then call_hook true (request_arrived v) d else ok d

unfoldable pub list_contact_ids : Daemon → List Bytes
list_contact_ids d = map fingerprint d.contact_identities

infos : List Room → Outcome (List RoomInfo)
infos [] = ok []
infos (r ∷ rs) = Base.◌>>=◌ (info r) λ i. Base.◌>>=◌ (infos rs) λ is. ok (i ∷ is)

unfoldable pub list_rooms : Daemon → Outcome (List RoomInfo)
unfolding infos
list_rooms d = infos d.rooms

unfoldable pub room_info : Bytes → Daemon → Outcome RoomInfo
room_info id d = elim (get_room id d) [ none ↦ err room_not_found | some r ↦ info r ]
