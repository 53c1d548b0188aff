-- ===== src/Daemon/Rooms.antt =====
-- The making of rooms: `NewRoom` and `AddPeers` of internal/types/room.go, and `createRoom`,
-- `addPeerToRoom`, `deleteRoom` and `DeleteContactID` of internal/daemon/util.go with `initRooms` and
-- `initContIDServices`.
use onionmsg.Base.{
  ℕ, true, List, [], ◌∷◌, ◌++◌, map, none, some, Option, Bytes, Outcome, ok, err, panic,
  malformed_uuid, room_not_found,
}
use onionmsg.Base
use onionmsg.Exec.{Exec, done, raise, lift, ask, modify, try_modify, ◌>>=◌, ◌>>◌}
use onionmsg.Ed25519.{Scheme}
use onionmsg.Identity.{Identity, self, remote, new_identity}
use onionmsg.Message.{Marshal}
use onionmsg.Peer.{Peer, Context, absent, start_queue}
use onionmsg.Room.{Room, set_context, run_message_queue_for_all_peers}
use onionmsg.Push.{sync_peer_lists}
use onionmsg.Tor.{Controller}
use onionmsg.Daemon.Slices.{write_first}
use onionmsg.Daemon.State.{Daemon, has_id, get_room}
use onionmsg.Daemon.Services.{
  Ports, register_room, deregister_room, deregister_cont_id, serve_conv_id_service,
  serve_cont_id_service,
}

-- `make` is `createPeerViaContactID` over what dialling gives, `times` are the readings of the clock.
module _ (c : Scheme) (j : Marshal) (make : Room → Identity → Outcome Peer) (times : ℕ → ℕ) where
  unfoldable pub make_peers : Room → List Identity → Outcome (List Peer)
  make_peers r [] = ok []
  make_peers r (i ∷ is) = Base.◌>>=◌ (make r i) λ p. Base.◌>>=◌ (make_peers r is) λ ps. ok (p ∷ ps)

  unfoldable pub start_peers : Context → List Peer → Outcome (List Peer)
  start_peers ctx [] = ok []
  start_peers ctx (p ∷ ps) =
      Base.◌>>=◌ (start_queue ctx p) λ q. Base.◌>>=◌ (start_peers ctx ps) λ qs. ok (q ∷ qs)

  unfoldable pub add_peers : List Identity → Exec Room (Unit {0})
  unfolding make_peers start_peers
  add_peers contacts = do
    new_peers ← ask (λ r. make_peers r contacts)
    try_modify (λ r.
        Base.◌>>=◌ (start_peers r.ctx new_peers)
          λ started. ok (record r { peers = r.peers ++ started }))
    sync_peer_lists c j times

  -- `id.Meta.Admin = true`
  unfoldable pub as_admin : Identity → Outcome Identity
  as_admin i = elim i.meta [
    | none ↦ panic
    | some m ↦ ok (record i { meta = some (record m { admin = true }) })
  ]

  -- `key` is what `GenerateKey` returns and `id` what `uuid.New` returns.
  unfoldable pub new_room : Bytes → Bytes → List Identity → Outcome Room
  unfolding as_admin
  new_room key id contacts = Base.◌>>=◌ (new_identity self key []) λ i.
      Base.◌>>=◌ (as_admin i) λ own.
        Base.◌>>=◌
          (set_context (record {
            self = own;
            peers = [];
            id = id;
            name = [];
            messages = [];
            sync_state = [];
            ctx = absent;
          }))
          λ r. let (o, t) = add_peers contacts r in Base.◌>>=◌ o λ _. ok t

  unfoldable pub identities : List Bytes → Outcome (List Identity)
  identities [] = ok []
  identities (fp ∷ fps) =
      Base.◌>>=◌ (new_identity remote [] fp) λ i. Base.◌>>=◌ (identities fps) λ is. ok (i ∷ is)

  module _ (ctrl : Controller) (ports : Ports) where
    unfoldable pub create_room : Bytes → Bytes → List Bytes → Exec Daemon (Unit {0})
    unfolding identities
    create_room key id fps = do
      ids ← lift (identities fps)
      r ← lift (new_room key id ids)
      register_room ctrl ports r

  unfoldable pub add_in : Bytes → Bytes → Option Room → Exec Daemon (Unit {0})
  add_in id fp none = raise room_not_found
  add_in id fp (some r) = do
    i ← lift (new_identity remote [] fp)
    let (o, t) = add_peers (i ∷ []) r
    modify (λ d. record d { rooms = write_first (has_id id) t d.rooms })
    lift o

  unfoldable pub add_peer_to_room : Bytes → Bytes → Exec Daemon (Unit {0})
  unfolding add_in
  add_peer_to_room id fp = do found ← ask (λ d. ok (get_room id d)); add_in id fp found

module _ (ctrl : Controller) (ports : Ports) where
  unfoldable pub delete_room : (Bytes → Option Bytes) → Bytes → Exec Daemon (Unit {0})
  delete_room parse uid = elim (parse uid) [
    | none ↦ raise malformed_uuid
    | some id ↦ deregister_room ctrl ports id
  ]

  unfoldable pub delete_contact_id : Bytes → Exec Daemon (Unit {0})
  delete_contact_id fp = deregister_cont_id ctrl ports fp

  unfoldable pub serve_rooms : List Room → Exec Daemon (Unit {0})
  serve_rooms [] = done
  serve_rooms (r ∷ rs) = do serve_conv_id_service ctrl ports r.self; serve_rooms rs

  unfoldable pub run_rooms : List Room → Outcome (List Room)
  run_rooms [] = ok []
  run_rooms (r ∷ rs) =
      Base.◌>>=◌ (run_message_queue_for_all_peers r)
        λ s. Base.◌>>=◌ (run_rooms rs) λ ss. ok (s ∷ ss)

  unfoldable pub init_rooms : Exec Daemon (Unit {0})
  unfolding serve_rooms run_rooms
  init_rooms = do
    rooms ← ask (λ d. ok d.rooms)
    serve_rooms rooms
    try_modify (λ d. Base.◌>>=◌ (run_rooms d.rooms) λ rs. ok (record d { rooms = rs }))

  unfoldable pub serve_contacts : List Identity → Exec Daemon (Unit {0})
  serve_contacts [] = done
  serve_contacts (i ∷ is) = do serve_cont_id_service ctrl ports i; serve_contacts is

  unfoldable pub init_cont_id_services : Exec Daemon (Unit {0})
  unfolding serve_contacts
  init_cont_id_services = do contacts ← ask (λ d. ok d.contact_identities); serve_contacts contacts
