-- ===== src/Daemon/Services/Removal.antt =====
-- `deregister_room` on every branch.
use mathlib.Core.List.{Perm}
use onionmsg.Base.{map, ◌≡◌, ◌≢◌, refl, List, ◌∷◌, none, some, Bytes, Error, ok, err}
use onionmsg.Room.{Room, stop_queues}
use onionmsg.Peer.{Context, absent, active, cancelled, stop}
use onionmsg.Tor.{Controller, Onion, deregister_service}
use onionmsg.Daemon.Slices.Laws.{swap_remove-perm}
use onionmsg.Daemon.State.{Daemon, has_id, get_room, delete_room_from_slice}
use onionmsg.Daemon.Services.{Ports, withdraw, deref, remove_found_room, deregister_room}

pub stop_queues-ok : (r : Room) → r.ctx ≢ absent → (s : Room) × (stop_queues r ≡ ok s)
unfolding stop_queues
stop_queues-ok r ctx = go r.ctx refl
  where
    go : (c : Context) → r.ctx ≡ c → (s : Room) × (stop_queues r ≡ ok s)
    go absent e = absurd (ctx e)
    go active e = (record r { ctx = cancelled; peers = map stop r.peers }, rw e refl)
    go cancelled e = (record r { ctx = cancelled; peers = map stop r.peers }, rw e refl)

module _ (ctrl : Controller) (ports : Ports) where
  -- Without such a room, the removal succeeds and changes nothing.
  pub deregister_room-none :
      (id : Bytes) (d : Daemon)
      → get_room id d ≡ none
      → deregister_room ctrl ports id d ≡ (ok tt, d)
  unfolding deregister_room remove_found_room
  deregister_room-none id d h = rw h refl

  module _ (id : Bytes) (d : Daemon) (r : Room) (key : Bytes) (found : get_room id d ≡ some r)
      (has_key : r.self.pub_key ≡ some key) where
    -- When Tor refuses to take the service down, the error is returned and nothing is changed.
    pub deregister_room-refused :
        (e : Error)
        → deregister_service ctrl key d.onions ≡ err e
        → deregister_room ctrl ports id d ≡ (err e, d)
    unfolding deregister_room remove_found_room withdraw deref
    deregister_room-refused e refused = rw found (rw has_key (rw refused refl))

    -- When Tor takes the service of a room down and the queues of the room have a context, the
    -- removal succeeds: the rooms are those of before without this one, in whatever order, the
    -- onion services are those that Tor left, and contacts, requests and events stay.
    pub deregister_room-Perm :
        (onions : List Onion)
        → r.ctx ≢ absent
        → deregister_service ctrl key d.onions ≡ ok onions
        → (t : Daemon) × (deregister_room ctrl ports id d ≡ (ok tt, t))
          × Perm d.rooms (r ∷ t.rooms)
          × (t.onions ≡ onions)
          × (t.contact_identities ≡ d.contact_identities)
          × (t.requests ≡ d.requests)
          × (t.events ≡ d.events)
    unfolding deregister_room remove_found_room delete_room_from_slice withdraw deref get_room
    deregister_room-Perm onions ctx gone = (
      delete_room_from_slice id (record d { onions = onions }),
      rw found (let (s, e) = stop_queues-ok r ctx in rw e (rw has_key (rw gone refl))),
      swap_remove-perm (has_id id) d.rooms r found,
      refl,
      refl,
      refl,
      refl,
    )
