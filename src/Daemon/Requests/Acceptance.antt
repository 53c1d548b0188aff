-- ===== src/Daemon/Requests/Acceptance.antt =====
-- `accept_room_request` and `list_messages` on their branches.
use onionmsg.Base.{◌≡◌, refl, none, some, Bytes, Error, err, request_not_found, ℕ}
use onionmsg.Ed25519.{Scheme}
use onionmsg.Message.{Marshal}
use onionmsg.Room.{Room, set_context}
use onionmsg.Peer.{Context, absent, active, cancelled}
use onionmsg.Tor.{Controller, register_service}
use onionmsg.Daemon.Slices.{find_first}
use onionmsg.Daemon.Slices.Laws.{find_first-match, find_first-write_first}
use onionmsg.Daemon.State.{Daemon, RoomRequest, has_request_id, pub_conv_port}
use onionmsg.Daemon.Services.{Ports, register_room, serve, deref, serve_conv_id_service}
use onionmsg.Daemon.Requests.{accept_room_request, accept_found, with_context, write_request_room}

module _ (ctrl : Controller) (ports : Ports) (c : Scheme) (j : Marshal) where
  -- A request with an unknown id is refused with an error, and nothing is changed.
  pub accept_room_request-none :
      (now : ℕ) (id : Bytes) (d : Daemon)
      → find_first (has_request_id id) d.requests ≡ none
      → accept_room_request ctrl ports c j now id d ≡ (err request_not_found, d)
  unfolding accept_room_request accept_found
  accept_room_request-none now id d h = rw h refl

  with_context-self : (r : Room) → (with_context r).self ≡ r.self
  unfolding with_context set_context
  with_context-self r = go r.ctx refl
    where
      go : (x : Context) → r.ctx ≡ x → (with_context r).self ≡ r.self
      go absent e = rw e refl
      go active e = rw e refl
      go cancelled e = rw e refl

  -- When Tor refuses the service of the room, the error is returned, no room is added, no service
  -- is started, and the request can still be found, with its room given a context.
  pub accept_room_request-refused :
      (now : ℕ) (id : Bytes) (d : Daemon) (v : RoomRequest) (key : Bytes) (e : Error)
      → find_first (has_request_id id) d.requests ≡ some v
      → v.room.self.priv ≡ some key
      → register_service ctrl key pub_conv_port ports.lo_conv_port d.onions ≡ err e
      → (t : Daemon) × (accept_room_request ctrl ports c j now id d ≡ (err e, t))
        × (t.rooms ≡ d.rooms)
        × (t.onions ≡ d.onions)
        × (find_first (has_request_id id) t.requests
            ≡ some (record v { room = with_context v.room }))
  unfolding accept_room_request accept_found register_room serve_conv_id_service serve deref
      write_request_room
  accept_room_request-refused now id d v key e found has_key refused = (
    write_request_room ctrl ports c j id v (with_context v.room) d,
    rw found (rw (with_context-self v.room) (rw has_key (rw refused refl))),
    refl,
    refl,
    find_first-write_first (has_request_id id) d.requests v _ found
        (find_first-match (has_request_id id) d.requests v found),
  )
