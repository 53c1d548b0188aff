-- ===== src/Daemon/InStep/Operations.antt =====
-- The operations on requests and rooms of internal/daemon/util.go keep a daemon in step.
use onionmsg.Base.{ℕ, ◌≡◌, ◌≢◌, refl, ◌∙◌, map, Option, none, some, Bytes, Option-cases, inl, inr}
use onionmsg.Ed25519.{Scheme}
use onionmsg.Message.{Marshal, MessageContent}
use onionmsg.Peer.{Context, absent, active, cancelled}
use onionmsg.Room.{Room, set_context}
use onionmsg.Push.{send_message_to_all_peers}
use onionmsg.Tor.{Controller}
use onionmsg.Daemon.Slices.{write_first}
use onionmsg.Daemon.State.{Daemon, has_id, has_request_id, get_room, delete_room_request}
use onionmsg.Daemon.Services.{Ports}
use onionmsg.Daemon.Requests.{with_context, send_in, send_message}
use onionmsg.Daemon.InStep.{InStep, RoomOk, RequestOk, service_of}
use onionmsg.Daemon.InStep.Lists.{swap_remove-All, find_first-All, write_first-All, map-write_first}
use onionmsg.Daemon.InStep.Kin.{Kin, send-Keeps}
use onionmsg.Daemon.InStep.Services.{Stays}

pub with_context_idem : (r : Room) → r.ctx ≢ absent → with_context r ≡ r
unfolding with_context set_context
with_context_idem r ctx = go r.ctx refl
  where
    go : (x : Context) → r.ctx ≡ x → with_context r ≡ r
    go absent e = absurd (ctx e)
    go active e = rw e refl
    go cancelled e = rw e refl

module _ (c : Scheme) where
  pub Kin-RoomOk : {r t : Room} → Kin r t → RoomOk c r → RoomOk c t
  Kin-RoomOk kin fit = (
    record {
      key = fit.0.key;
      generated = fit.0.generated;
      priv = kin.keys.0 ∙ fit.0.priv;
      pub_key = kin.keys.1 ∙ fit.0.pub_key;
    },
    kin.ready,
  )

module _ (c : Scheme) (ctrl : Controller) where
  pub Kin-service_of : (r t : Room) → Kin r t → service_of ctrl t.self ≡ service_of ctrl r.self
  unfolding service_of
  Kin-service_of r t kin = rw (kin.keys.1) refl

  -- A room that is written back after its methods ran.
  pub write_room :
      (id : Bytes) (d : Daemon) (r t : Room)
      → get_room id d ≡ some r
      → Kin r t
      → InStep c ctrl d
      → InStep c ctrl (record d { rooms = write_first (has_id id) t d.rooms })
  unfolding get_room
  write_room id d r t found kin s =
      let f : Room → Bytes = λ x. service_of ctrl x.self in
      let same : map f (write_first (has_id id) t d.rooms) ≡ map f d.rooms =
        map-write_first f (has_id id) t d.rooms r found (Kin-service_of r t kin) in
      let fit : RoomOk c r = find_first-All (RoomOk c) (has_id id) d.rooms r found s.rooms in
      record {
        served = rw same s.served;
        contacts = s.contacts;
        rooms = write_first-All (RoomOk c) (has_id id) t d.rooms (Kin-RoomOk c kin fit) s.rooms;
        requests = s.requests;
      }

  pub delete_room_request-InStep :
      (id : Bytes) (d : Daemon) → InStep c ctrl d → InStep c ctrl (delete_room_request id d)
  unfolding delete_room_request
  delete_room_request-InStep id d s = record {
    served = s.served;
    contacts = s.contacts;
    rooms = s.rooms;
    requests = swap_remove-All (RequestOk c) (has_request_id id) d.requests s.requests;
  }

  module _ (j : Marshal) where
    pub send_in-Stays :
        (ports : Ports) (k : MessageContent) (now : ℕ) (id : Bytes) (found : Option Room)
        (d : Daemon)
        → get_room id d ≡ found
        → InStep c ctrl d
        → InStep c ctrl (send_in ctrl ports c j k now id found d).1
    unfolding send_in
    send_in-Stays ports k now id none d e s = s
    send_in-Stays ports k now id (some r) d e s =
        let fit : RoomOk c r =
          find_first-All (RoomOk c) (has_id id) d.rooms r (unfold get_room in e) s.rooms in
        write_room id d r (send_message_to_all_peers c j now k r).1 e (send-Keeps c j now k r fit.1)
          s

    pub send_message-Stays :
        (ports : Ports) (parse : Bytes → Option Bytes) (now : ℕ) (uid : Bytes) (k : MessageContent)
        → Stays c ctrl (send_message ctrl ports c j parse now uid k)
    unfolding send_message
    send_message-Stays ports parse now uid k d s = elim (Option-cases (parse uid)) [
      | inl e ↦ rw (e, send_message) s
      | inr (id, e) ↦ rw (e, send_message) (send_in-Stays ports k now id (get_room id d) d refl s)
    ]
