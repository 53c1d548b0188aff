-- ===== src/Daemon/InStep/Accepted.antt =====
-- `acceptRoomRequest` keeps a daemon in step: the room of the request joins the rooms, and is then
-- changed through the request.
use mathlib.Core.Path.{subst}
use onionmsg.Base.{
  ℕ, ◌≡◌, refl, ap, sym, ◌∙◌, List, [], ◌∷◌, ◌++◌, map, Option, none, some, Bytes, Outcome, ok, err,
  panic, All, Bool, true, false, Bool-cases, inl, inr, ok-injective, >>=-eq-ok, arith,
}
use onionmsg.Exec.{resume, write_or, try_modify}
use onionmsg.Ed25519.{Scheme}
use onionmsg.Message.{Marshal}
use onionmsg.Room.{Room, RoomInfo, info, run_message_queue_for_all_peers}
use onionmsg.Push.{send_message_to_all_peers}
use onionmsg.Tor.{Controller, register_service}
use onionmsg.Daemon.Slices.{find_first}
use onionmsg.Daemon.State.{
  Daemon, RoomRequest, Event, has_request_id, notify_new_room, call_hook, emit, pub_conv_port,
  room_added,
}
use onionmsg.Daemon.Services.{Ports, register_room, serve, deref, serve_conv_id_service}
use onionmsg.Daemon.Requests.{
  with_context, open_room, write_request_room, write_last_room, accept_found, accept_room_request,
  accept_content,
}
use onionmsg.Daemon.InStep.{Laws, InStep, RoomOk, RequestOk, service_of}
use onionmsg.Daemon.InStep.Lists.{find_first-All, write_first-All}
use onionmsg.Daemon.InStep.Kin.{Kin, Kin-trans, send-Keeps, run_queues-Kin}
use onionmsg.Daemon.InStep.Services.{Stays, resume-Stays}
use onionmsg.Daemon.InStep.Registered.{register_room-Stays}
use onionmsg.Daemon.InStep.Operations.{
  with_context_idem, Kin-RoomOk, Kin-service_of, delete_room_request-InStep,
}

-- A registration that succeeds puts the room last.
call_hook-rooms : (b : Bool) (e : Event) (d t : Daemon) → call_hook b e d ≡ ok t → t.rooms ≡ d.rooms
unfolding call_hook emit
call_hook-rooms true e d t h = ap (λ (x : Daemon). x.rooms) (sym (ok-injective h))
call_hook-rooms false e d t h = absurd (ground arith)

notify_new_room-rooms :
    (i : RoomInfo) (d t : Daemon) → notify_new_room i d ≡ ok t → t.rooms ≡ d.rooms
unfolding notify_new_room
notify_new_room-rooms i d t h = elim (Bool-cases d.hooks.new_message) [
  | inl set ↦ call_hook-rooms d.hooks.new_room (room_added i) d t (simp set at h)
  | inr nil ↦ ap (λ (x : Daemon). x.rooms) (sym (ok-injective (simp nil at h)))
]

module _ (ctrl : Controller) (ports : Ports) where
  serve-rooms :
      (tor_port local_port : ℕ) (r : Room) (d t : Daemon)
      → serve ctrl ports tor_port local_port r.self d ≡ ok t
      → t.rooms ≡ d.rooms
  unfolding serve
  serve-rooms tor_port local_port r d t h =
      let (key, hk, rest) = >>=-eq-ok (deref r.self.priv) _ h in
      let (os, hos, e) =
        >>=-eq-ok (register_service ctrl key tor_port local_port d.onions) _ rest in
      ap (λ (x : Daemon). x.rooms) (sym (ok-injective e))

  register_room-rooms :
      (r : Room) (d : Daemon) (u : Unit {0})
      → (register_room ctrl ports r d).0 ≡ ok u
      → (register_room ctrl ports r d).1.rooms ≡ d.rooms ++ (r ∷ [])
  unfolding register_room serve_conv_id_service
  register_room-rooms r d u h =
      served (serve ctrl ports pub_conv_port ports.lo_conv_port r.self d) refl h
    where
      told :
          (t : Daemon) (i : RoomInfo) (o : Outcome Daemon)
          → notify_new_room i t ≡ o
          → (write_or o t).1.rooms ≡ t.rooms
      told t i (ok x) e = notify_new_room-rooms i t x e
      told t i (err g) e = refl
      told t i panic e = refl

      informed :
          (t : Daemon) (o : Outcome RoomInfo)
          → (resume o (λ i. try_modify (notify_new_room i)) t).1.rooms ≡ t.rooms
      informed t (ok i) = told t i (notify_new_room i t) refl
      informed t (err g) = refl
      informed t panic = refl

      served :
          (o : Outcome Daemon)
          → serve ctrl ports pub_conv_port ports.lo_conv_port r.self d ≡ o
          → (register_room ctrl ports r d).0 ≡ ok u
          → (register_room ctrl ports r d).1.rooms ≡ d.rooms ++ (r ∷ [])
      served (ok t) e h =
          rw (e, register_room, serve_conv_id_service)
            (informed (record t { rooms = t.rooms ++ (r ∷ []) }) (info r)
              ∙ ap (λ rs. rs ++ (r ∷ [])) (serve-rooms pub_conv_port ports.lo_conv_port r d t e))
      served (err g) e h =
          absurd (let h' = rw (e, register_room, serve_conv_id_service) at h in ground arith)
      served panic e h =
          absurd (let h' = rw (e, register_room, serve_conv_id_service) at h in ground arith)

module _ (c : Scheme) (ctrl : Controller) (ports : Ports) (j : Marshal) where
  write_last_room-All :
      (P : Room → Type 0) (t : Room) (rs : List Room)
      → P t
      → All P rs
      → All P (write_last_room ctrl ports c j t rs)
  unfolding write_last_room
  write_last_room-All P t [] ht h = tt
  write_last_room-All P t (s ∷ []) ht h = (ht, tt)
  write_last_room-All P t (s ∷ r ∷ rs) ht h = (h.0, write_last_room-All P t (r ∷ rs) ht h.1)

  map-write_last_room :
      (f : Room → Bytes) (r t : Room) (rs : List Room)
      → f t ≡ f r
      → map f (write_last_room ctrl ports c j t (rs ++ (r ∷ []))) ≡ map f (rs ++ (r ∷ []))
  unfolding write_last_room
  map-write_last_room f r t [] e = ap (λ b. b ∷ []) e
  map-write_last_room f r t (s ∷ []) e = ap (λ b. f s ∷ b ∷ []) e
  map-write_last_room f r t (s ∷ x ∷ rs) e =
      ap (λ bs. f s ∷ bs) (map-write_last_room f r t (x ∷ rs) e)

  -- The last room, after its methods ran.
  write_last :
      (d : Daemon) (rs : List Room) (r t : Room)
      → d.rooms ≡ rs ++ (r ∷ [])
      → RoomOk c r
      → Kin r t
      → InStep c ctrl d
      → InStep c ctrl (record d { rooms = write_last_room ctrl ports c j t d.rooms })
  write_last d rs r t last fit kin s =
      let f : Room → Bytes = λ x. service_of ctrl x.self in
      let same : map f (write_last_room ctrl ports c j t d.rooms) ≡ map f d.rooms =
        ap (λ xs. map f (write_last_room ctrl ports c j t xs)) last
        ∙ (map-write_last_room f r t rs (Kin-service_of c ctrl r t kin) ∙ sym (ap (map f) last)) in
      record {
        served = rw same s.served;
        contacts = s.contacts;
        rooms = write_last_room-All (RoomOk c) t d.rooms (Kin-RoomOk c kin fit) s.rooms;
        requests = s.requests;
      }

  open_room-Kin :
      (now : ℕ) (r t : Room) → RoomOk c r → open_room ctrl ports c j now r ≡ ok t → Kin r t
  unfolding open_room
  open_room-Kin now r t fit h =
      let (s, hs, rest) = >>=-eq-ok (run_message_queue_for_all_peers r) _ h in
      let started : Kin r s = run_queues-Kin r s fit.1 hs in
      let (u, hu, e) =
        >>=-eq-ok (send_message_to_all_peers c j now (accept_content ctrl ports c j) s).0 _ rest in
      rw (← ok-injective e)
        (Kin-trans started (send-Keeps c j now (accept_content ctrl ports c j) s started.ready))

  module _ (laws : Laws c ctrl) (now : ℕ) (id : Bytes) where
    accept_found-Stays :
        (found : Option RoomRequest) (d : Daemon)
        → find_first (has_request_id id) d.requests ≡ found
        → InStep c ctrl d
        → InStep c ctrl (accept_found ctrl ports c j now id found d).1
    unfolding accept_found write_request_room
    accept_found-Stays none d e s = s
    accept_found-Stays (some v) d e s =
        let r : Room = with_context v.room in
        let fit : RequestOk c v =
          find_first-All (RequestOk c) (has_request_id id) d.requests v e s.requests in
        let v' : RequestOk c (record v { room = r }) =
          subst (RoomOk c) (sym (with_context_idem r fit.1.has_ctx)) fit in
        let d1 : Daemon = write_request_room ctrl ports c j id v r d in
        let s1 : InStep c ctrl d1 = record {
          served = s.served;
          contacts = s.contacts;
          rooms = s.rooms;
          requests =
              write_first-All (RequestOk c) (has_request_id id) (record v { room = r }) d.requests
                v' s.requests;
        } in
        let d2 : Daemon = (register_room ctrl ports r d1).1 in
        let s2 : InStep c ctrl d2 = register_room-Stays c ctrl laws ports r fit d1 s1 in
        resume-Stays c ctrl (register_room ctrl ports r d1).0 _ d2 s2 (λ u registered.
          resume-Stays c ctrl (open_room ctrl ports c j now r) _ d2 s2 (λ t opened.
            delete_room_request-InStep c ctrl id _ (
              write_last d2 d1.rooms r t (register_room-rooms ctrl ports r d1 u registered) fit
                (open_room-Kin now r t fit opened) s2)))

    pub accept_room_request-Stays : Stays c ctrl (accept_room_request ctrl ports c j now id)
    unfolding accept_room_request
    accept_room_request-Stays d s =
        accept_found-Stays (find_first (has_request_id id) d.requests) d refl s
