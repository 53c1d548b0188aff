-- ===== src/Daemon/InStep/Registered.antt =====
-- What registers and removes rooms and contact identities, however Tor answers.
use onionmsg.Base.{
  ◌≡◌, refl, true, [], ◌∷◌, ◌++◌, Option, none, some, Bytes, Outcome, ok, Outcome-cases,
  Option-cases, inl, inr, same_iff,
}
use onionmsg.Exec.{Exec, try_modify, ◌>>◌}
use onionmsg.Ed25519.{Scheme, public_of}
use onionmsg.Identity.{Identity, fingerprint, contact, new_identity}
use onionmsg.Identity.Keys.{new_identity_keys}
use onionmsg.Room.{Room, info}
use onionmsg.Tor.{Controller}
use onionmsg.Daemon.Slices.Laws.{find_first-match}
use onionmsg.Daemon.State.{
  Daemon, has_id, get_room, get_contact_id, has_fingerprint, pub_conv_port, pub_cont_port,
}
use onionmsg.Daemon.Services.{
  Ports, serve, withdraw, serve_conv_id_service, serve_cont_id_service, register_room,
  remove_found_room, deregister_room, register_cont_id, remove_found_contact, deregister_cont_id,
  create_contact_id,
}
use onionmsg.Daemon.Services.Removal.{stop_queues-ok}
use onionmsg.Daemon.Rooms.{delete_room}
use onionmsg.Daemon.InStep.{Laws, InStep, IsOwn, RoomOk}
use onionmsg.Daemon.InStep.Lists.{find_first-All}
use onionmsg.Daemon.InStep.Services.{
  Stays, resume-Stays, notify_new_room-Stays, add_room, remove_room, add_contact, remove_contact,
  serve_lem, withdraw_lem,
}

pub IsOwn-of :
    (c : Scheme) (key : Bytes) (i : Identity)
    → c.is_key key ≡ true
    → i.priv ≡ some key
    → i.pub_key ≡ some (public_of key)
    → IsOwn c i
IsOwn-of c key i generated priv pub_key = record {
  key = key;
  generated = generated;
  priv = priv;
  pub_key = pub_key;
}

module _ (c : Scheme) (ctrl : Controller) (laws : Laws c ctrl) (ports : Ports) where
  -- What is done with the state that a fallible call returned.
  after :
      (f : Daemon → Outcome Daemon) (k : Exec Daemon (Unit {0})) (d : Daemon)
      → InStep c ctrl d
      → ((t : Daemon) → f d ≡ ok t → InStep c ctrl (k t).1)
      → InStep c ctrl ((do try_modify f; k) d).1
  after f k d s rest = elim (Outcome-cases (f d)) [
    | inl (t, e) ↦ rw e (rest t e)
    | inr (inl (g, e)) ↦ rw e s
    | inr (inr e) ↦ rw e s
  ]

  pub register_room-Stays : (r : Room) → RoomOk c r → Stays c ctrl (register_room ctrl ports r)
  unfolding register_room serve_conv_id_service
  register_room-Stays r fit d s =
      after (serve ctrl ports pub_conv_port ports.lo_conv_port r.self) _ d s (λ t e.
        let (os, same, grown) =
          serve_lem c ctrl laws ports r.self fit.0 d pub_conv_port ports.lo_conv_port t e in
        let joined : InStep c ctrl (record t { rooms = t.rooms ++ (r ∷ []) }) =
          rw same (add_room c ctrl d os s r fit grown) in
        resume-Stays c ctrl (info r) _ _ joined (λ i e. notify_new_room-Stays c ctrl i _ joined))

  remove_found_room-Stays :
      (id : Bytes) (found : Option Room) (d : Daemon)
      → get_room id d ≡ found
      → InStep c ctrl d
      → InStep c ctrl (remove_found_room ctrl ports id found d).1
  unfolding remove_found_room get_room
  remove_found_room-Stays id none d e s = s
  remove_found_room-Stays id (some r) d e s =
      let fit : RoomOk c r = find_first-All (RoomOk c) (has_id id) d.rooms r e s.rooms in
      after (withdraw ctrl ports r.self) _ d s (λ t h.
        let (os, same, shrunk) = withdraw_lem c ctrl laws ports r.self fit.0 d t h in
        let (stopped, hs) = stop_queues-ok r fit.1.has_ctx in
        rw hs (rw same (remove_room c ctrl d os s r id e shrunk)))

  pub deregister_room-Stays : (id : Bytes) → Stays c ctrl (deregister_room ctrl ports id)
  unfolding deregister_room
  deregister_room-Stays id d s = remove_found_room-Stays id (get_room id d) d refl s

  pub register_cont_id-Stays :
      (i : Identity) → IsOwn c i → Stays c ctrl (register_cont_id ctrl ports i)
  unfolding register_cont_id serve_cont_id_service
  register_cont_id-Stays i own d s =
      after (serve ctrl ports pub_cont_port ports.lo_cont_port i) _ d s (λ t e.
        let (os, same, grown) =
          serve_lem c ctrl laws ports i own d pub_cont_port ports.lo_cont_port t e in
        rw same (add_contact c ctrl d os s i own grown))

  remove_found_contact-Stays :
      (fp : Bytes) (found : Option Identity) (d : Daemon)
      → get_contact_id fp d ≡ found
      → InStep c ctrl d
      → InStep c ctrl (remove_found_contact ctrl ports found d).1
  unfolding remove_found_contact get_contact_id
  remove_found_contact-Stays fp none d e s = s
  remove_found_contact-Stays fp (some i) d e s =
      let own : IsOwn c i =
        find_first-All (IsOwn c) (has_fingerprint fp) d.contact_identities i e s.contacts in
      let named : fingerprint i ≡ fp =
        (same_iff (fingerprint i) fp).0
          (find_first-match (has_fingerprint fp) d.contact_identities i e) in
      after (withdraw ctrl ports i) _ d s (λ t h.
        let (os, same, shrunk) = withdraw_lem c ctrl laws ports i own d t h in
        rw same (remove_contact c ctrl d os s i (rw named e) shrunk))

  pub deregister_cont_id-Stays : (fp : Bytes) → Stays c ctrl (deregister_cont_id ctrl ports fp)
  unfolding deregister_cont_id
  deregister_cont_id-Stays fp d s = remove_found_contact-Stays fp (get_contact_id fp d) d refl s

  pub create_contact_id-Stays :
      (key : Bytes) → c.is_key key ≡ true → Stays c ctrl (create_contact_id ctrl ports key)
  unfolding create_contact_id
  create_contact_id-Stays key generated d s =
      resume-Stays c ctrl (new_identity contact key []) _ d s (λ i made.
        let (priv, pub_key) = new_identity_keys c key generated contact [] (λ p. cc) made in
        let stays : InStep c ctrl (register_cont_id ctrl ports i d).1 =
          register_cont_id-Stays i (IsOwn-of c key i generated priv pub_key) d s in
        resume-Stays c ctrl (register_cont_id ctrl ports i d).0 _
          (register_cont_id ctrl ports i d).1 stays (λ u e. stays))

  pub delete_room-Stays :
      (parse : Bytes → Option Bytes) (uid : Bytes) → Stays c ctrl (delete_room ctrl ports parse uid)
  unfolding delete_room
  delete_room-Stays parse uid d s = elim (Option-cases (parse uid)) [
    | inl e ↦ rw (e, delete_room) s
    | inr (id, e) ↦ rw (e, delete_room) (deregister_room-Stays id d s)
  ]
