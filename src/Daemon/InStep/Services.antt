-- ===== src/Daemon/InStep/Services.antt =====
-- One room, contact identity or service more or fewer, and the hooks: what keeps a daemon in step.
use mathlib.Core.List.{Perm, perm_middle, perm_append_singleton}
use mathlib.Core.List.Perm
use onionmsg.Base.{
  ℕ, Bool, if◌then◌else◌, ◌≡◌, refl, sym, ◌∙◌, true, false, List, [], ◌∷◌, ◌++◌, map, some, Bytes,
  Outcome, ok, err, panic, All-append, append_assoc, ok-injective, >>=-eq-ok,
}
use onionmsg.Exec.{Exec, resume, try_modify}
use onionmsg.Ed25519.{Scheme, public_of}
use onionmsg.Identity.{Identity, fingerprint}
use onionmsg.Room.{Room, RoomInfo}
use onionmsg.Tor.{Controller, Onion, register_service, deregister_service}
use onionmsg.Daemon.Slices.{find_first}
use onionmsg.Daemon.Slices.Laws.{swap_remove-perm}
use onionmsg.Daemon.State.{
  Daemon, Event, room_added, has_id, get_room, has_fingerprint, delete_room_from_slice,
  delete_contact_id_from_slice, emit, call_hook, notify_new_room,
}
use onionmsg.Daemon.Services.{Ports, serve, withdraw, deref}
use onionmsg.Daemon.InStep.{Laws, InStep, IsOwn, RoomOk, service_of, or_empty, running, owed}
use onionmsg.Daemon.InStep.Lists.{swap_remove-All, map-append_one}

module _ (c : Scheme) (ctrl : Controller) where
  -- A method that keeps a daemon in step, however it ends.
  abbrev pub Stays : {A : Type 0} → Exec Daemon A → Type 0
  Stays m = (d : Daemon) → InStep c ctrl d → InStep c ctrl (m d).1

  pub resume-Stays :
      {A B : Type 0} (o : Outcome A) (k : A → Exec Daemon B) (d : Daemon)
      → InStep c ctrl d
      → ((a : A) → o ≡ ok a → InStep c ctrl (k a d).1)
      → InStep c ctrl (resume o k d).1
  resume-Stays (ok a) k d h rest = rest a refl
  resume-Stays (err e) k d h rest = h
  resume-Stays panic k d h rest = h

  emit-InStep : (e : Event) (d : Daemon) → InStep c ctrl d → InStep c ctrl (emit e d)
  unfolding emit
  emit-InStep e d s = record {
    served = s.served;
    contacts = s.contacts;
    rooms = s.rooms;
    requests = s.requests;
  }

  -- A hook that is called only if it is set, and one that is called whether or not it is.
  pub hook-Stays : (b : Bool) (e : Event) → Stays (try_modify (call_hook b e))
  unfolding call_hook
  hook-Stays true e d s = emit-InStep e d s
  hook-Stays false e d s = s

  pub if-Stays :
      (b : Bool) (f : Daemon → Outcome Daemon)
      → Stays (try_modify f)
      → Stays (try_modify (λ d. if b then f d else ok d))
  if-Stays true f h d s = h d s
  if-Stays false f h d s = s

  pub notify_new_room-Stays : (i : RoomInfo) → Stays (try_modify (notify_new_room i))
  unfolding notify_new_room
  notify_new_room-Stays i d =
      if-Stays d.hooks.new_message (call_hook d.hooks.new_room (room_added i))
        (hook-Stays d.hooks.new_room (room_added i)) d

  -- One more room or contact identity with its service, and one fewer.
  module _ (d : Daemon) (os : List Onion) (s : InStep c ctrl d) where
    module _ (r : Room) where
      one_room-perm :
          Perm
            (owed ctrl (record d { rooms = d.rooms ++ (r ∷ []) }))
            (service_of ctrl r.self ∷ owed ctrl d)
      one_room-perm =
          let f : Room → Bytes = λ x. service_of ctrl x.self in
          let own : List Bytes = map (service_of ctrl) d.contact_identities in
          rw (map-append_one f d.rooms r) (
            rw (← append_assoc own (map f d.rooms) (f r ∷ []))
              (perm_append_singleton (f r) (own ++ map f d.rooms)))

      pub add_room :
          RoomOk c r
          → Perm (map (λ o. o.service) os) (service_of ctrl r.self ∷ running d)
          → InStep c ctrl (record d { onions = os; rooms = d.rooms ++ (r ∷ []) })
      add_room fit grown = record {
        served = Perm.trans grown (Perm.trans (Perm.cons _ s.served) (Perm.symm one_room-perm));
        contacts = s.contacts;
        rooms = All-append (RoomOk c) d.rooms (r ∷ []) s.rooms (fit, tt);
        requests = s.requests;
      }

      fewer_rooms-perm :
          (id : Bytes)
          → get_room id d ≡ some r
          → Perm (owed ctrl d) (service_of ctrl r.self ∷ owed ctrl (delete_room_from_slice id d))
      unfolding delete_room_from_slice get_room
      fewer_rooms-perm id found =
          let f : Room → Bytes = λ x. service_of ctrl x.self in
          Perm.trans
            (Perm.append_left (map (service_of ctrl) d.contact_identities)
              (Perm.map f (swap_remove-perm (has_id id) d.rooms r found)))
            (perm_middle (map (service_of ctrl) d.contact_identities) _)

      pub remove_room :
          (id : Bytes)
          → get_room id d ≡ some r
          → Perm (running d) (service_of ctrl r.self ∷ map (λ o. o.service) os)
          → InStep c ctrl (delete_room_from_slice id (record d { onions = os }))
      unfolding delete_room_from_slice
      remove_room id found shrunk = record {
        served =
            Perm.cons_inv
              (Perm.trans (Perm.symm shrunk) (Perm.trans s.served (fewer_rooms-perm id found)));
        contacts = s.contacts;
        rooms = swap_remove-All (RoomOk c) (has_id id) d.rooms s.rooms;
        requests = s.requests;
      }

    module _ (i : Identity) where
      one_contact-perm :
          Perm
            (owed ctrl (record d { contact_identities = d.contact_identities ++ (i ∷ []) }))
            (service_of ctrl i ∷ owed ctrl d)
      one_contact-perm =
          let own : List Bytes = map (service_of ctrl) d.contact_identities in
          let rest : List Bytes = map (λ r. service_of ctrl r.self) d.rooms in
          rw (map-append_one (service_of ctrl) d.contact_identities i)
            (rw (append_assoc own (service_of ctrl i ∷ []) rest) (perm_middle own rest))

      pub add_contact :
          IsOwn c i
          → Perm (map (λ o. o.service) os) (service_of ctrl i ∷ running d)
          → InStep c ctrl
              (record d { onions = os; contact_identities = d.contact_identities ++ (i ∷ []) })
      add_contact own grown = record {
        served = Perm.trans grown (Perm.trans (Perm.cons _ s.served) (Perm.symm one_contact-perm));
        contacts = All-append (IsOwn c) d.contact_identities (i ∷ []) s.contacts (own, tt);
        rooms = s.rooms;
        requests = s.requests;
      }

      fewer_contacts-perm :
          find_first (has_fingerprint (fingerprint i)) d.contact_identities ≡ some i
          → Perm (owed ctrl d) (service_of ctrl i ∷ owed ctrl (delete_contact_id_from_slice i d))
      unfolding delete_contact_id_from_slice
      fewer_contacts-perm found = Perm.append_right _ (
          Perm.map (service_of ctrl)
            (swap_remove-perm (has_fingerprint (fingerprint i)) d.contact_identities i found))

      pub remove_contact :
          find_first (has_fingerprint (fingerprint i)) d.contact_identities ≡ some i
          → Perm (running d) (service_of ctrl i ∷ map (λ o. o.service) os)
          → InStep c ctrl (delete_contact_id_from_slice i (record d { onions = os }))
      unfolding delete_contact_id_from_slice
      remove_contact found shrunk = record {
        served =
            Perm.cons_inv
              (Perm.trans (Perm.symm shrunk) (Perm.trans s.served (fewer_contacts-perm found)));
        contacts =
            swap_remove-All (IsOwn c) (has_fingerprint (fingerprint i)) d.contact_identities
              s.contacts;
        rooms = s.rooms;
        requests = s.requests;
      }

  module _ (laws : Laws c ctrl) (ports : Ports) where
    -- The services after one was started, and after one was stopped.
    register_service-perm :
        (i : Identity) (tor_port local_port : ℕ) (os os' : List Onion) (own : IsOwn c i)
        → register_service ctrl own.key tor_port local_port os ≡ ok os'
        → Perm (map (λ o. o.service) os') (service_of ctrl i ∷ map (λ o. o.service) os)
    unfolding register_service service_of or_empty
    register_service-perm i tor_port local_port os os' own h =
        let (s, hs, rest) = >>=-eq-ok (ctrl.onion_from_ed25519 own.key) _ h in
        let same : ctrl.service_id_from_ed25519 (public_of own.key) ≡ ok s =
          sym (laws.same_service own.key own.generated) ∙ hs in
        rw own.pub_key (rw same (laws.added os os' _ rest))

    deregister_service-perm :
        (i : Identity) (os os' : List Onion) (own : IsOwn c i)
        → deregister_service ctrl (public_of own.key) os ≡ ok os'
        → Perm (map (λ o. o.service) os) (service_of ctrl i ∷ map (λ o. o.service) os')
    unfolding deregister_service service_of or_empty
    deregister_service-perm i os os' own h =
        let (s, hs, rest) = >>=-eq-ok (ctrl.service_id_from_ed25519 (public_of own.key)) _ h in
        rw own.pub_key (rw hs (laws.deleted os os' s rest))

    module _ (i : Identity) (own : IsOwn c i) (d : Daemon) where
      pub serve_lem :
          (tor_port local_port : ℕ) (t : Daemon)
          → serve ctrl ports tor_port local_port i d ≡ ok t
          → (os : List Onion) × (t ≡ record d { onions = os })
            × Perm (map (λ o. o.service) os) (service_of ctrl i ∷ running d)
      unfolding serve deref
      serve_lem tor_port local_port t h =
          let (os, hos, e) =
            >>=-eq-ok (register_service ctrl own.key tor_port local_port d.onions) _
              (rw own.priv at h) in
          (
            os,
            sym (ok-injective e),
            register_service-perm i tor_port local_port d.onions os own hos,
          )

      pub withdraw_lem :
          (t : Daemon)
          → withdraw ctrl ports i d ≡ ok t
          → (os : List Onion) × (t ≡ record d { onions = os })
            × Perm (running d) (service_of ctrl i ∷ map (λ o. o.service) os)
      unfolding withdraw deref
      withdraw_lem t h =
          let (os, hos, e) =
            >>=-eq-ok (deregister_service ctrl (public_of own.key) d.onions) _
              (rw own.pub_key at h) in
          (os, sym (ok-injective e), deregister_service-perm i d.onions os own hos)
