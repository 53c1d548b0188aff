-- ===== src/Daemon/InStep/Started.antt =====
-- `initContIDServices` and `initRooms` bring a daemon that was loaded into step.
use mathlib.Core.List.{Perm, perm_middle, perm_append_comm}
use mathlib.Core.List.Perm
use mathlib.Core.Path.{subst}
use onionmsg.Base.{
  ℕ, ◌≡◌, refl, ap, sym, ◌∙◌, List, [], ◌∷◌, ◌++◌, map, Bytes, Outcome, Error, ok, err, panic, All,
  append-nil, ok-injective, >>=-eq-ok, arith,
}
use onionmsg.Base
use onionmsg.Exec.{Exec, done, try_modify, ◌>>◌}
use onionmsg.Ed25519.{Scheme}
use onionmsg.Identity.{Identity}
use onionmsg.Room.{Room, run_message_queue_for_all_peers}
use onionmsg.Tor.{Controller, Onion}
use onionmsg.Daemon.State.{Daemon, pub_conv_port, pub_cont_port}
use onionmsg.Daemon.Services.{Ports, serve, serve_conv_id_service, serve_cont_id_service}
use onionmsg.Daemon.Rooms.{
  serve_rooms, run_rooms, init_rooms, serve_contacts, init_cont_id_services,
}
use onionmsg.Daemon.InStep.{Laws, InStep, Stored, IsOwn, RoomOk, service_of, running}
use onionmsg.Daemon.InStep.Kin.{run_queues-Kin}
use onionmsg.Daemon.InStep.Services.{serve_lem}
use onionmsg.Daemon.InStep.Operations.{Kin-RoomOk, Kin-service_of}

-- A call that went through, and the rest of the function.
inverted :
    (f : Daemon → Outcome Daemon) (k : Exec Daemon (Unit {0})) (d t : Daemon)
    → (do try_modify f; k) d ≡ (ok tt, t)
    → (s : Daemon) × (f d ≡ ok s) × (k s ≡ (ok tt, t))
inverted f k d t h = go (f d) refl h
  where
    go :
        (o : Outcome Daemon)
        → f d ≡ o
        → (do try_modify f; k) d ≡ (ok tt, t)
        → (s : Daemon) × (f d ≡ ok s) × (k s ≡ (ok tt, t))
    go (ok s) e h = (s, e, rw e at h)
    go (err g) e h = absurd (let h' = rw e at h in ground arith)
    go panic e h = absurd (let h' = rw e at h in ground arith)

-- A write at the end of a function is followed by nothing.
written :
    (f : Daemon → Outcome Daemon) (d t : Daemon)
    → try_modify f d ≡ (ok tt, t)
    → (do try_modify f; done) d ≡ (ok tt, t)
written f d t h = go (f d) refl h
  where
    go :
        (o : Outcome Daemon)
        → f d ≡ o
        → try_modify f d ≡ (ok tt, t)
        → (do try_modify f; done) d ≡ (ok tt, t)
    go (ok s) e h = rw e (rw e at h)
    go (err g) e h = rw e (rw e at h)
    go panic e h = rw e (rw e at h)

halves :
    (m k : Exec Daemon (Unit {0})) (d t : Daemon)
    → (do m; k) d ≡ (ok tt, t)
    → (s : Daemon) × (m d ≡ (ok tt, s)) × (k s ≡ (ok tt, t))
halves m k d t h = go (m d) refl h
  where
    go :
        (o : Outcome (Unit {0}) × Daemon)
        → m d ≡ o
        → (do m; k) d ≡ (ok tt, t)
        → (s : Daemon) × (m d ≡ (ok tt, s)) × (k s ≡ (ok tt, t))
    go (ok u, s) e h = (s, e, rw e at h)
    go (err g, s) e h = absurd (let h' = rw e at h in ground arith)
    go (panic, s) e h = absurd (let h' = rw e at h in ground arith)

map-self :
    (f : Identity → Bytes) (rs : List Room) → map f (map (λ r. r.self) rs) ≡ map (λ r. f r.self) rs
map-self f [] = refl
map-self f (r ∷ rs) = ap (λ bs. f r.self ∷ bs) (map-self f rs)

module _ (c : Scheme) (ctrl : Controller) where
  -- Services that were started for some identities, beside those that ran.
  record Serving (is : List Identity) (d t : Daemon) : Type 0 where
    os : List Onion
    only : t ≡ record d { onions = os }
    grown : Perm (map (λ o. o.service) os) (map (service_of ctrl) is ++ running d)

  Serving-refl : (d : Daemon) → Serving [] d d
  Serving-refl d = record { os = d.onions; only = refl; grown = Perm.refl (running d) }

  Serving-cons :
      (i : Identity) (is : List Identity) (d s t : Daemon) (os : List Onion)
      → s ≡ record d { onions = os }
      → Perm (map (λ o. o.service) os) (service_of ctrl i ∷ running d)
      → Serving is s t
      → Serving (i ∷ is) d t
  Serving-cons i is d s t os e first rest =
      let before : running s ≡ map (λ o. o.service) os = ap running e in
      record {
        os = rest.os;
        only = rest.only ∙ ap (λ (x : Daemon). record x { onions = rest.os }) e;
        grown = Perm.trans rest.grown (
            rw before (
              Perm.trans (Perm.append_left (map (service_of ctrl) is) first)
                (perm_middle (map (service_of ctrl) is) (running d))));
      }

  module _ (laws : Laws c ctrl) (ports : Ports) where
    serve_contacts-Serving :
        (is : List Identity) (d t : Daemon)
        → All (IsOwn c) is
        → serve_contacts ctrl ports is d ≡ (ok tt, t)
        → Serving is d t
    unfolding serve_contacts serve_cont_id_service
    serve_contacts-Serving [] d t own h =
        rw (← ap (λ (x : Outcome (Unit {0}) × Daemon). x.1) h) (Serving-refl d)
    serve_contacts-Serving (i ∷ is) d t own h =
        let (s, hs, rest) =
          inverted (serve ctrl ports pub_cont_port ports.lo_cont_port i)
            (serve_contacts ctrl ports is) d t h in
        let (os, e, first) =
          serve_lem c ctrl laws ports i own.0 d pub_cont_port ports.lo_cont_port s hs in
        Serving-cons i is d s t os e first (serve_contacts-Serving is s t own.1 rest)

    serve_rooms-Serving :
        (rs : List Room) (d t : Daemon)
        → All (RoomOk c) rs
        → serve_rooms ctrl ports rs d ≡ (ok tt, t)
        → Serving (map (λ r. r.self) rs) d t
    unfolding serve_rooms serve_conv_id_service
    serve_rooms-Serving [] d t fit h =
        rw (← ap (λ (x : Outcome (Unit {0}) × Daemon). x.1) h) (Serving-refl d)
    serve_rooms-Serving (r ∷ rs) d t fit h =
        let (s, hs, rest) =
          inverted (serve ctrl ports pub_conv_port ports.lo_conv_port r.self)
            (serve_rooms ctrl ports rs) d t h in
        let (os, e, first) =
          serve_lem c ctrl laws ports r.self fit.0.0 d pub_conv_port ports.lo_conv_port s hs in
        Serving-cons r.self (map (λ r. r.self) rs) d s t os e first
          (serve_rooms-Serving rs s t fit.1 rest)

    run_rooms-Kin :
        (rs ss : List Room)
        → All (RoomOk c) rs
        → run_rooms ctrl ports rs ≡ ok ss
        → All (RoomOk c) ss
          × (map (λ r. service_of ctrl r.self) ss ≡ map (λ r. service_of ctrl r.self) rs)
    unfolding run_rooms
    run_rooms-Kin [] ss fit h = rw (← ok-injective h) (tt, refl)
    run_rooms-Kin (r ∷ rs) ss fit h =
        let (s, hs, rest) = >>=-eq-ok (run_message_queue_for_all_peers r) _ h in
        let (ts, hts, e) = >>=-eq-ok (run_rooms ctrl ports rs) _ rest in
        let kin = run_queues-Kin r s fit.0.1 hs in
        let (others, same) = run_rooms-Kin rs ts fit.1 hts in
        rw (← ok-injective e)
          ((Kin-RoomOk c kin fit.0, others), rw (same, Kin-service_of c ctrl r s kin) refl)

    -- The rooms after their queues were started, with their services beside those of the contacts.
    all_served :
        (d s u : Daemon) (ss : List Room)
        → Stored c d
        → Serving d.contact_identities d s
        → Serving (map (λ r. r.self) s.rooms) s u
        → run_rooms ctrl ports u.rooms ≡ ok ss
        → InStep c ctrl (record u { rooms = ss })
    all_served d s u ss stored first second h =
        let contacts : List Bytes = map (service_of ctrl) d.contact_identities in
        let f : Room → Bytes = λ r. service_of ctrl r.self in
        let same_s : s.rooms ≡ d.rooms = ap (λ (x : Daemon). x.rooms) first.only in
        let same_u : u.rooms ≡ d.rooms = ap (λ (x : Daemon). x.rooms) second.only ∙ same_s in
        let onions_s : running s ≡ map (λ o. o.service) first.os = ap running first.only in
        let onions_u : running u ≡ map (λ o. o.service) second.os = ap running second.only in
        let contacts_u : u.contact_identities ≡ d.contact_identities =
          ap (λ (x : Daemon). x.contact_identities) second.only
          ∙ ap (λ (x : Daemon). x.contact_identities) first.only in
        let requests_u : u.requests ≡ d.requests =
          ap (λ (x : Daemon). x.requests) second.only
          ∙ ap (λ (x : Daemon). x.requests) first.only in
        let (fit, same) = run_rooms-Kin d.rooms ss stored.rooms (rw same_u at h) in
        let silent : contacts ++ running d ≡ contacts =
          ap (λ os. contacts ++ map (λ o. o.service) os) stored.silent ∙ append-nil contacts in
        let of_contacts : Perm (running s) contacts =
          rw onions_s (subst (Perm (map (λ o. o.service) first.os)) silent first.grown) in
        let of_rooms : Perm (running u) (map f d.rooms ++ running s) = rw onions_u (
          subst (λ bs. Perm (map (λ o. o.service) second.os) (bs ++ running s))
            (map-self (service_of ctrl) s.rooms ∙ ap (map f) same_s) second.grown) in
        record {
          served =
              rw (contacts_u, same)
                (Perm.trans of_rooms (
                  Perm.trans (Perm.append_left (map f d.rooms) of_contacts)
                    (perm_append_comm (map f d.rooms) contacts)));
          contacts = rw contacts_u stored.contacts;
          rooms = fit;
          requests = rw requests_u stored.requests;
        }

    pub init-InStep :
        (d t : Daemon)
        → Stored c d
        → (do init_cont_id_services ctrl ports; init_rooms ctrl ports) d ≡ (ok tt, t)
        → InStep c ctrl t
    unfolding init_cont_id_services init_rooms
    init-InStep d t stored h =
        let (s, hs, rest) =
          halves (init_cont_id_services ctrl ports) (init_rooms ctrl ports) d t h in
        let first = serve_contacts-Serving d.contact_identities d s stored.contacts hs in
        let same_s : s.rooms ≡ d.rooms = ap (λ (x : Daemon). x.rooms) first.only in
        let run : Daemon → Outcome Daemon =
          λ d. Base.◌>>=◌ (run_rooms ctrl ports d.rooms) λ rs. ok (record d { rooms = rs }) in
        let (u, hu, last) = halves (serve_rooms ctrl ports s.rooms) (try_modify run) s t rest in
        let second = serve_rooms-Serving s.rooms s u (rw same_s stored.rooms) hu in
        let (w, hw, e) = inverted run done u t (written run u t last) in
        let (ss, hss, e') = >>=-eq-ok (run_rooms ctrl ports u.rooms) _ hw in
        let end : w ≡ t = ap (λ (x : Outcome (Unit {0}) × Daemon). x.1) e in
        subst (InStep c ctrl) (ok-injective e' ∙ end) (all_served d s u ss stored first second hss)
