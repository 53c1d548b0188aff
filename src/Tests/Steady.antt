-- ===== src/Tests/Steady.antt =====
-- A Tor that keeps its laws, and a daemon in step with it.
use mathlib.Core.List.{Perm}
use mathlib.Core.List.Perm
use mathlib.Core.Path.{subst}
use onionmsg.Base.{
  Bool, map, ◌≡◌, refl, false, List, [], ◌∷◌, none, some, Bytes, Outcome, ok, err, tor_error,
  Option-cases, inl, inr, ok-injective, same, same_iff, drop, arith,
}
use onionmsg.Ed25519.{toy, all_bytes, public_of}
use onionmsg.Tor.{Controller, Onion, register_service}
use onionmsg.Daemon.Slices.{find_first, swap_remove}
use onionmsg.Daemon.Slices.Laws.{find_first-match, swap_remove-perm}
use onionmsg.Daemon.State.{Daemon}
use onionmsg.Daemon.Services.{
  create_contact_id, serve, deref, serve_conv_id_service, serve_cont_id_service,
}
use onionmsg.Daemon.Rooms.{
  delete_room, init_rooms, init_cont_id_services, serve_rooms, serve_contacts, run_rooms,
}
use onionmsg.Daemon.InStep.{Laws, InStep, Stored, IsOwn}
use onionmsg.Daemon.InStep.Steps.{here, next, room_deleted, contact_created, Reach-InStep}
use onionmsg.Peer.{absent, start_queue}
use onionmsg.Room.{set_context, run_message_queue_for_all_peers, start_all}
use onionmsg.Daemon.Requests.{with_context}
use onionmsg.Lifecycle.{
  holds, Storage, Process, start_daemon, loaded, load_data, load_compressed_data, with_contexts,
  init_hidden_services,
}
use onionmsg.Lifecycle.Steadiness.{start_daemon-InStep}
use onionmsg.Tests.Rooms.{room-IsReady}
use onionmsg.Tests.Data.{
  alice, alice_key, bob_key, bob_contact, room, room_id, daemon, ports, plain, repeat, uncompressed,
}

abbrev serves : Bytes → Onion → Bool
serves sid o = same o.service sid

abbrev delete : List Onion → Bytes → Outcome (List Onion)
delete os sid = elim (find_first (serves sid) os) [
  | none ↦ err tor_error
  | some o ↦ ok (swap_remove (serves sid) os)
]

abbrev strict_tor : Controller
strict_tor = record {
  onion_from_ed25519 = λ key. ok (drop 32 key);
  service_id_from_ed25519 = ok;
  add_onion = λ os o. ok (o ∷ os);
  delete_onion = delete;
}

deleted_lem :
    (os os' : List Onion) (sid : Bytes)
    → delete os sid ≡ ok os'
    → Perm (map (λ o. o.service) os) (sid ∷ map (λ o. o.service) os')
deleted_lem os os' sid h = elim (Option-cases (find_first (serves sid) os)) [
  | inl e ↦ absurd (let h' = rw (e, delete) at h in ground arith)
  | inr (o, e) ↦
      let left : swap_remove (serves sid) os ≡ os' = ok-injective (rw (e, delete) at h) in
      let named : o.service ≡ sid =
        (same_iff o.service sid).0 (find_first-match (serves sid) os o e) in
      let shorter = Perm.map (λ o. o.service) (swap_remove-perm (serves sid) os o e) in
      rw (← left) (
        subst
          (λ x.
            Perm (map (λ o. o.service) os) (x ∷ map (λ o. o.service) (swap_remove (serves sid) os)))
          named shorter)
]

strict_tor-Laws : Laws toy strict_tor
unfolding public_of
strict_tor-Laws = record {
  same_service = λ key generated. refl;
  added = λ os os' o h. rw (← ok-injective h) (Perm.refl _);
  deleted = deleted_lem;
}

alice-IsOwn : IsOwn toy alice
unfolding toy all_bytes public_of
alice-IsOwn = record { key = alice_key; generated = refl; priv = refl; pub_key = refl }

bob_contact-IsOwn : IsOwn toy bob_contact
unfolding toy all_bytes public_of
bob_contact-IsOwn = record { key = bob_key; generated = refl; priv = refl; pub_key = refl }

-- What a data file may hold: a contact identity, a room and a request.
abbrev stored : Daemon
stored = record daemon { rooms = record room { ctx = absent } ∷ []; onions = [] }

stored-Stored : Stored toy (with_contexts stored)
unfolding with_contexts with_context set_context
stored-Stored = record {
  silent = refl;
  contacts = (bob_contact-IsOwn, tt);
  rooms = ((alice-IsOwn, room-IsReady), tt);
  requests = ((alice-IsOwn, room-IsReady), tt);
}

abbrev storage : Storage
storage = record {
  zstd = uncompressed;
  marshal = λ d. some (1 ∷ []);
  unmarshal = λ raw d. stored;
  salvaged = λ comp. [];
}

abbrev before : Process
before = record {
  tor_running = false;
  load_fuse = false;
  listening = false;
  auto_accept_requests = false;
  daemon = record stored { contact_identities = []; rooms = []; requests = [] };
  file = holds (1 ∷ []);
}

abbrev works : Outcome (Unit {0})
works = ok tt

abbrev started : Process
started = (start_daemon storage strict_tor ports works works false before).1

file-loads :
    (d : Daemon)
    → loaded before.daemon (load_compressed_data storage before.file before.daemon) ≡ ok d
    → Stored toy (with_contexts d)
unfolding loaded load_compressed_data
file-loads d h = rw (← ok-injective h) stored-Stored

start_daemon-InStep_example : InStep toy strict_tor started.daemon
unfolding start_daemon load_data loaded load_compressed_data init_hidden_services init_rooms
    init_cont_id_services serve_rooms serve_contacts run_rooms serve_conv_id_service
    serve_cont_id_service serve deref register_service with_contexts with_context set_context
    run_message_queue_for_all_peers start_all start_queue
start_daemon-InStep_example =
    start_daemon-InStep toy strict_tor strict_tor-Laws ports storage works works false before
      started file-loads refl

abbrev later : Daemon
later =
    (create_contact_id strict_tor ports (repeat 64 3)
      (delete_room strict_tor ports some room_id started.daemon).1).1

Reach-InStep_example : InStep toy strict_tor later
unfolding toy all_bytes
Reach-InStep_example =
    Reach-InStep {ports = ports} {j = plain} {z = uncompressed} strict_tor-Laws {d = started.daemon}
      (next (next here (room_deleted some room_id started.daemon))
        (contact_created (repeat 64 3) _ refl))
      start_daemon-InStep_example
