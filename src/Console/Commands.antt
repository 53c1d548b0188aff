-- ===== src/Console/Commands.antt =====
-- The commands of the prompt of internal/daemon/interactive.go, and its loop.
use onionmsg.Base.{
  ℕ, zero, suc, ◌+◌, ◌==◌, ◌||◌, Bool, true, false, if◌then◌else◌, List, [], ◌∷◌, ◌++◌, map, length,
  Option, none, some, Bytes, codes, same, trim, Error, Outcome, ok, err, panic,
}
use onionmsg.Base
use onionmsg.Exec.{Exec, done, lift, ask, modify, try_modify, ◌>>=◌, ◌>>◌}
use onionmsg.Ed25519.{Scheme}
use onionmsg.Identity.{Identity, contact, new_identity, fingerprint}
use onionmsg.Message.{Marshal}
use onionmsg.Room.{Room}
use onionmsg.Tor.{Controller}
use onionmsg.Daemon.State.{get_room}
use onionmsg.Daemon.Services.{Ports, register_room, register_cont_id, deregister_cont_id}
use onionmsg.Daemon.Requests.{send_in}
use onionmsg.Daemon.Rooms.{new_room}
use onionmsg.Lifecycle.{Storage, save_data_compressed, exit_daemon}
use onionmsg.Console.{
  Said, Console, Fresh, on_daemon, say, read_line, told, or_tell, Verb, verb_of, read_contacts,
  stop_each, text_content, prompt, failure, enter_fingerprint, contact_identities, a_fingerprint,
  a_room, the_self, enter_contacts, no_peers, trying, empty_line, room_created,
  enter_room_and_message, bad_uid, no_such_room, sent_message, enter_room_uid, enter_room_id,
  unknown_command, save, exit, add_cont, rm_cont, list_cont, list_rooms, add_room, send_message,
  list_messages, stop_room, stop_all_rooms, unknown, message_lines, peer_lines,
}

-- `parse` and `show` are `Parse` and `String` of `google/uuid`.
module _ (g : Storage) (ctrl : Controller) (ports : Ports) (c : Scheme) (j : Marshal)
    (parse : Bytes → Option Bytes) (show : Bytes → Bytes) where
  room_lines : ℕ → List Room → List Said
  unfolding peer_lines
  room_lines n [] = []
  room_lines n (r ∷ rs) =
      a_room n (show r.id)
      ∷ (peer_lines 0 r.peers ++ (the_self (fingerprint r.self) ∷ room_lines (suc n) rs))

  unfoldable pub save_now : Exec Console (Unit {0})
  save_now s =
      let (o, t) = save_data_compressed g s.process.daemon s.process.file in
      told failure o (λ u. done) (record s { process = record s.process { file = t } })

  unfoldable pub exit_now : Exec Console (Unit {0})
  exit_now = modify (λ s. record s { process = exit_daemon g s.process; exited = true })

  unfoldable pub add_contact : Fresh → Exec Console (Unit {0})
  add_contact fresh = do
    i ← lift (new_identity contact fresh.key [])
    or_tell failure (on_daemon (register_cont_id ctrl ports i)) (λ u. done)

  unfoldable pub remove_contact : Exec Console (Unit {0})
  remove_contact = do
    say (enter_fingerprint ∷ [])
    fp ← read_line
    or_tell failure (on_daemon (deregister_cont_id ctrl ports fp)) (λ u. done)

  unfoldable pub made_room : Room → Exec Console (Unit {0})
  made_room r =
      or_tell (λ e. empty_line) (on_daemon (register_room ctrl ports r))
        (λ u. say (room_created (show r.id) (fingerprint r.self) ∷ []))

  unfoldable pub with_contacts : Fresh → List Identity → Exec Console (Unit {0})
  unfolding made_room
  with_contacts fresh [] = say (no_peers ∷ [])
  with_contacts fresh (i ∷ is) = do
    say (trying (length (i ∷ is)) ∷ [])
    or_tell failure (lift (new_room c j fresh.make fresh.times fresh.key fresh.id (i ∷ is)))
        made_room

  unfoldable pub make_room : Fresh → Exec Console (Unit {0})
  unfolding with_contacts
  make_room fresh = do
    say (enter_contacts ∷ [])
    lines ← ask (λ s. ok s.lines)
    ids ← read_contacts lines []
    with_contacts fresh ids

  -- A line that names a room, and what is done with the room.
  unfoldable pub room_found :
      (Bytes → Room → Exec Console (Unit {0})) → Bytes → Option Room → Exec Console (Unit {0})
  room_found k id none = say (no_such_room ∷ [])
  room_found k id (some r) = k id r

  unfoldable pub in_room : (Bytes → Room → Exec Console (Unit {0})) → Exec Console (Unit {0})
  unfolding room_found
  in_room k = do
    uid ← read_line
    elim (parse uid) [
      | none ↦ say (bad_uid ∷ [])
      | some id ↦ do found ← on_daemon (ask (λ d. ok (get_room id d))); room_found k id found
    ]

  unfoldable pub write_message : Fresh → Bytes → Room → Exec Console (Unit {0})
  write_message fresh id r = do
    line ← read_line
    on_daemon (send_in ctrl ports c j (text_content line) fresh.now id (some r))
    say (sent_message ∷ [])

  unfoldable pub stop_rooms : (Room → Bool) → Exec Console (Unit {0})
  stop_rooms p =
      on_daemon
        (try_modify (λ d. Base.◌>>=◌ (stop_each p d.rooms) λ rs. ok (record d { rooms = rs })))

  unfoldable pub stop_named : Exec Console (Unit {0})
  unfolding stop_rooms
  stop_named = do
    say (enter_room_id ∷ [])
    line ← read_line
    elim (same line []) [ true ↦ done | false ↦ stop_rooms (λ r. same (show r.id) line) ]

  unfoldable pub run_verb : Fresh → Bytes → Verb → Exec Console (Unit {0})
  unfolding save_now exit_now add_contact remove_contact make_room in_room write_message stop_rooms
      stop_named room_lines message_lines
  run_verb fresh cmd save = save_now
  run_verb fresh cmd exit = exit_now
  run_verb fresh cmd add_cont = add_contact fresh
  run_verb fresh cmd rm_cont = remove_contact
  run_verb fresh cmd list_cont = do
    say (contact_identities ∷ [])
    d ← on_daemon (λ d. (ok d, d))
    say (map (λ i. a_fingerprint (fingerprint i)) d.contact_identities)
  run_verb fresh cmd list_rooms = do d ← on_daemon (λ d. (ok d, d)); say (room_lines 0 d.rooms)
  run_verb fresh cmd add_room = make_room fresh
  run_verb fresh cmd send_message = do
    say (enter_room_and_message ∷ [])
    in_room (write_message fresh)
  run_verb fresh cmd list_messages = do
    say (enter_room_uid ∷ [])
    in_room (λ id r. say (message_lines r.messages))
  run_verb fresh cmd stop_room = stop_named
  run_verb fresh cmd stop_all_rooms = stop_rooms (λ r. true)
  run_verb fresh cmd unknown = say (unknown_command cmd ∷ [])

  -- One turn of the loop.
  unfoldable pub take_turn : Fresh → Exec Console (Unit {0})
  unfolding run_verb
  take_turn fresh = do say (prompt ∷ []); cmd ← read_line; run_verb fresh cmd (verb_of cmd)

  -- The loop, for as many turns as are given, until `os.Exit`.
  unfoldable pub start_interactive : List Fresh → Exec Console (Unit {0})
  unfolding take_turn
  start_interactive [] = done
  start_interactive (fresh ∷ turns) = do
    take_turn fresh
    exited ← ask (λ s. ok s.exited)
    elim exited [ true ↦ done | false ↦ start_interactive turns ]
