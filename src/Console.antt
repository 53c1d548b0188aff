-- ===== src/Console.antt =====
-- The prompt of internal/daemon/interactive.go, over lines that are typed and what is printed.
pub mod Commands
pub mod Operations
pub mod Rooms
pub mod Steady
pub mod Making
pub mod Turns
pub mod Endless
use onionmsg.Base.{
  ℕ, zero, suc, ◌+◌, ◌==◌, ◌||◌, Bool, true, false, if◌then◌else◌, List, [], ◌∷◌, ◌++◌, map, length,
  Option, none, some, Bytes, codes, same, trim, Error, Outcome, ok, err, panic,
}
use onionmsg.Base
use onionmsg.Exec.{Exec, done, raise, lift, ask, modify, try_modify, ◌>>=◌, ◌>>◌}
use onionmsg.Ed25519.{Scheme}
use onionmsg.Identity.{Identity, remote, contact, new_identity, fingerprint}
use onionmsg.Message.{
  Message, Marshal, ContentType, MessageContent, content, text, no_reply, meta_of, content_of,
  type_of, data_of,
}
use onionmsg.Peer.{Peer, peer_fingerprint}
use onionmsg.Room.{Room, stop_queues}
use onionmsg.Tor.{Controller}
use onionmsg.Daemon.State.{Daemon, get_room}
use onionmsg.Daemon.Services.{Ports, register_room, register_cont_id, deregister_cont_id}
use onionmsg.Daemon.Requests.{send_in}
use onionmsg.Daemon.Rooms.{new_room}
use onionmsg.Lifecycle.{Storage, Process, save_data_compressed, exit_daemon}

-- What is printed, line by line.
pub data Said : Type 0 where
  prompt : Said
  failure : Error → Said
  enter_fingerprint contact_identities : Said
  a_fingerprint : Bytes → Said
  a_room : ℕ → Bytes → Said
  a_peer : ℕ → Bytes → Said
  the_self : Bytes → Said
  enter_contacts no_peers : Said
  trying : ℕ → Said
  empty_line : Said
  room_created : Bytes → Bytes → Said
  enter_room_and_message bad_uid no_such_room sent_message : Said
  enter_room_uid enter_room_id : Said
  sent_from : Bytes → ℕ → Said
  with_content : ContentType → Bytes → Said
  unknown_command : Bytes → Said

-- The lines that are still to come, each as `ReadString` returns it; at the end of the input it
-- returns an empty text, with an error that is dropped.
pub record Console : Type 0 where
  pub process : Process
  pub lines : List Bytes
  pub said : List Said
  pub exited : Bool

-- What one turn of the prompt takes from elsewhere: a key of `GenerateKey`, a `uuid.New`, the
-- dialling of contacts, and the readings of the clock.
pub record Fresh : Type 0 where
  pub key : Bytes
  pub id : Bytes
  pub make : Room → Identity → Outcome Peer
  pub times : ℕ → ℕ
  pub now : ℕ

abbrev pub is_blank : ℕ → Bool
is_blank b = (b == 32) || (b == 10)

unfoldable pub trimmed : Bytes → Bytes
trimmed line = trim is_blank line

-- A call on the daemon.
abbrev pub on_daemon : {A : Type 0} → Exec Daemon A → Exec Console A
on_daemon m s =
    let (o, t) = m s.process.daemon in (o, record s { process = record s.process { daemon = t } })

unfoldable pub say : List Said → Exec Console (Unit {0})
say lines = modify (λ s. record s { said = s.said ++ lines })

unfoldable pub read_line : Exec Console Bytes
unfolding trimmed
read_line s = elim s.lines [
  | [] ↦ (ok [], s)
  | line ∷ rest ↦ (ok (trimmed line), record s { lines = rest })
]

-- `if err != nil { log.Println(...); continue }`
abbrev pub told :
    {A : Type 0}
    → (Error → Said)
    → Outcome A
    → (A → Exec Console (Unit {0}))
    → Exec Console (Unit {0})
told f (ok a) k s = k a s
told f (err e) k s = say (f e ∷ []) s
told f panic k s = (panic, s)

abbrev pub or_tell :
    {A : Type 0}
    → (Error → Said)
    → Exec Console A
    → (A → Exec Console (Unit {0}))
    → Exec Console (Unit {0})
or_tell f m k s = let (o, t) = m s in told f o k t

pub data Verb : Type 0 where
  save exit add_cont rm_cont list_cont list_rooms add_room send_message list_messages stop_room :
      Verb
  stop_all_rooms unknown : Verb

unfoldable pub verb_of : Bytes → Verb
verb_of cmd =
    if same cmd (codes "save")
    then save
    else if same cmd (codes "exit")
    then exit
    else if same cmd (codes "add_cont")
    then add_cont
    else if same cmd (codes "rm_cont")
    then rm_cont
    else if same cmd (codes "list_cont")
    then list_cont
    else if same cmd (codes "list_rooms")
    then list_rooms
    else if same cmd (codes "add_room")
    then add_room
    else if same cmd (codes "send_message")
    then send_message
    else if same cmd (codes "list_messages")
    then list_messages
    else if same cmd (codes "stop_room")
    then stop_room
    else if same cmd (codes "stop_all_rooms")
    then stop_all_rooms
    else unknown

-- The lines of a contact each, up to an empty one; one that names no key is skipped.
unfoldable pub read_contacts : List Bytes → List Identity → Exec Console (List Identity)
unfolding trimmed
read_contacts [] ids s = (ok ids, s)
read_contacts (line ∷ rest) ids s =
    let u = record s { lines = rest } in
    elim (same (trimmed line) []) [
      | true ↦ (ok ids, u)
      | false ↦ elim (new_identity remote [] (trimmed line)) [
        | ok i ↦ read_contacts rest (ids ++ (i ∷ [])) u
        | err e ↦ read_contacts rest ids (record u { said = u.said ++ (failure e ∷ []) })
        | panic ↦ (panic, u)
      ]
    ]

-- The queues of the rooms for which `p` holds are stopped.
unfoldable pub stop_each : (Room → Bool) → List Room → Outcome (List Room)
stop_each p [] = ok []
stop_each p (r ∷ rs) =
    Base.◌>>=◌ (if p r then stop_queues r else ok r)
      λ s. Base.◌>>=◌ (stop_each p rs) λ ss. ok (s ∷ ss)

unfoldable pub message_lines : List Message → List Said
message_lines [] = []
message_lines (m ∷ ms) =
    sent_from (meta_of m).sender (meta_of m).time
    ∷ with_content (type_of (content_of m)) (data_of (content_of m))
    ∷ message_lines ms

unfoldable pub peer_lines : ℕ → List Peer → List Said
peer_lines n [] = []
peer_lines n (p ∷ ps) = a_peer n (peer_fingerprint p) ∷ peer_lines (suc n) ps

abbrev pub text_content : Bytes → MessageContent
text_content line = content text no_reply none line
