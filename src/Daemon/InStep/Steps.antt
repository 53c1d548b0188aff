-- ===== src/Daemon/InStep/Steps.antt =====
-- Everything that happens to a running daemon, in whatever order: the calls of internal/daemon/util.go
-- that internal/api makes, the turns of the prompt, and the connections of peers and contacts. Each ends as it ends: with a
-- value, an error or a panic.
use onionmsg.Base.{ℕ, Bool, false, ◌≡◌, true, List, length, Option, Bytes, Outcome}
use onionmsg.Ed25519.{Scheme}
use onionmsg.Identity.{Identity}
use onionmsg.Message.{Marshal, MessageContent}
use onionmsg.Peer.{Peer}
use onionmsg.Room.{Room}
use onionmsg.Conn.{Conn, Zstd}
use onionmsg.Contact.{ContactRequest, ContactResponse}
use onionmsg.Tor.{Controller}
use onionmsg.Daemon.State.{Daemon, delete_room_request}
use onionmsg.Daemon.Services.{Ports, create_contact_id}
use onionmsg.Daemon.Requests.{accept_room_request, send_message}
use onionmsg.Daemon.Rooms.{create_room, add_peer_to_room, delete_room, delete_contact_id}
use onionmsg.Daemon.Session.{Blobs}
use onionmsg.Daemon.Contacts.{cont_client_handler}
use onionmsg.Daemon.Conversations.{Formats, conv_client_handler}
use onionmsg.Lifecycle.{Storage, Process}
use onionmsg.Console.{Said, Fresh}
use onionmsg.Console.Commands.{take_turn}
use onionmsg.Console.Steady.{IsSound}
use onionmsg.Console.Turns.{take_turn-InStep}
use onionmsg.Daemon.InStep.{Laws, InStep}
use onionmsg.Daemon.InStep.Registered.{
  create_contact_id-Stays, deregister_cont_id-Stays, delete_room-Stays,
}
use onionmsg.Daemon.InStep.Operations.{send_message-Stays, delete_room_request-InStep}
use onionmsg.Daemon.InStep.Accepted.{accept_room_request-Stays}
use onionmsg.Daemon.InStep.Made.{MakesPeers, create_room-Stays, add_peer_to_room-Stays}
use onionmsg.Daemon.InStep.Served.{conv_client_handler-InStep, cont_client_handler-InStep}

pub data Step (c : Scheme) (ctrl : Controller) (ports : Ports) (j : Marshal) (z : Zstd)
    : Daemon → Daemon → Type 0 where
  contact_created :
      (key : Bytes) (d : Daemon)
      → c.is_key key ≡ true
      → Step c ctrl ports j z d (create_contact_id ctrl ports key d).1
  contact_deleted :
      (fp : Bytes) (d : Daemon) → Step c ctrl ports j z d (delete_contact_id ctrl ports fp d).1
  room_created :
      (make : Room → Identity → Outcome Peer) (times : ℕ → ℕ) (key id : Bytes) (fps : List Bytes)
      (d : Daemon)
      → MakesPeers make
      → c.is_key key ≡ true
      → Step c ctrl ports j z d (create_room c j make times ctrl ports key id fps d).1
  peer_added :
      (make : Room → Identity → Outcome Peer) (times : ℕ → ℕ) (id fp : Bytes) (d : Daemon)
      → MakesPeers make
      → Step c ctrl ports j z d (add_peer_to_room c j make times id fp d).1
  room_deleted :
      (parse : Bytes → Option Bytes) (uid : Bytes) (d : Daemon)
      → Step c ctrl ports j z d (delete_room ctrl ports parse uid d).1
  message_sent :
      (parse : Bytes → Option Bytes) (now : ℕ) (uid : Bytes) (k : MessageContent) (d : Daemon)
      → Step c ctrl ports j z d (send_message ctrl ports c j parse now uid k d).1
  request_accepted :
      (now : ℕ) (id : Bytes) (d : Daemon)
      → Step c ctrl ports j z d (accept_room_request ctrl ports c j now id d).1
  request_deleted : (id : Bytes) (d : Daemon) → Step c ctrl ports j z d (delete_room_request id d)
  peer_served :
      (f : Formats) (challenge : Bytes) (conn : Conn) (blobs : Blobs) (d : Daemon)
      → length challenge ≡ 32
      → Step c ctrl ports j z d
          (conv_client_handler z f c j challenge
            (record { conn = conn; daemon = d; blobs = blobs })).1.daemon
  contact_served :
      (unmarshal : Bytes → Option ContactRequest) (marshal : ContactResponse → Option Bytes)
      (auto : Bool) (now : ℕ) (key id : Bytes) (conn : Conn) (blobs : Blobs) (d : Daemon)
      → c.is_key key ≡ true
      → Step c ctrl ports j z d
          (cont_client_handler ctrl ports c j z unmarshal marshal auto now key id
            (record { conn = conn; daemon = d; blobs = blobs })).1.daemon
  prompt_answered :
      (g : Storage) (parse : Bytes → Option Bytes) (show : Bytes → Bytes) (fresh : Fresh)
      (p : Process) (lines : List Bytes) (said : List Said) (d : Daemon)
      → IsSound c fresh
      → Step c ctrl ports j z d
          (take_turn g ctrl ports c j parse show fresh (record {
            process = record p { daemon = d };
            lines = lines;
            said = said;
            exited = false;
          })).1.process.daemon

pub data Reach (c : Scheme) (ctrl : Controller) (ports : Ports) (j : Marshal) (z : Zstd)
    (d : Daemon) : Daemon → Type 0 where
  here : Reach c ctrl ports j z d d
  next :
      {t u : Daemon}
      → Reach c ctrl ports j z d t
      → Step c ctrl ports j z t u
      → Reach c ctrl ports j z d u

module _ {c : Scheme} {ctrl : Controller} {ports : Ports} {j : Marshal} {z : Zstd}
    (laws : Laws c ctrl) where
  Step-InStep : {d t : Daemon} → Step c ctrl ports j z d t → InStep c ctrl d → InStep c ctrl t
  unfolding delete_contact_id
  Step-InStep (contact_created key d generated) =
      create_contact_id-Stays c ctrl laws ports key generated d
  Step-InStep (contact_deleted fp d) = deregister_cont_id-Stays c ctrl laws ports fp d
  Step-InStep (room_created make times key id fps d makes generated) =
      create_room-Stays c j make times makes ctrl laws ports key id fps generated d
  Step-InStep (peer_added make times id fp d makes) =
      add_peer_to_room-Stays c j make times makes ctrl laws id fp d
  Step-InStep (room_deleted parse uid d) = delete_room-Stays c ctrl laws ports parse uid d
  Step-InStep (message_sent parse now uid k d) = send_message-Stays c ctrl j ports parse now uid k d
  Step-InStep (request_accepted now id d) = accept_room_request-Stays c ctrl ports j laws now id d
  Step-InStep (request_deleted id d) = delete_room_request-InStep c ctrl id d
  Step-InStep (peer_served f challenge conn blobs d size) =
      conv_client_handler-InStep c ctrl z f j challenge _ size
  Step-InStep (contact_served unmarshal marshal auto now key id conn blobs d generated) =
      cont_client_handler-InStep c ctrl laws ports j z unmarshal marshal auto now key id _ generated
  Step-InStep (prompt_answered g parse show fresh p lines said d sound) =
      take_turn-InStep c ctrl g ports j parse show laws fresh _ sound

  -- The hidden services that run are, in some order, those of the contact identities and the rooms,
  -- the identities of this side have generated keys, and the rooms, with those that are requested, are
  -- ready: with a Tor that keeps its laws, generated keys, challenges of 32 bytes and dialling that
  -- makes peers with metadata, a daemon that is reached from one of which this holds is again such a
  -- daemon, whatever is called, typed at the prompt or sent by peers and contacts, and however each
  -- call ends.
  pub Reach-InStep : {d t : Daemon} → Reach c ctrl ports j z d t → InStep c ctrl d → InStep c ctrl t
  Reach-InStep here s = s
  Reach-InStep (next reached step) s = Step-InStep step (Reach-InStep reached s)
