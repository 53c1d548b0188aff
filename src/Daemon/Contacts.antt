-- ===== src/Daemon/Contacts.antt =====
-- The server that contacts reach: `contClientHandler` of internal/daemon/contact_handler.go, the whole
-- of it over a connection and the state of the daemon.
pub mod Requested
use onionmsg.Base.{
  ℕ, Bool, true, false, List, [], ◌∷◌, ◌++◌, none, some, Option, Bytes, Outcome, ok, err, panic,
}
use onionmsg.Exec.{Exec, done, raise, lift, ask, modify, try_modify, ◌>>=◌, ◌>>◌}
use onionmsg.Ed25519.{Scheme}
use onionmsg.Identity.{Identity, self, new_identity, fingerprint}
use onionmsg.Message.{Marshal}
use onionmsg.Peer.{new_messaging_peer, absent}
use onionmsg.Room.{Room}
use onionmsg.Conn.{Conn, Zstd, write_struct, read_struct, flush}
use onionmsg.Handshake.{attempt}
use onionmsg.Contact.{ContactRequest, ContactResponse, contact_response, inviter}
use onionmsg.Tor.{Controller}
use onionmsg.Daemon.State.{Daemon, RoomRequest, get_contact_id, notify_new_request}
use onionmsg.Daemon.Session.{Session, on_conn, on_daemon, or_return}
use onionmsg.Daemon.Services.{Ports}
use onionmsg.Daemon.Requests.{accept_room_request}

-- The room that is offered: its context is nil.
unfoldable pub offered : Identity → Identity → ContactRequest → Room
offered conv_id remote_id req = record {
  self = conv_id;
  peers = new_messaging_peer remote_id ∷ [];
  id = req.id;
  name = [];
  messages = [];
  sync_state = [];
  ctx = absent;
}

unfoldable pub add_request : RoomRequest → Daemon → Daemon
add_request v d = record d { requests = d.requests ++ (v ∷ []) }

module _ (ctrl : Controller) (ports : Ports) (c : Scheme) (j : Marshal) (z : Zstd) where
  -- `key` is what `GenerateKey` returns and `id` what `uuid.New` returns. An error of the acceptance
  -- is dropped.
  unfoldable pub take_request : Bool → ℕ → RoomRequest → Exec Daemon (Unit {0})
  unfolding add_request
  take_request auto now v = do
    modify (add_request v)
    elim auto [
      | true ↦ attempt (accept_room_request ctrl ports c j now v.id)
      | false ↦ try_modify (notify_new_request v)
    ]

  -- What follows the response.
  unfoldable pub hand_over : Bool → ℕ → RoomRequest → Exec Session (Unit {0})
  unfolding take_request
  hand_over auto now v = do on_conn (modify flush); on_daemon (take_request auto now v)

  module _ (unmarshal : Bytes → Option ContactRequest)
      (marshal : ContactResponse → Option Bytes) where
    unfoldable pub answer_contact :
        Bool → ℕ → Bytes → Bytes → ContactRequest → Option Identity → Exec Session (Unit {0})
    unfolding offered
    answer_contact auto now key id req none = done
    answer_contact auto now key id req (some cont) = do
      remote_id ← lift (inviter req)
      conv_id ← lift (new_identity self key [])
      resp ← lift (contact_response c cont conv_id req)
      or_return (on_conn (write_struct z marshal resp)) (λ n. hand_over auto now (record {
        room = offered conv_id remote_id req;
        via_fingerprint = fingerprint cont;
        id = id;
      }))

    unfoldable pub addressed : Bool → ℕ → Bytes → Bytes → ContactRequest → Exec Session (Unit {0})
    unfolding answer_contact
    addressed auto now key id req = do
      found ← on_daemon (ask (λ d. ok (get_contact_id req.remote_fp d)))
      answer_contact auto now key id req found

    unfoldable pub cont_client_handler : Bool → ℕ → Bytes → Bytes → Exec Session (Unit {0})
    unfolding addressed
    cont_client_handler auto now key id =
        or_return (on_conn (read_struct z unmarshal)) (addressed auto now key id)
