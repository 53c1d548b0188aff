-- ===== src/Daemon/InStep/Served.antt =====
-- The two servers that peers and contacts reach keep a daemon in step.
use onionmsg.Base.{
  ℕ, Bool, true, false, ◌≡◌, [], ◌∷◌, ◌++◌, length, Option, none, some, Bytes, ok, All-append, inl,
  inr, arith,
}
use onionmsg.Exec.{try_modify}
use onionmsg.Ed25519.{Scheme}
use onionmsg.Identity.{Identity, self, new_identity, fingerprint}
use onionmsg.Identity.Keys.{new_identity_keys}
use onionmsg.Message.{Marshal}
use onionmsg.Room.{set_context}
use onionmsg.Conn.{Zstd, write_struct, read_struct}
use onionmsg.Contact.{ContactRequest, ContactResponse, contact_response, inviter}
use onionmsg.Command.NoPanic.{has_meta}
use onionmsg.Peer.{new_messaging_peer}
use onionmsg.Push.{push_messages}
use onionmsg.Tor.{Controller}
use onionmsg.Daemon.State.{
  Daemon, RoomRequest, has_id, get_room, get_contact_id, notify_new_request, call_hook,
  request_arrived,
}
use onionmsg.Daemon.Services.{Ports}
use onionmsg.Daemon.Requests.{with_context, accept_room_request}
use onionmsg.Daemon.Session.{Session, on_conn}
use onionmsg.Daemon.Contacts.{
  answer_contact, take_request, offered, hand_over, addressed, add_request, cont_client_handler,
}
use onionmsg.Daemon.Conversations.{Formats, conv_client_handler}
use onionmsg.Daemon.Conversations.Blobs.{resume-lem, catch-lem}
use onionmsg.Daemon.Conversations.Members.{conv_client_handler-OnlyMembers}
use onionmsg.Daemon.InStep.{Laws, InStep, RoomOk, RequestOk}
use onionmsg.Daemon.InStep.Lists.{find_first-All}
use onionmsg.Daemon.InStep.Kin.{push_messages-Keeps}
use onionmsg.Daemon.InStep.Services.{Stays, hook-Stays, if-Stays}
use onionmsg.Daemon.InStep.Registered.{IsOwn-of}
use onionmsg.Daemon.InStep.Operations.{write_room}
use onionmsg.Daemon.InStep.Accepted.{accept_room_request-Stays}

module _ (c : Scheme) (ctrl : Controller) where
  -- Only the four parts that the invariant reads count.
  same_parts :
      (d t : Daemon)
      → t.rooms ≡ d.rooms
      → t.contact_identities ≡ d.contact_identities
      → t.requests ≡ d.requests
      → t.onions ≡ d.onions
      → InStep c ctrl d
      → InStep c ctrl t
  same_parts d t rooms contacts requests onions s = record {
    served = rw (onions, contacts, rooms) s.served;
    contacts = rw contacts s.contacts;
    rooms = rw rooms s.rooms;
    requests = rw requests s.requests;
  }

  pub conv_client_handler-InStep :
      (z : Zstd) (f : Formats) (j : Marshal) (challenge : Bytes) (s : Session)
      → length challenge ≡ 32
      → InStep c ctrl s.daemon
      → InStep c ctrl (conv_client_handler z f c j challenge s).1.daemon
  conv_client_handler-InStep z f j challenge s size h =
      elim (conv_client_handler-OnlyMembers z f c j challenge s size) [
        | inl same ↦ rw same h
        | inr a ↦
            let fit : RoomOk c a.room =
              find_first-All (RoomOk c) (has_id a.id) s.daemon.rooms a.room
                (unfold get_room in a.found) h.rooms in
            let pushed =
              write_room c ctrl a.id s.daemon a.room (push_messages a.messages a.room).1 a.found
                (push_messages-Keeps a.messages a.room fit.1) h in
            same_parts _ (conv_client_handler z f c j challenge s).1.daemon a.rooms
              a.contact_identities a.requests a.onions pushed
      ]

  -- What a contact offers is a request that can be accepted.
  inviter-has_meta : (req : ContactRequest) (i : Identity) → inviter req ≡ ok i → has_meta i ≡ true
  unfolding inviter
  inviter-has_meta req i h = ground arith

  offered-RoomOk :
      (key : Bytes) (conv_id remote_id : Identity) (req : ContactRequest)
      → c.is_key key ≡ true
      → new_identity self key [] ≡ ok conv_id
      → has_meta remote_id ≡ true
      → RoomOk c (with_context (offered conv_id remote_id req))
  unfolding with_context set_context offered new_messaging_peer new_identity
  offered-RoomOk key conv_id remote_id req generated made meta =
      let (priv, pub_key) = new_identity_keys c key generated self [] (λ p. cc) made in
      (
        IsOwn-of c key conv_id generated priv pub_key,
        record { self_meta = ground arith; peers_meta = (meta, tt); has_ctx = λ p. cc },
      )

  notify_new_request-Stays : (v : RoomRequest) → Stays c ctrl (try_modify (notify_new_request v))
  unfolding notify_new_request
  notify_new_request-Stays v d =
      if-Stays c ctrl d.hooks.new_request (call_hook true (request_arrived v))
        (hook-Stays c ctrl true (request_arrived v)) d

  module _ (laws : Laws c ctrl) (ports : Ports) (j : Marshal) (z : Zstd) where
    take_request-Stays :
        (auto : Bool) (now : ℕ) (v : RoomRequest)
        → RequestOk c v
        → Stays c ctrl (take_request ctrl ports c j z auto now v)
    unfolding take_request add_request
    take_request-Stays auto now v fit d s = go auto
      where
        d1 : Daemon
        d1 = record d { requests = d.requests ++ (v ∷ []) }

        s1 : InStep c ctrl d1
        s1 = record {
          served = s.served;
          contacts = s.contacts;
          rooms = s.rooms;
          requests = All-append (RequestOk c) d.requests (v ∷ []) s.requests (fit, tt);
        }

        accepted : InStep c ctrl (accept_room_request ctrl ports c j now v.id d1).1
        accepted = accept_room_request-Stays c ctrl ports j laws now v.id d1 s1

        go : (auto : Bool) → InStep c ctrl (take_request ctrl ports c j z auto now v d).1
        go true = accepted
        go false = notify_new_request-Stays v d1 s1

    module _ (unmarshal : Bytes → Option ContactRequest)
        (marshal : ContactResponse → Option Bytes) where
      answered :
          (auto : Bool) (now : ℕ) (key id : Bytes) (req : ContactRequest) (found : Option Identity)
          (s : Session)
          → c.is_key key ≡ true
          → InStep c ctrl s.daemon
          → InStep c ctrl
              (answer_contact ctrl ports c j z unmarshal marshal auto now key id req found
                s).1.daemon
      unfolding answer_contact hand_over
      answered auto now key id req none s generated h = h
      answered auto now key id req (some cont) s generated h =
          let P : Session → Type 0 = λ t. InStep c ctrl t.daemon in
          resume-lem P (inviter req) _ s h (λ remote_id invited.
            resume-lem P (new_identity self key []) _ s h (λ conv_id made.
              resume-lem P (contact_response c cont conv_id req) _ s h (λ resp e.
                catch-lem P (on_conn (write_struct z marshal resp)) _ _ s h h (λ n e.
                  take_request-Stays auto now
                    (record {
                      room = offered conv_id remote_id req;
                      via_fingerprint = fingerprint cont;
                      id = id;
                    })
                    (offered-RoomOk key conv_id remote_id req generated made
                      (inviter-has_meta req remote_id invited))
                    s.daemon h))))

      pub cont_client_handler-InStep :
          (auto : Bool) (now : ℕ) (key id : Bytes) (s : Session)
          → c.is_key key ≡ true
          → InStep c ctrl s.daemon
          → InStep c ctrl
              (cont_client_handler ctrl ports c j z unmarshal marshal auto now key id s).1.daemon
      unfolding cont_client_handler addressed
      cont_client_handler-InStep auto now key id s generated h =
          catch-lem (λ t. InStep c ctrl t.daemon) (on_conn (read_struct z unmarshal)) _ _ s h h
            (λ req e.
              answered auto now key id req (get_contact_id req.remote_fp s.daemon)
                (on_conn (read_struct z unmarshal) s).1 generated h)
