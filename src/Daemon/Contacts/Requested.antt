-- ===== src/Daemon/Contacts/Requested.antt =====
-- What a contact can change: with requests that wait for the user, nothing but the list of requests.
use onionmsg.Base.{
  ℕ, ◌≤◌, ◌≡◌, refl, true, false, List, [], ◌∷◌, ◌++◌, length, none, some, Option, Bytes, Outcome,
  ok, err, panic, arith, append-nil, Bool-cases, inl, inr,
}
use onionmsg.Exec.{Exec, resume}
use onionmsg.Ed25519.{Scheme}
use onionmsg.Identity.{Identity, self, new_identity, fingerprint}
use onionmsg.Message.{Marshal}
use onionmsg.Conn.{Zstd, write_struct, read_struct}
use onionmsg.Contact.{ContactRequest, ContactResponse, contact_response, inviter}
use onionmsg.Tor.{Controller}
use onionmsg.Daemon.State.{
  Daemon, RoomRequest, get_contact_id, notify_new_request, emit, call_hook, Event, request_arrived,
}
use onionmsg.Daemon.Services.{Ports}
use onionmsg.Daemon.Session.{Session, on_conn, or_return, catch}
use onionmsg.Daemon.Contacts.{
  answer_contact, take_request, offered, hand_over, addressed, add_request, cont_client_handler,
}

pub record OnlyAsked (d t : Daemon) : Type 0 where
  pub rooms : t.rooms ≡ d.rooms
  pub contact_identities : t.contact_identities ≡ d.contact_identities
  pub onions : t.onions ≡ d.onions
  pub requests : (rest : List RoomRequest) × (t.requests ≡ d.requests ++ rest) × (length rest ≤ 1)

OnlyAsked-refl : (d : Daemon) → OnlyAsked d d
OnlyAsked-refl d = record {
  rooms = refl;
  contact_identities = refl;
  onions = refl;
  requests = ([], rw append-nil, omega arith);
}

module _ (d : Daemon) where
  or_return-lem :
      {A : Type 0} (m : Exec Session A) (k : A → Exec Session (Unit {0})) (s : Session)
      → OnlyAsked d (m s).1.daemon
      → ((a : A) → OnlyAsked d (k a (m s).1).1.daemon)
      → OnlyAsked d (or_return m k s).1.daemon
  or_return-lem m k s before after = go (m s).0 refl
    where
      go : (o : Outcome _) → (m s).0 ≡ o → OnlyAsked d (or_return m k s).1.daemon
      go (ok a) e = rw (e, or_return, catch) (after a)
      go (err f) e = rw (e, or_return, catch) before
      go panic e = rw (e, or_return, catch) before

  resume-lem :
      {A : Type 0} (o : Outcome A) (k : A → Exec Session (Unit {0})) (t : Session)
      → OnlyAsked d t.daemon
      → ((a : A) → OnlyAsked d (k a t).1.daemon)
      → OnlyAsked d (resume o k t).1.daemon
  resume-lem (ok a) k t before after = after a
  resume-lem (err f) k t before after = before
  resume-lem panic k t before after = before

module _ (ctrl : Controller) (ports : Ports) (c : Scheme) (j : Marshal) (z : Zstd) where
  one_more :
      (v : RoomRequest) (d : Daemon) (es : List Event)
      → OnlyAsked d (record d { requests = d.requests ++ (v ∷ []); events = es })
  one_more v d es = record {
    rooms = refl;
    contact_identities = refl;
    onions = refl;
    requests = (v ∷ [], refl, omega arith);
  }

  take_request-OnlyAsked :
      (now : ℕ) (v : RoomRequest) (d : Daemon)
      → OnlyAsked d (take_request ctrl ports c j z false now v d).1
  unfolding take_request add_request notify_new_request emit call_hook
  take_request-OnlyAsked now v d = elim (Bool-cases d.hooks.new_request) [
    | inl set ↦ rw set (
        one_more v (record d { hooks = record d.hooks { new_request = true } })
          (d.events ++ (request_arrived v ∷ [])))
    | inr nil ↦
        rw nil (one_more v (record d { hooks = record d.hooks { new_request = false } }) d.events)
  ]

  module _ (unmarshal : Bytes → Option ContactRequest)
      (marshal : ContactResponse → Option Bytes) where
    answered :
        (now : ℕ) (key id : Bytes) (req : ContactRequest) (found : Option Identity) (s : Session)
        → OnlyAsked s.daemon
            (answer_contact ctrl ports c j z unmarshal marshal false now key id req found
              s).1.daemon
    unfolding answer_contact hand_over
    answered now key id req none s = OnlyAsked-refl s.daemon
    answered now key id req (some cont) s =
        let request_of : Identity → Identity → Identity → RoomRequest = λ remote_id conv_id cont.
          record {
            room = offered conv_id remote_id req;
            via_fingerprint = fingerprint cont;
            id = id;
          } in
        let same = OnlyAsked-refl s.daemon in
        resume-lem s.daemon (inviter req) _ s same (λ remote_id.
          resume-lem s.daemon (new_identity self key []) _ s same (λ conv_id.
            resume-lem s.daemon (contact_response c cont conv_id req) _ s same (λ resp.
              or_return-lem s.daemon (on_conn (write_struct z marshal resp))
                (λ n. hand_over ctrl ports c j z false now (request_of remote_id conv_id cont)) s
                same
                (λ n. take_request-OnlyAsked now (request_of remote_id conv_id cont) s.daemon))))

    -- Whatever a contact sends, and however the connection ends: unless requests are accepted
    -- without asking, the rooms, the contact identities and the hidden services stay as they are, and
    -- at most one request is added, behind those that were there.
    pub cont_client_handler-OnlyAsked :
        (now : ℕ) (key id : Bytes) (s : Session)
        → OnlyAsked s.daemon
            (cont_client_handler ctrl ports c j z unmarshal marshal false now key id s).1.daemon
    unfolding cont_client_handler addressed
    cont_client_handler-OnlyAsked now key id s =
        or_return-lem s.daemon (on_conn (read_struct z unmarshal))
          (addressed ctrl ports c j z unmarshal marshal false now key id) s
          (OnlyAsked-refl s.daemon)
          (λ req.
            answered now key id req (get_contact_id req.remote_fp s.daemon)
              (on_conn (read_struct z unmarshal) s).1)
