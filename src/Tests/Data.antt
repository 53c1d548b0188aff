-- ===== src/Tests/Data.antt =====
-- Concrete data: a scheme without secrecy, plain encoders, a Tor that accepts and one that refuses,
-- and a room of two members.
use onionmsg.Base.{
  length, ℕ, zero, suc, Bool, true, false, List, [], ◌∷◌, ◌++◌, none, some, Bytes, same, refl,
  codes, ok, err, tor_error, keep, not,
}
use onionmsg.Identity.{Identity, IdentityMeta, self, remote, contact}
use onionmsg.Message.{Message, Marshal, message, content, utc, cmd, text, no_reply, data_of}
use onionmsg.Peer.{Peer, active, no_wait, running}
use onionmsg.Room.{Room}
use onionmsg.Conn.{int_to_bytes, Zstd}
use onionmsg.Tor.{Controller, Onion}
use onionmsg.Daemon.State.{Daemon, RoomRequest}
use onionmsg.Daemon.Services.{Ports}

abbrev pub repeat : ℕ → ℕ → Bytes
repeat zero b = []
repeat (suc n) b = b ∷ repeat n b

abbrev pub framed : Bytes → Bytes
framed b = int_to_bytes (length b) ++ (0 ∷ b)

abbrev pub alice_key : Bytes
alice_key = repeat 64 1

abbrev pub bob_key : Bytes
bob_key = repeat 64 2

abbrev pub alice_fp : Bytes
alice_fp = codes "AQEBAQEBAQEBAQEBAQEBAQEBAQEBAQEBAQEBAQEBAQE"

abbrev pub bob_fp : Bytes
bob_fp = codes "AgICAgICAgICAgICAgICAgICAgICAgICAgICAgICAgI"

abbrev pub meta_with : Bool → IdentityMeta
meta_with b = record { nick = []; admin = b }

abbrev pub alice : Identity
alice = record {
  type = self;
  priv = some alice_key;
  pub_key = some (repeat 32 1);
  meta = some (meta_with true);
}

abbrev pub fresh_alice : Identity
fresh_alice = record {
  type = self;
  priv = some alice_key;
  pub_key = some (repeat 32 1);
  meta = some (meta_with false);
}

abbrev pub bob : Identity
bob = record {
  type = remote;
  priv = none;
  pub_key = some (repeat 32 2);
  meta = some (meta_with false);
}

abbrev pub bob_contact : Identity
bob_contact = record {
  type = contact;
  priv = some bob_key;
  pub_key = some (repeat 32 2);
  meta = none;
}

abbrev pub plain : Marshal
plain = record { marshal_meta = λ m. m.sender ++ (m.time ∷ []); marshal_content = data_of }

abbrev pub uncompressed : Zstd
uncompressed = record { encode_all = λ b. b; decode_all = some; decode_encode = λ b. refl }

abbrev pub other_than : Bytes → Onion → Bool
other_than sid o = not (same o.service sid)

abbrev pub willing_tor : Controller
willing_tor = record {
  onion_from_ed25519 = ok;
  service_id_from_ed25519 = ok;
  add_onion = λ os o. ok (o ∷ os);
  delete_onion = λ os sid. ok (keep (other_than sid) os);
}

abbrev pub refusing_tor : Controller
refusing_tor = record {
  onion_from_ed25519 = ok;
  service_id_from_ed25519 = ok;
  add_onion = λ os o. err tor_error;
  delete_onion = λ os sid. err tor_error;
}

abbrev pub bob_peer : Peer
bob_peer = record { r_identity = bob; last_sync_state = []; queue = running; wait = no_wait }

abbrev pub room_id : Bytes
room_id = 7 ∷ []

abbrev pub says : Bytes → ℕ → Bytes → Message
says fp t d =
    message (record { sender = fp; time = t; zone = utc }) (content text no_reply none d) (fp ++ d)

abbrev pub commands : Bytes → ℕ → Bytes → Message
commands fp t d =
    message (record { sender = fp; time = t; zone = utc }) (content cmd no_reply none d) []

abbrev pub room : Room
room = record {
  self = alice;
  peers = bob_peer ∷ [];
  id = room_id;
  name = codes "room";
  sync_state = (bob_fp, 1) ∷ [];
  messages = says bob_fp 1 (codes "hi") ∷ [];
  ctx = active;
}

abbrev pub log : List Message
log =
    says bob_fp 1 (codes "hi") ∷ says bob_fp 3 (codes "again") ∷ says alice_fp 2 (codes "yes") ∷ []

abbrev pub remote_room : Room
remote_room = record room { messages = log; sync_state = (bob_fp, 3) ∷ (alice_fp, 2) ∷ [] }

abbrev pub request : RoomRequest
request = record { room = room; via_fingerprint = bob_fp; id = 9 ∷ [] }

abbrev pub ports : Ports
ports = record { lo_cont_port = 10050; lo_conv_port = 10051 }

abbrev pub daemon : Daemon
daemon = record {
  contact_identities = bob_contact ∷ [];
  rooms = record room { id = 8 ∷ [] } ∷ room ∷ record room { id = 6 ∷ [] } ∷ [];
  requests = request ∷ [];
  onions = record { service = repeat 32 1; tor_port = 10051; local_port = 10051 } ∷ [];
  hooks = record { new_message = true; new_room = true; on_error = true; new_request = true };
  events = [];
}
