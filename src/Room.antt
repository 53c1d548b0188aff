-- ===== src/Room.antt =====
-- internal/types/room.go: a room and its members. Commands that its messages carry are in Command,
-- and the arrival of messages is in Push.
use onionmsg.Base.{
  Bool, if◌then◌else◌, List, [], ◌∷◌, map, Option, none, some, Bytes, same, Outcome, ok, err, panic,
  context_set, peer_not_found, ◌>>=◌,
}
use onionmsg.Identity.{Identity, IdentityMeta, fingerprint}
use onionmsg.Message.{Message}
use onionmsg.SyncMap.{SyncMap}
use onionmsg.Peer.{Peer, Context, absent, active, cancelled, peer_fingerprint, start_queue, stop}

pub record Room : Type 0 where
  pub self : Identity
  pub peers : List Peer
  pub id : Bytes
  pub name : Bytes
  pub messages : List Message
  pub sync_state : SyncMap
  pub ctx : Context

-- The parent context is never cancelled: it is `context.Background()` wherever this is called.
unfoldable pub set_context : Room → Outcome Room
set_context r = elim r.ctx [
  | absent ↦ ok (record r { ctx = active })
  | active ↦ err context_set
  | cancelled ↦ err context_set
]

unfoldable pub start_all : Context → List Peer → Outcome (List Peer)
start_all ctx [] = ok []
start_all ctx (p ∷ ps) = do q ← start_queue ctx p; qs ← start_all ctx ps; ok (q ∷ qs)

unfoldable pub run_message_queue_for_all_peers : Room → Outcome Room
unfolding start_all
run_message_queue_for_all_peers r = do ps ← start_all r.ctx r.peers; ok (record r { peers = ps })

unfoldable pub find_peer : Bytes → List Peer → Option Peer
find_peer fp [] = none
find_peer fp (p ∷ ps) = if same (peer_fingerprint p) fp then some p else find_peer fp ps

abbrev identity_of : Option Peer → Option Identity
identity_of none = none
identity_of (some p) = some p.r_identity

unfoldable pub peer_by_fingerprint : Room → Bytes → Option Identity
unfolding find_peer
peer_by_fingerprint r fp = identity_of (find_peer fp r.peers)

unfoldable pub is_self : Room → Bytes → Bool
is_self r fp = same fp (fingerprint r.self)

-- `r.stop` is nil as long as the room has no context.
unfoldable pub stop_queues : Room → Outcome Room
stop_queues r = elim r.ctx [
  | absent ↦ panic
  | active ↦ ok (record r { ctx = cancelled; peers = map stop r.peers })
  | cancelled ↦ ok (record r { ctx = cancelled; peers = map stop r.peers })
]

-- The first peer with the fingerprint is taken out.
unfoldable pub without_peer : Bytes → List Peer → List Peer
without_peer fp [] = []
without_peer fp (p ∷ ps) = if same (peer_fingerprint p) fp then ps else p ∷ without_peer fp ps

-- The peer that was taken out, with its queue stopped, and the room without it.
unfoldable pub remove_peer : Room → Bytes → Outcome (Peer × Room)
unfolding without_peer find_peer
remove_peer r fp = elim (find_peer fp r.peers) [
  | none ↦ err (peer_not_found fp)
  | some p ↦ ok (stop p, record r { peers = without_peer fp r.peers })
]

-- `Nicks` and `Admins` are maps in the source; here the last entry of a key counts.
pub record RoomInfo : Type 0 where
  pub self_fp : Bytes
  pub peer_fps : List Bytes
  pub id : Bytes
  pub name : Bytes
  pub members : List (Bytes × IdentityMeta)

-- An identity without metadata is a nil pointer that `Info` follows.
member : Identity → Outcome (Bytes × IdentityMeta)
member i = elim i.meta [ none ↦ panic | some m ↦ ok (fingerprint i, m) ]

peer_members : List Peer → Outcome (List (Bytes × IdentityMeta))
unfolding member
peer_members [] = ok []
peer_members (p ∷ ps) = do m ← member p.r_identity; ms ← peer_members ps; ok (m ∷ ms)

unfoldable pub info : Room → Outcome RoomInfo
unfolding peer_members member
info r = do
  own ← member r.self
  others ← peer_members r.peers
  ok (record {
    self_fp = fingerprint r.self;
    peer_fps = map peer_fingerprint r.peers;
    id = r.id;
    name = r.name;
    members = own ∷ others;
  })
