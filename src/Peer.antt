-- ===== src/Peer.antt =====
-- internal/types/messaging_peer.go: the other members of a room and what is sent to them. A nil
-- `stop` is the state `idle`, and a nil `skipTimeout` is `no_wait`.
pub mod Rounds
use onionmsg.Base.{
  ℕ, Bool, true, ltb, List, [], Option, none, some, Bytes, Outcome, ok, panic, keep,
}
use onionmsg.Identity.{Identity, fingerprint}
use onionmsg.Message.{Message, meta_of}
use onionmsg.SyncMap.{SyncMap, lookup}

-- A context: nil, live, or cancelled.
pub data Context : Type 0 where
  absent active cancelled : Context

pub data Queue : Type 0 where
  idle running stopped : Queue

-- The pause between two rounds of the queue.
pub data Wait : Type 0 where
  no_wait sleeping bumped : Wait

pub record Peer : Type 0 where
  pub r_identity : Identity
  pub last_sync_state : SyncMap
  pub queue : Queue
  pub wait : Wait

unfoldable pub new_messaging_peer : Identity → Peer
new_messaging_peer rid = record {
  r_identity = rid;
  last_sync_state = [];
  queue = idle;
  wait = no_wait;
}

-- The start of `RunMessageQueue`: `context.WithCancel` panics on a nil parent, and the loop ends at
-- once if the parent is cancelled.
unfoldable pub start_queue : Context → Peer → Outcome Peer
start_queue absent p = panic
start_queue active p = ok (record p { queue = running })
start_queue cancelled p = ok (record p { queue = stopped })

stop_running : Queue → Queue
stop_running idle = idle
stop_running _ = stopped

unfoldable pub stop : Peer → Peer
unfolding stop_running
stop p = record p { queue = stop_running p.queue }

skip : Wait → Wait
skip no_wait = no_wait
skip _ = bumped

unfoldable pub bump_queue : Peer → Peer
unfolding skip
bump_queue p = record p { wait = skip p.wait }

abbrev pub peer_fingerprint : Peer → Bytes
peer_fingerprint p = fingerprint p.r_identity

-- `!ok || msg.Meta.Time.After(last)`
unfoldable pub is_newer : Option ℕ → ℕ → Bool
is_newer none time = true
is_newer (some last) time = ltb last time

-- The messages of the room that the remote side has not seen, in the room's order.
unfoldable pub find_messages_to_sync : List Message → SyncMap → List Message
find_messages_to_sync messages remote =
    keep (λ m. is_newer (lookup (meta_of m).sender remote) (meta_of m).time) messages
