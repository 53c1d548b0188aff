-- ===== src/Push.antt =====
-- `PushMessages` of internal/types/room.go: how messages enter a room.
pub mod Batch
pub mod Clock
pub mod OneByOne
pub mod Orderly
pub mod Delivery
pub mod Interleaving
use onionmsg.Base.{
  ℕ, Bool, true, false, if◌then◌else◌, List, [], ◌∷◌, ◌++◌, map, Option, none, some, Bytes, codes,
  Outcome, ok, err, panic,
}
use onionmsg.Base
use onionmsg.Ed25519.{Scheme}
use onionmsg.Exec.{Exec, done, ask, modify, lift, ◌>>=◌, ◌>>◌, try_modify}
use onionmsg.Identity.{Identity, fingerprint}
use onionmsg.Message.{
  Message, MessageContent, Marshal, content, meta_of, content_of, type_of, is_cmd, new_message, cmd,
  no_reply,
}
use onionmsg.SyncMap.{SyncMap, lookup, insert, copy_sync_map}
use onionmsg.Peer.{Peer, is_newer, bump_queue, peer_fingerprint, start_queue}
use onionmsg.Room
use onionmsg.Room.{Room}
use onionmsg.Command.{handle_command, room_commands, invite, construct_command}

-- An error of a command is logged; a panic is not caught.
swallow : Outcome (Unit {0}) → Outcome (Unit {0})
swallow (ok x) = ok tt
swallow (err e) = ok tt
swallow panic = panic

unfoldable pub run_command : Message → Exec Room (Unit {0})
unfolding swallow
run_command m r =
    if is_cmd (type_of (content_of m))
    then (let (o, t) = handle_command room_commands m r in (swallow o, t))
    else (ok tt, r)

unfoldable pub append_message : Message → Room → Room
append_message m r = record r { messages = r.messages ++ (m ∷ []) }

-- `!ok || msg.Meta.Time.After(last)`, where `last` is the time in a map.
abbrev pub is_fresh : SyncMap → Message → Bool
is_fresh times m = is_newer (lookup (meta_of m).sender times) (meta_of m).time

-- The loop under the mutex, over the room and the new times. The room's own times, `times`, stay
-- as they are until the end of the loop.
unfoldable pub push_loop : SyncMap → List Message → SyncMap → Exec Room SyncMap
push_loop times [] new_times r = (ok new_times, r)
push_loop times (m ∷ ms) new_times r = elim (is_fresh times m) [
  | false ↦ push_loop times ms new_times r
  | true ↦ elim (run_command m r).0 [
    | ok x ↦
        push_loop times ms (insert (meta_of m).sender (meta_of m).time new_times)
          (append_message m (run_command m r).1)
    | err e ↦ (err e, (run_command m r).1)
    | panic ↦ (panic, (run_command m r).1)
  ]
]

abbrev pub set_times : SyncMap → Room → Room
set_times times r = record r { sync_state = times }

-- The part under the mutex, given the copy that was made before it was taken.
unfoldable pub push_locked : SyncMap → List Message → Exec Room (Unit {0})
push_locked copy ms r =
    (do new_times ← push_loop r.sync_state ms copy; modify (set_times new_times)) r

unfoldable pub push_messages : List Message → Exec Room (Unit {0})
push_messages ms r = push_locked (copy_sync_map r.sync_state) ms r

module _ (c : Scheme) (j : Marshal) where
  abbrev bump_all : Room → Room
  bump_all r = record r { peers = map bump_queue r.peers }

  unfoldable pub send_message_to_all_peers : ℕ → MessageContent → Exec Room (Unit {0})
  send_message_to_all_peers now k = do
    m ← ask (λ r. new_message c j now k r.self)
    push_messages (m ∷ [])
    modify bump_all

  abbrev pub invite_content : Bytes → MessageContent
  invite_content fp = content cmd no_reply none (invite ++ (codes " " ++ fp))

  -- One message for each peer; `times` are the readings of the clock.
  unfoldable pub sync_loop : (ℕ → ℕ) → ℕ → List Peer → Exec Room (Unit {0})
  sync_loop times n [] = done
  sync_loop times n (p ∷ ps) = do
    send_message_to_all_peers (times n) (invite_content (peer_fingerprint p))
    sync_loop times (Base.suc n) ps

  unfoldable pub sync_peer_lists : (ℕ → ℕ) → Exec Room (Unit {0})
  unfolding sync_loop
  sync_peer_lists times r = sync_loop times 0 r.peers r
