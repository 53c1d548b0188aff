-- ===== src/Tests/Rooms.antt =====
-- Command messages and batches in a room of two members.
use onionmsg.Base.{All, ◌≡◌, refl, List, [], ◌∷◌, ◌++◌, codes, ok, arith, same}
use onionmsg.Base64.{encode, char_of}
use onionmsg.Identity.{fingerprint, admin}
use onionmsg.Peer.{find_messages_to_sync, is_newer}
use onionmsg.SyncMap.{lookup, copy_sync_map}
use onionmsg.Room.{find_peer, peer_by_fingerprint}
use onionmsg.Command.{room_commands, handle_command}
use onionmsg.Command.NoPanic.{IsReady}
use onionmsg.Command.Ready.{Survives, handle_command-IsReady}
use onionmsg.Command.Authority.{NoEscalation, is_admin, handle_command-NoEscalation}
use onionmsg.Message.{Message}
use onionmsg.Push.{push_messages, push_locked}
use onionmsg.Push.Clock.{Noted, sender, time}
use onionmsg.Push.Orderly.{IsOrderly, push_messages-IsOrderly}
use onionmsg.Push.Delivery.{Lacking, push_messages-delivers}
use onionmsg.Push.OneByOne.{push_each, Agree, push_messages-push_each}
use onionmsg.Push.Interleaving.{push_both, push_both-loses}
use onionmsg.Tests.Data.{alice_fp, bob_fp, room, remote_room, log, says, commands}

pub room-IsReady : IsReady room
room-IsReady = record { self_meta = refl; peers_meta = (refl, tt); has_ctx = λ e. ground arith }

room-IsOrderly : IsOrderly room
unfolding is_newer lookup same
room-IsOrderly = record { ascending = (tt, tt); noted = (refl, tt) }

handle_command-IsReady_example :
    Survives (handle_command room_commands (commands bob_fp 4 (codes "nick bobby")) room)
handle_command-IsReady_example =
    handle_command-IsReady room (commands bob_fp 4 (codes "nick bobby")) room-IsReady

handle_command-NoEscalation_example :
    NoEscalation room
      (handle_command room_commands (commands bob_fp 4 (codes "promote " ++ bob_fp)) room).1
unfolding is_admin peer_by_fingerprint find_peer same fingerprint encode char_of admin
handle_command-NoEscalation_example =
    handle_command-NoEscalation room (commands bob_fp 4 (codes "promote " ++ bob_fp)) room-IsReady
      refl

push_messages-delivers_example :
    let sent = find_messages_to_sync remote_room.messages room.sync_state in
    let (o, t) = push_messages sent room in
    Lacking room.sync_state remote_room.messages sent
    × (o ≡ ok tt)
    × (t.messages ≡ room.messages ++ sent)
    × All (λ m. Noted t.sync_state (sender m) (time m)) remote_room.messages
    × (find_messages_to_sync remote_room.messages t.sync_state ≡ [])
    × IsReady t
push_messages-delivers_example = push_messages-delivers remote_room room (ground arith) room-IsReady

push_messages-IsOrderly_example : IsOrderly (push_messages log room).1
push_messages-IsOrderly_example =
    push_messages-IsOrderly log room room-IsReady (ground arith) room-IsOrderly

push_both-loses_example :
    let s = (push_locked (copy_sync_map room.sync_state) (says bob_fp 5 [] ∷ []) room).1 in
    let t = push_both (says bob_fp 5 [] ∷ []) (says alice_fp 6 [] ∷ []) room in
    (lookup bob_fp t.sync_state ≡ lookup bob_fp room.sync_state)
    × ((news1 : List Message) × (news2 : List Message) × Lacking room.sync_state
          (says bob_fp 5 [] ∷ [])
          news1
        × Lacking s.sync_state (says alice_fp 6 [] ∷ []) news2
        × (t.messages ≡ (room.messages ++ news1) ++ news2))
push_both-loses_example =
    push_both-loses (says bob_fp 5 [] ∷ []) (says alice_fp 6 [] ∷ []) room bob_fp room-IsReady
      ((λ e. ground arith), tt)

push_messages-push_each_example :
    let (o, t) = push_messages log room in
    let (p, u) = push_each log room in
    (o ≡ ok tt) × (p ≡ ok tt) × (t.messages ≡ u.messages) × Agree t.sync_state u.sync_state
push_messages-push_each_example = push_messages-push_each log room room-IsReady (ground arith)
