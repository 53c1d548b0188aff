-- ===== src/Command/Frame.antt =====
-- What commands leave alone: the messages, the times, the id, the context and the keys of the room.
use onionmsg.Base.{◌≡◌, refl, Error, ok, err, arith}
use onionmsg.Identity.{Identity, IdentityMeta}
use onionmsg.Message.{Message}
use onionmsg.Peer.{Peer, new_messaging_peer}
use onionmsg.Room.{Room}
use onionmsg.Command.NoPanic.{IsReady}
use onionmsg.Command.Cases.{
  Result, invite_cases, name_room_cases, nick_cases, promote_cases, remove_peer_cases, room_cases,
}
use onionmsg.Command.Ready.{removed-room}
use onionmsg.Command.{
  MetaRef, of_peer, of_self, write_ref, start_and_append, promoted, removed, set_nick, set_admin,
  handle_command, room_commands,
}

-- Only metadata differ.
abbrev pub SameKeys : Identity → Identity → Type 0
SameKeys i j = (j.priv ≡ i.priv) × (j.pub_key ≡ i.pub_key)

pub record Frame (r t : Room) : Type 0 where
  pub messages : t.messages ≡ r.messages
  pub sync_state : t.sync_state ≡ r.sync_state
  pub id : t.id ≡ r.id
  pub ctx : t.ctx ≡ r.ctx
  pub keys : SameKeys r.self t.self

pub Frame-refl : (r : Room) → Frame r r
Frame-refl r = record {
  messages = refl;
  sync_state = refl;
  id = refl;
  ctx = refl;
  keys = (refl, refl);
}

write_ref-Frame :
    (f : IdentityMeta → IdentityMeta) (ref : MetaRef) (r t : Room)
    → write_ref f ref r ≡ ok t
    → Frame r t
unfolding write_ref
write_ref-Frame f (of_peer fp) r t h = ground arith
write_ref-Frame f of_self r t h = ground arith

start_and_append-Frame : (p : Peer) (r t : Room) → start_and_append p r ≡ ok t → Frame r t
unfolding start_and_append
start_and_append-Frame p r t h = ground arith

promoted-Frame : (fp : _) (r t : Room) → promoted fp r ≡ ok t → Frame r t
unfolding promoted
promoted-Frame fp r t h =
    ground
      (arith, write_ref-Frame set_admin (of_peer fp) r t, write_ref-Frame set_admin of_self r t)

removed-Frame : (fp : _) (r t : Room) → removed fp r ≡ ok t → Frame r t
removed-Frame fp r t h = rw (removed-room r t fp h) (ground arith)

-- In a ready room, no message with whatever content changes the log of the room, its times, its id,
-- its context or its own keys: a command changes at most the name and who is a member with what metadata.
pub handle_command-Frame :
    (r : Room) (m : Message) → IsReady r → Frame r (handle_command room_commands m r).1
handle_command-Frame r m ready =
    let P : Result → Type 0 = λ (o, t). Frame r t in
    let fails : (e : Error) → P (err e, r) = λ e. ground arith in
    room_cases P r m fails
      (λ k.
        invite_cases P r ready m k fails
          (λ fp i t _ _ added. start_and_append-Frame (new_messaging_peer i) r t added))
      (λ k. name_room_cases P r ready m k fails (λ name. ground arith))
      (λ k.
        nick_cases P r ready m k fails
          (λ name i ref t _ written. write_ref-Frame (set_nick name) ref r t written))
      (λ k.
        promote_cases P r ready m k fails (λ fp i ref t _ written. promoted-Frame fp r t written))
      (λ k. remove_peer_cases P r ready m k fails (λ fp i ref t _ gone. removed-Frame fp r t gone))
