-- ===== src/Daemon/Services.antt =====
-- internal/daemon/room_util.go and contact_util.go: rooms and contact identities come with a hidden
-- service.
pub mod Removal
use onionmsg.Base.{
  ℕ, ◌-◌, zero, suc, Bool, true, false, ◌&&◌, ltb, if◌then◌else◌, List, [], ◌∷◌, ◌++◌, map, take,
  drop, length, Option, none, some, Bytes, same, Outcome, Error, ok, err, panic, room_not_found,
  request_not_found, malformed_uuid,
}
use onionmsg.Base
use onionmsg.Exec.{Exec, done, raise, lift, ask, modify, try_modify, ◌>>=◌, ◌>>◌}
use onionmsg.Ed25519.{Scheme}
use onionmsg.Identity.{Identity, contact, new_identity, fingerprint}
use onionmsg.Message.{Message, MessageContent, Marshal, content, cmd, no_reply}
use onionmsg.Room.{Room, RoomInfo, info, set_context, stop_queues, run_message_queue_for_all_peers}
use onionmsg.Command.{construct_command, accept}
use onionmsg.Push.{send_message_to_all_peers}
use onionmsg.Tor.{Controller, Onion, register_service, deregister_service}
use onionmsg.Daemon.State.{
  pub_conv_port, pub_cont_port, Daemon, get_room, get_contact_id, delete_room_from_slice,
  delete_contact_id_from_slice, notify_new_room,
}

-- The local ports, which the command line may shift.
pub record Ports : Type 0 where
  pub lo_cont_port : ℕ
  pub lo_conv_port : ℕ

-- `*p`
unfoldable pub deref : Option Bytes → Outcome Bytes
deref none = panic
deref (some b) = ok b

module _ (ctrl : Controller) (ports : Ports) where
  unfoldable pub serve : ℕ → ℕ → Identity → Daemon → Outcome Daemon
  unfolding deref
  serve tor_port local_port i d = Base.◌>>=◌ (deref i.priv) λ key.
      Base.◌>>=◌ (register_service ctrl key tor_port local_port d.onions)
        λ onions. ok (record d { onions = onions })

  unfoldable pub withdraw : Identity → Daemon → Outcome Daemon
  unfolding deref
  withdraw i d = Base.◌>>=◌ (deref i.pub_key) λ key.
      Base.◌>>=◌ (deregister_service ctrl key d.onions) λ onions. ok (record d { onions = onions })

  unfoldable pub serve_conv_id_service : Identity → Exec Daemon (Unit {0})
  unfolding serve
  serve_conv_id_service i = try_modify (serve pub_conv_port ports.lo_conv_port i)

  unfoldable pub serve_cont_id_service : Identity → Exec Daemon (Unit {0})
  unfolding serve
  serve_cont_id_service i = try_modify (serve pub_cont_port ports.lo_cont_port i)

  unfoldable pub register_room : Room → Exec Daemon (Unit {0})
  register_room r = do
    serve_conv_id_service r.self
    modify (λ d. record d { rooms = d.rooms ++ (r ∷ []) })
    i ← lift (info r)
    try_modify (notify_new_room i)

  -- The stopped room is dropped from the list.
  unfoldable pub remove_found_room : Bytes → Option Room → Exec Daemon (Unit {0})
  unfolding withdraw
  remove_found_room id none = done
  remove_found_room id (some r) = do
    try_modify (withdraw r.self)
    stopped ← lift (stop_queues r)
    modify (delete_room_from_slice id)

  unfoldable pub deregister_room : Bytes → Exec Daemon (Unit {0})
  unfolding remove_found_room
  deregister_room id = do found ← ask (λ d. ok (get_room id d)); remove_found_room id found

  unfoldable pub register_cont_id : Identity → Exec Daemon (Unit {0})
  register_cont_id i = do
    serve_cont_id_service i
    modify (λ d. record d { contact_identities = d.contact_identities ++ (i ∷ []) })

  unfoldable pub remove_found_contact : Option Identity → Exec Daemon (Unit {0})
  unfolding withdraw
  remove_found_contact none = done
  remove_found_contact (some i) = do
    try_modify (withdraw i)
    modify (delete_contact_id_from_slice i)

  unfoldable pub deregister_cont_id : Bytes → Exec Daemon (Unit {0})
  unfolding remove_found_contact
  deregister_cont_id fp = do found ← ask (λ d. ok (get_contact_id fp d)); remove_found_contact found

  -- `key` is what `GenerateKey` returns. An error of `NewIdentity` is dropped; it makes none here.
  unfoldable pub create_contact_id : Bytes → Exec Daemon Bytes
  create_contact_id key = do
    i ← lift (new_identity contact key [])
    register_cont_id i
    lift (ok (fingerprint i))
