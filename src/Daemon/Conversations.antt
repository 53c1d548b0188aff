-- ===== src/Daemon/Conversations.antt =====
-- The server that peers reach: `convClientHandler` and `readBlobs` of
-- internal/daemon/conversation_handler.go.
pub mod Blobs
pub mod Transfer
pub mod Served
pub mod Members
use onionmsg.Base.{
  ℕ, zero, suc, Bool, true, false, if◌then◌else◌, List, [], ◌∷◌, ◌++◌, none, some, Option, Bytes,
  Outcome, ok, err, panic, codes, file_error,
}
use onionmsg.Exec.{Exec, done, raise, lift, ask, modify, try_modify, ◌>>=◌, ◌>>◌}
use onionmsg.Ed25519.{Scheme}
use onionmsg.Message.{Marshal, Message, sig_is_valid}
use onionmsg.SyncMap.{SyncMap}
use onionmsg.Room.{Room, peer_by_fingerprint}
use onionmsg.Push.{push_messages}
use onionmsg.Conn.{Conn, Zstd, write_string, write_struct, read_bytes, read_int, flush}
use onionmsg.Handshake.{attempt, post, post_now, drop_error, read_fingerprint_with_challenge}
use onionmsg.Daemon.Slices.{write_first}
use onionmsg.Daemon.State.{Daemon, has_id, get_room, notify_new_messages}
use onionmsg.Daemon.Session.{
  Session, on_conn, on_daemon, on_blobs, catch, or_return, append_blob, remove_blob,
}

-- Of `encoding/json`, the encodings of times and of a message, and what a slice holds after
-- `Unmarshal` was called for it, with or without an error; `uuid.FromBytes`; and whether the file of
-- a blob can be opened.
pub record Formats : Type 0 where
  pub times : SyncMap → Option Bytes
  pub message : Message → Bytes
  pub messages_of : Bytes → List Message
  pub ids_of : Bytes → List Bytes
  pub from_bytes : Bytes → Option Bytes
  pub can_open : Bytes → Bool

module _ (z : Zstd) (f : Formats) where
  -- `conn.WriteString(s)`, whose error is dropped.
  abbrev say : Bytes → Exec Session (Unit {0})
  say s = on_conn (post z s)

  abbrev say_now : Bytes → Exec Session (Unit {0})
  say_now s = on_conn (post_now z s)

  -- `conn.ReadStruct(&xs)` for an empty slice, whose error is dropped.
  slice_of : {A : Type 0} → (Bytes → List A) → Outcome Bytes → Outcome (List A)
  slice_of of (ok raw) = ok (of raw)
  slice_of of (err e) = ok []
  slice_of of panic = panic

  read_slice : {A : Type 0} → (Bytes → List A) → Exec Session (List A)
  unfolding slice_of
  read_slice of = on_conn (λ d. let (o, t) = read_bytes z d in (slice_of of o, t))

  -- The blocks of one blob. Writes to an open file succeed.
  read_blocks : Bytes → ℕ → Exec Session (Unit {0})
  read_blocks id zero = done
  read_blocks id (suc n) = do
    buf ← on_conn (read_bytes z)
    on_blobs (append_blob id buf)
    say_now (codes "block_ok")
    read_blocks id n

  -- The deferred removal runs when the function ends with an error or a panic.
  removed_unless_ok : Bytes → Outcome (Unit {0}) → Exec Session (Unit {0})
  removed_unless_ok id (ok u) s = (ok u, s)
  removed_unless_ok id (err e) s = (err e, record s { blobs = remove_blob id s.blobs })
  removed_unless_ok id panic s = (panic, record s { blobs = remove_blob id s.blobs })

  or_remove : Bytes → Exec Session (Unit {0}) → Exec Session (Unit {0})
  unfolding removed_unless_ok
  or_remove id m s = let (o, t) = m s in removed_unless_ok id o t

  read_file : Bytes → ℕ → Exec Session (Unit {0})
  unfolding read_blocks or_remove
  read_file id blockcount =
      or_remove id
        (do on_blobs (append_blob id []); read_blocks id blockcount; say_now (codes "blob_ok"))

  read_opened : Bytes → Bool → ℕ → Exec Session (Unit {0})
  unfolding read_file
  read_opened id true blockcount = read_file id blockcount
  read_opened id false blockcount = raise file_error

  unfoldable pub read_each : List Bytes → Exec Session (Unit {0})
  unfolding read_opened
  read_each [] = done
  read_each (id ∷ ids) = do
    blockcount ← on_conn (read_int z)
    read_opened id (f.can_open id) blockcount
    read_each ids

  unfoldable pub read_blobs : Exec Session (Unit {0})
  unfolding read_each read_slice
  read_blobs = do ids ← read_slice f.ids_of; read_each ids

  module _ (c : Scheme) (j : Marshal) where
    -- The first message whose signature is not valid.
    unfoldable pub first_invalid : List Message → Outcome (Option Message)
    first_invalid [] = ok none
    first_invalid (m ∷ ms) = elim (sig_is_valid c j m) [
      | ok v ↦ if v then first_invalid ms else ok (some m)
      | err e ↦ err e
      | panic ↦ panic
    ]

    -- `room.PushMessages(newMsgs...)`, whose result is always nil, on the room in the list.
    unfoldable pub push_into : Bytes → Room → List Message → Exec Daemon (Unit {0})
    push_into id r ms d =
        let (o, t) = push_messages ms r in
        (o, record d { rooms = write_first (has_id id) t d.rooms })

    abbrev announce : Bytes → List Message → Daemon → Outcome Daemon
    announce id [] d = ok d
    announce id (m ∷ ms) d = notify_new_messages id (m ∷ ms) d

    unfoldable pub take_messages : Bytes → Room → List Message → Exec Session (Unit {0})
    unfolding push_into
    take_messages id r ms = do
      say_now (codes "messages_ok")
      catch read_blobs done (λ u. done)
      on_daemon (push_into id r ms)
      on_daemon (try_modify (announce id ms))
      say_now (codes "sync_ok")

    unfoldable pub check_messages : Bytes → Room → List Message → Exec Session (Unit {0})
    unfolding take_messages first_invalid
    check_messages id r ms = do
      bad ← lift (first_invalid ms)
      elim bad [
        | some m ↦ say (codes "message_sig_invalid " ++ f.message m)
        | none ↦ take_messages id r ms
      ]

    unfoldable pub serve_member : Bytes → Room → Exec Session (Unit {0})
    unfolding check_messages read_slice
    serve_member id r = do
      say (codes "auth_ok")
      on_conn (attempt (write_struct z f.times r.sync_state))
      on_conn (modify flush)
      ms ← read_slice f.messages_of
      check_messages id r ms

    admit_to : Bytes → Bytes → Option Room → Exec Session (Unit {0})
    unfolding serve_member
    admit_to fp id none = say (codes "auth_failed")
    admit_to fp id (some r) = elim (peer_by_fingerprint r fp) [
      | none ↦ say (codes "auth_failed")
      | some i ↦ serve_member id r
    ]

    unfoldable pub admit : Bytes → Option Bytes → Exec Session (Unit {0})
    unfolding admit_to
    admit fp none = say (codes "malformed_uuid")
    admit fp (some id) = do found ← on_daemon (ask (λ d. ok (get_room id d))); admit_to fp id found

    abbrev room_named : Bytes → Bytes → Exec Session (Unit {0})
    room_named fp raw = admit fp (f.from_bytes raw)

    unfoldable pub identified : Bytes → Exec Session (Unit {0})
    unfolding admit
    identified fp = or_return (on_conn (read_bytes z)) (room_named fp)

    -- `r` is the challenge that `rand.Read` makes.
    unfoldable pub conv_client_handler : Bytes → Exec Session (Unit {0})
    unfolding identified
    conv_client_handler r =
        catch (on_conn (read_fingerprint_with_challenge z c r)) (say (codes "auth_failed"))
          identified
