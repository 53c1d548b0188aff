-- ===== src/Sync.antt =====
-- The calling side of a conversation: `syncMsgs` and `sendBlobs` of internal/types/messaging_peer.go
-- with `blobIDsFromMessages` of internal/types/util.go. The files are those of pkg/blobmngr; a read
-- gives as many bytes as the buffer holds, or all that are left, and at the end of the file an error.
pub mod Blocks
pub mod Sends
pub mod Converse
pub mod Stored
pub mod Hushed
pub mod Meeting
use onionmsg.Base.{
  ℕ, zero, suc, List, [], ◌∷◌, Option, none, some, Bytes, same, if◌then◌else◌, take, drop, length,
  Outcome, ok, err, panic, codes, room_not_set, file_error,
}
use onionmsg.Exec.{Exec, done, raise, modify, lift, ◌>>=◌, ◌>>◌}
use onionmsg.Ed25519.{Scheme}
use onionmsg.Identity.{Identity, url}
use onionmsg.Message.{Message, content_of, blob_of, BlobMeta}
use onionmsg.SyncMap.{SyncMap}
use onionmsg.Peer.{Peer, find_messages_to_sync}
use onionmsg.Room.{Room}
use onionmsg.Conn.{Conn, Zstd, write_bytes, write_struct, write_int, read_struct, flush}
use onionmsg.Handshake.{attempt, expect_response, fingerprint_challenge}
use onionmsg.Daemon.Session.{Blobs}
use onionmsg.Daemon.State.{pub_conv_port}
use onionmsg.Sync.Blocks.{blocksize, block_count}

-- Of `encoding/json`, what this side encodes and decodes.
pub record Encodings : Type 0 where
  pub times_of : Bytes → Option SyncMap
  pub messages : List Message → Option Bytes
  pub ids : List Bytes → Option Bytes

-- `Content.Blob.ID`
blob_ids : Option BlobMeta → List Bytes → List Bytes
blob_ids none ids = ids
blob_ids (some b) ids = b.id ∷ ids

unfoldable pub blob_ids_from_messages : List Message → List Bytes
unfolding blob_ids
blob_ids_from_messages [] = []
blob_ids_from_messages (m ∷ ms) = blob_ids (blob_of (content_of m)) (blob_ids_from_messages ms)

-- What the file of an id holds; without a file `os.Stat` fails.
unfoldable pub file_of : Bytes → Blobs → Option Bytes
file_of id [] = none
file_of id ((i, b) ∷ bs) = if same i id then some b else file_of id bs

-- A write whose error is dropped, and a flush.
unfoldable pub put : Exec Conn ℕ → Exec Conn (Unit {0})
put w = do attempt w; modify flush

module _ (z : Zstd) where
  -- The loop over the blocks, with what is left of the file to read.
  unfoldable pub send_blocks : ℕ → Bytes → Exec Conn (Unit {0})
  send_blocks zero file = done
  send_blocks (suc c) [] = raise file_error
  send_blocks (suc c) (b ∷ file) = do
    put (write_bytes z (take blocksize (b ∷ file)))
    expect_response z (codes "block_ok")
    send_blocks c (drop blocksize (b ∷ file))

  unfoldable pub send_file : Option Bytes → Exec Conn (Unit {0})
  unfolding send_blocks
  send_file none = raise file_error
  send_file (some file) = do
    put (write_int z (block_count (length file)))
    send_blocks (block_count (length file)) file
    expect_response z (codes "blob_ok")

  unfoldable pub send_each : Blobs → List Bytes → Exec Conn (Unit {0})
  unfolding send_file
  send_each files [] = done
  send_each files (id ∷ ids) = do send_file (file_of id files); send_each files ids

  module _ (f : Encodings) (files : Blobs) where
    unfoldable pub send_blobs : List Bytes → Exec Conn (Unit {0})
    unfolding send_each
    send_blobs ids = do put (write_struct z f.ids ids); send_each files ids

    module _ (c : Scheme) where
      -- `syncMsgs` once the connection is there.
      unfoldable pub converse : Room → Exec Conn (Unit {0})
      unfolding send_blobs
      converse r = do
        fingerprint_challenge z c r.self
        put (write_bytes z r.id)
        expect_response z (codes "auth_ok")
        remote_sync_times ← read_struct z f.times_of
        put (write_struct z f.messages (find_messages_to_sync r.messages remote_sync_times))
        expect_response z (codes "messages_ok")
        send_blobs (blob_ids_from_messages (find_messages_to_sync r.messages remote_sync_times))
        expect_response z (codes "sync_ok")

      -- `dial` stands for `GetConnFunc` at an address and a port. The connection is closed at the end;
      -- it comes back with what was written to it.
      unfoldable pub sync_msgs :
          (Bytes → Bytes)
          → (Bytes → ℕ → Outcome Conn)
          → Option Room
          → Peer
          → Outcome (Unit {0}) × Option Conn
      unfolding converse
      sync_msgs service_id_of dial none p = (err room_not_set, none)
      sync_msgs service_id_of dial (some r) p =
          elim (dial (url service_id_of p.r_identity) pub_conv_port) [
            | err e ↦ (err e, none)
            | panic ↦ (panic, none)
            | ok d ↦ let (o, t) = converse r d in (o, some t)
          ]
