-- ===== src/Tests/Meetings.antt =====
-- Alice sends Bob's side a message with a file, over connections on which all has arrived.
use onionmsg.Base.{
  ◌≡◌, ◌≤◌, refl, true, List, [], ◌∷◌, ◌++◌, some, codes, ok, arith, Bytes, length, All, map, same,
  ◌<◌, leb, false, length-append, drop-append, append-nil,
}
use onionmsg.Base64.{encode, decode, char_of, digit_of, decode_groups}
use onionmsg.Ed25519
use onionmsg.Ed25519.{toy, all_bytes, public_of}
use onionmsg.Identity.{sign, self, new_identity, fingerprint, fill_key_pair}
use onionmsg.Message.{
  Message, MessageContent, message, content, utc, file, no_reply, sig_is_valid, check_sig,
  sign_data,
}
use onionmsg.SyncMap.{copy_sync_map, lookup}
use onionmsg.Peer.{Peer, find_messages_to_sync, is_newer}
use onionmsg.Room.{Room, peer_by_fingerprint, find_peer}
use onionmsg.Command.NoPanic.{IsReady}
use onionmsg.Conn.{Conn, int_to_bytes}
use onionmsg.Conn.Channel.{Link, Fits, Fits-short, frame_bytes, frames, HeadersWhole}
use onionmsg.Conn.Refinement.{
  Op, read_msg, write_msg, flush_all, calls, acts, Carries, Channel, calls_refines,
}
use onionmsg.Conn.Stream.{joined, after}
use onionmsg.Daemon.State.{get_room}
use onionmsg.Daemon.Slices.{find_first}
use onionmsg.Daemon.Session.{Session}
use onionmsg.Daemon.Conversations.{Formats, conv_client_handler}
use onionmsg.Daemon.Conversations.Served.{Served, conv_client_handler-serves, saying, answering}
use onionmsg.Sync.{Encodings, converse, file_of, blob_ids_from_messages}
use onionmsg.Sync.Blocks.{blocks, blocks_of, block_count, Counts, joined-blocks, blocksize}
use onionmsg.Sync.Sends.{cut, Holds}
use onionmsg.Sync.Hushed.{converse-hushed}
use onionmsg.Sync.Converse.{converse-syncs}
use onionmsg.Daemon.Conversations.Transfer.{acks, carried}
use onionmsg.Handshake.{proven}
use onionmsg.Push.{push_messages}
use onionmsg.Push.Clock.{Noted, sender, time}
use onionmsg.Push.Delivery.{Lacking}
use onionmsg.Push.Batch.{push_locked-lem}
use onionmsg.Sync.Meeting.{cut-CanSend, meeting-delivers}
use onionmsg.Tests.Data.{
  alice_fp, alice_key, fresh_alice, bob, room, room_id, daemon, plain, repeat, uncompressed,
  bob_peer,
}

abbrev file_id : Bytes
file_id = 3 ∷ []

abbrev sent_files : List (Bytes × Bytes)
sent_files = (file_id, codes "a file") ∷ []

abbrev file_content : MessageContent
file_content =
    content file no_reply (some (record { id = file_id; name = codes "f"; type = []; size = 6 })) []

abbrev with_file : Message
with_file =
    message (record { sender = alice_fp; time = 4; zone = utc }) file_content
      (repeat 32 1 ++ (alice_fp ++ (4 ∷ [])))

with_file-valid : sig_is_valid toy plain with_file ≡ ok true
unfolding sig_is_valid check_sig sign_data Ed25519.verify toy all_bytes decode digit_of
    decode_groups same
with_file-valid = refl

-- Alice's room, and Bob's with her as a peer.
abbrev callers : Room
callers = record room { self = fresh_alice; messages = with_file ∷ [] }

abbrev alice_peer : Peer
alice_peer = record bob_peer { r_identity = record bob { pub_key = some (repeat 32 1) } }

abbrev servers : Room
servers = record room {
  self = record fresh_alice { pub_key = some (repeat 32 2) };
  peers = alice_peer ∷ [];
}

servers-IsReady : IsReady servers
servers-IsReady = record { self_meta = refl; peers_meta = (refl, tt); has_ctx = λ e. ground arith }

abbrev encodings : Encodings
encodings = record {
  times_of = λ raw. some servers.sync_state;
  messages = λ ms. some (6 ∷ []);
  ids = λ ids. some (7 ∷ []);
}

abbrev formats : Formats
formats = record {
  times = λ times. some (5 ∷ []);
  message = λ m. [];
  messages_of = λ raw. with_file ∷ [];
  ids_of = λ raw. file_id ∷ [];
  from_bytes = some;
  can_open = λ id. true;
}

abbrev challenge : Bytes
challenge = repeat 32 9

abbrev proof : Bytes
proof = repeat 32 1 ++ challenge

-- All that is to be read arrives at once.
abbrev hears : List Bytes → Conn
hears ms = record { arrived = frames uncompressed ms ∷ []; buffered = []; sent = [] }

frame-long : (m rest : Bytes) → 4 < length (frame_bytes uncompressed m ++ rest)
unfolding int_to_bytes
frame-long m rest = omega arith

at_once :
    (m : Bytes) (ms : List Bytes)
    → HeadersWhole uncompressed (frames uncompressed (m ∷ ms) ∷ []) (m ∷ ms)
unfolding after
at_once m [] = (omega (arith, frame-long m []), tt)
at_once m (k ∷ ms) =
    let f : Bytes = frame_bytes uncompressed m in
    let rest : Bytes = frames uncompressed (k ∷ ms) in
    let whole = frame-long k (frames uncompressed ms) in
    let more : leb (length (f ++ rest)) (length f) ≡ false = ground (arith, length-append f rest) in
    (omega (arith, frame-long m rest), rw (more, drop-append f rest) (at_once k ms))

hears-Link : (m : Bytes) (ms : List Bytes) → Link uncompressed (hears (m ∷ ms)) (m ∷ ms) []
hears-Link m ms = record {
  full = (omega (arith, frame-long m (frames uncompressed ms)), tt);
  incoming = append-nil (frames uncompressed (m ∷ ms));
  headers = at_once m ms;
  early = [];
  sent = refl;
  waiting = refl;
}

abbrev answers : List Bytes
answers =
    codes "auth_ok"
    ∷ (5 ∷ [])
    ∷ codes "messages_ok"
    ∷ (acks (map cut sent_files) ++ (codes "sync_ok" ∷ []))

abbrev says_more : List Bytes
says_more = proof ∷ room_id ∷ (6 ∷ []) ∷ (7 ∷ []) ∷ carried (map cut sent_files)

abbrev alices_end : Conn
alices_end = hears (answering challenge (5 ∷ []) (map cut sent_files))

abbrev bobs_end : Session
bobs_end = record {
  conn = hears (saying alice_fp proof room_id (6 ∷ []) (7 ∷ []) (map cut sent_files));
  daemon = record daemon { rooms = servers ∷ [] };
  blobs = [];
}

frames-Fits :
    All
      (Fits uncompressed)
      (challenge ∷ alice_fp ∷ proof ∷ room_id ∷ (5 ∷ []) ∷ (6 ∷ []) ∷ (7 ∷ []) ∷ [])
frames-Fits = (
  Fits-short uncompressed challenge (omega arith),
  (
    Fits-short uncompressed alice_fp (omega arith),
    (
      Fits-short uncompressed proof (omega arith),
      (
        Fits-short uncompressed room_id (omega arith),
        (
          Fits-short uncompressed (5 ∷ []) (omega arith),
          (
            Fits-short uncompressed (6 ∷ []) (omega arith),
            (Fits-short uncompressed (7 ∷ []) (omega arith), tt),
          ),
        ),
      ),
    ),
  ),
)

meeting-delivers_example :
    (e : Conn) × (u : Session) × (w : Room) × (converse uncompressed encodings sent_files toy
        callers alices_end
      ≡ (ok tt, e))
    × (conv_client_handler uncompressed formats toy plain challenge bobs_end ≡ (ok tt, u))
    × ((e.sent ≡ joined bobs_end.conn.arrived) × (e.buffered ≡ []))
    × ((u.conn.sent ≡ joined alices_end.arrived) × (u.conn.buffered ≡ []))
    × (get_room room_id u.daemon ≡ some w)
    × Lacking servers.sync_state callers.messages (with_file ∷ [])
    × (w.messages ≡ servers.messages ++ (with_file ∷ []))
    × All (λ m. Noted w.sync_state (sender m) (time m)) callers.messages
    × All (Holds u.blobs) sent_files
unfolding toy all_bytes new_identity fill_key_pair public_of fingerprint encode char_of
    find_messages_to_sync is_newer lookup same get_room find_first peer_by_fingerprint find_peer
    blob_ids_from_messages file_of blocks blocks_of block_count
meeting-delivers_example =
    meeting-delivers uncompressed encodings formats toy plain callers servers
      (record bob { pub_key = some (repeat 32 1) }) alice_key [] challenge (5 ∷ []) (6 ∷ [])
      (7 ∷ []) self sent_files sent_files alices_end bobs_end refl (λ e. ground arith) refl (tt, tt)
      (with_file-valid, tt) refl (refl, tt) ((omega arith, refl), tt) (refl, tt, tt) servers-IsReady
      refl refl refl (refl, refl) (refl, refl) (refl, refl) frames-Fits
      (hears-Link challenge answers) (hears-Link alice_fp says_more)

joined-blocks_example :
    (joined (blocks (codes "a file")) ≡ codes "a file")
    × All (λ b. length b ≤ blocksize) (blocks (codes "a file"))
    × (length (blocks (codes "a file")) ≡ block_count (length (codes "a file")))
    × Counts (block_count (length (codes "a file"))) (length (codes "a file"))
joined-blocks_example = joined-blocks (codes "a file")

abbrev two_calls : List Op
two_calls = write_msg (codes "hi") ∷ read_msg ∷ flush_all ∷ read_msg ∷ []

abbrev one_waits : Channel
one_waits = record { incoming = codes "auth_ok" ∷ []; waiting = []; outgoing = [] }

calls_refines_example :
    ((calls uncompressed two_calls (hears (codes "auth_ok" ∷ []))).0
      ≡ (acts uncompressed two_calls one_waits).0)
    × Carries uncompressed
        (calls uncompressed two_calls (hears (codes "auth_ok" ∷ []))).1
        (acts uncompressed two_calls one_waits).1
calls_refines_example =
    calls_refines uncompressed two_calls (hears (codes "auth_ok" ∷ [])) one_waits (
      hears-Link (codes "auth_ok") [],
      (Fits-short uncompressed (codes "auth_ok") (omega arith), tt),
    )

converse-syncs_example :
    (t : Conn) × (converse uncompressed encodings sent_files toy callers alices_end ≡ (ok tt, t))
    × Link uncompressed t [] (saying alice_fp proof room_id (6 ∷ []) (7 ∷ []) (map cut sent_files))
unfolding toy all_bytes fingerprint encode char_of find_messages_to_sync is_newer lookup same
    blob_ids_from_messages file_of sign Ed25519.sign blocks blocks_of block_count
converse-syncs_example =
    converse-syncs uncompressed encodings sent_files toy callers challenge proof (5 ∷ []) (6 ∷ [])
      (7 ∷ []) servers.sync_state sent_files [] alices_end (hears-Link challenge answers)
      frames-Fits refl refl refl refl refl (refl, tt)

-- The answers break off after the times.
abbrev broken_off : List Bytes
broken_off = codes "auth_ok" ∷ (5 ∷ []) ∷ []

converse-hushed_example :
    let t =
      (converse uncompressed encodings sent_files toy callers (hears (challenge ∷ broken_off))).1 in
    (t.buffered ≡ []) × ((outs : List Bytes) × (t.sent ≡ frames uncompressed outs))
converse-hushed_example =
    converse-hushed uncompressed encodings sent_files toy callers (challenge ∷ broken_off)
      (hears (challenge ∷ broken_off)) (hears-Link challenge broken_off)
      (
        Fits-short uncompressed challenge (omega arith),
        (
          Fits-short uncompressed (codes "auth_ok") (omega arith),
          (Fits-short uncompressed (5 ∷ []) (omega arith), tt),
        ),
      )

pushes : (push_messages (with_file ∷ []) servers).0 ≡ ok tt
unfolding push_messages
pushes =
    (push_locked-lem (copy_sync_map servers.sync_state) (with_file ∷ []) servers servers-IsReady).0

proof-proven : proven uncompressed toy challenge alice_fp proof ≡ ok alice_fp
unfolding proven Ed25519.verify toy all_bytes decode digit_of decode_groups same
proof-proven = refl

conv_client_handler-serves_example :
    (u : Session) × (conv_client_handler uncompressed formats toy plain challenge bobs_end
      ≡ (ok tt, u))
    × Served uncompressed formats toy plain room_id
        (push_messages (with_file ∷ []) servers).1
        (map cut sent_files)
        []
        (answering challenge (5 ∷ []) (map cut sent_files))
        bobs_end
        u
unfolding get_room find_first same peer_by_fingerprint find_peer fingerprint encode char_of blocks
    blocks_of block_count
conv_client_handler-serves_example =
    conv_client_handler-serves uncompressed formats toy plain challenge alice_fp proof room_id
      room_id (5 ∷ []) (6 ∷ []) (7 ∷ []) servers (record bob { pub_key = some (repeat 32 1) })
      (with_file ∷ []) (map cut sent_files) [] bobs_end (hears-Link alice_fp says_more) frames-Fits
      proof-proven refl refl refl refl refl (with_file-valid, tt) pushes refl
      (cut-CanSend uncompressed encodings formats sent_files ((omega arith, refl), tt))
